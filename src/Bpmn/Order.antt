-- ===== src/Bpmn/Order.antt =====
-- The order in which the source's language sorts texts: by their UTF-16 code units.
use Prim.Native.Nat.{Ordering, compare, ◌/◌, ◌%◌}
use Prim.Native.Char.{Char, char, code}
use text.Mathlib.Text.{◌==◌}
use text.Mathlib.TextEquality.{Char-path, eq_iff}
use zeebe_client_node_js.Base.{
  ℕ, ◌+◌, ◌-◌, ◌<◌, ◌≡◌, refl, ap₂, Bool, true, false, Option, none, some, List, [], ◌∷◌, ◌++◌,
  String, if◌then◌else◌, ltb, arith, ◌⊎◌, inl, inr, ◌↔◌, ap,
}

-- The code units of a character: itself, or two surrogates.
abbrev units_of : ℕ → List ℕ
units_of c =
    if ltb c 0x10000
    then c ∷ []
    else (0xD800 + (c - 0x10000) / 1024) ∷ (0xDC00 + (c - 0x10000) % 1024) ∷ []

abbrev pub units : String → List ℕ
units String.[] = []
units (String.◌∷◌ c s) = units_of (code c) ++ units s

abbrev units_leb : List ℕ → List ℕ → Bool
units_leb [] t = true
units_leb (a ∷ s) [] = false
units_leb (a ∷ s) (b ∷ t) = elim (compare a b) [
  | Ordering.lt ↦ true
  | Ordering.eq ↦ units_leb s t
  | Ordering.gt ↦ false
]

units_leb-total : (s t : List ℕ) → (units_leb s t ≡ true) ⊎ (units_leb t s ≡ true)
units_leb-total [] t = inl refl
units_leb-total (a ∷ s) [] = inr refl
units_leb-total (a ∷ s) (b ∷ t) = ground (arith, units_leb-total s t)

units_leb-antisym : (s t : List ℕ) → units_leb s t ≡ true → units_leb t s ≡ true → s ≡ t
units_leb-antisym [] [] h k = refl
units_leb-antisym [] (b ∷ t) h k = ground arith
units_leb-antisym (a ∷ s) [] h k = ground arith
units_leb-antisym (a ∷ s) (b ∷ t) h k = ground (arith, units_leb-antisym s t)

units_leb_trans :
    (s t u : List ℕ) → units_leb s t ≡ true → units_leb t u ≡ true → units_leb s u ≡ true
units_leb_trans [] t u h k = refl
units_leb_trans (a ∷ s) [] u h k = ground arith
units_leb_trans (a ∷ s) (b ∷ t) [] h k = ground arith
units_leb_trans (a ∷ s) (b ∷ t) (c ∷ u) h k = ground (arith, units_leb_trans s t u)

-- A character is no surrogate.
char_range : (c : Char) → (code c < 0xD800) ⊎ ((0xDFFF < code c) × (code c < 0x110000))
char_range (char n p) = ground arith

units_of-inj :
    (c d : Char) (s t : List ℕ)
    → units_of (code c) ++ s ≡ units_of (code d) ++ t
    → (code c ≡ code d) × (s ≡ t)
units_of-inj c d s t h =
    (ground (arith, char_range c, char_range d), ground (arith, char_range c, char_range d))

units-inj : (s t : String) → units s ≡ units t → s ≡ t
units-inj String.[] String.[] h = refl
units-inj String.[] (String.◌∷◌ d t) h = absurd (ground arith)
units-inj (String.◌∷◌ c s) String.[] h = absurd (ground arith)
units-inj (String.◌∷◌ c s) (String.◌∷◌ d t) h =
    let (p, q) = units_of-inj c d (units s) (units t) h in
    ap₂ String.◌∷◌ (Char-path c d p) (units-inj s t q)

-- A total order, with the equality that a `Set` uses.
pub record Order (A : Type 0) : Type 0 where
  pub leb : A → A → Bool
  pub eqb : A → A → Bool
  pub leb-total : (a b : A) → (leb a b ≡ true) ⊎ (leb b a ≡ true)
  pub leb-antisym : (a b : A) → leb a b ≡ true → leb b a ≡ true → a ≡ b
  pub leb-trans : (a b c : A) → leb a b ≡ true → leb b c ≡ true → leb a c ≡ true
  pub eqb_iff : (a b : A) → (eqb a b ≡ true) ↔ (a ≡ b)

-- Texts that may be missing, as `sort` orders them: `undefined` stands last.
abbrev text_leb : Option String → Option String → Bool
text_leb (some s) (some t) = units_leb (units s) (units t)
text_leb s none = true
text_leb none (some t) = false

abbrev text_eqb : Option String → Option String → Bool
text_eqb (some s) (some t) = s == t
text_eqb none none = true
text_eqb _ _ = false

pub text_leb-total : (s t : Option String) → (text_leb s t ≡ true) ⊎ (text_leb t s ≡ true)
text_leb-total (some s) (some t) = units_leb-total (units s) (units t)
text_leb-total (some s) none = inl refl
text_leb-total none (some t) = inr refl
text_leb-total none none = inl refl

pub text_leb-antisym : (s t : Option String) → text_leb s t ≡ true → text_leb t s ≡ true → s ≡ t
text_leb-antisym (some s) (some t) h k =
    ap some (units-inj s t (units_leb-antisym (units s) (units t) h k))
text_leb-antisym (some s) none h k = cc
text_leb-antisym none (some t) h k = cc
text_leb-antisym none none h k = refl

pub text_leb_trans :
    (s t u : Option String) → text_leb s t ≡ true → text_leb t u ≡ true → text_leb s u ≡ true
text_leb_trans (some s) (some t) (some u) h k = units_leb_trans (units s) (units t) (units u) h k
text_leb_trans (some s) t none h k = refl
text_leb_trans none t none h k = refl
text_leb_trans (some s) none (some u) h k = cc
text_leb_trans none (some t) (some u) h k = cc
text_leb_trans none none (some u) h k = cc

pub text_eqb_iff : (s t : Option String) → (text_eqb s t ≡ true) ↔ (s ≡ t)
text_eqb_iff (some s) (some t) = ground (arith, eq_iff s t)
text_eqb_iff (some s) none = ground arith
text_eqb_iff none (some t) = ground arith
text_eqb_iff none none = (λ h. refl, λ h. refl)

abbrev pub text_order : Order (Option String)
text_order = record {
  leb = text_leb;
  eqb = text_eqb;
  leb-total = text_leb-total;
  leb-antisym = text_leb-antisym;
  leb-trans = text_leb_trans;
  eqb_iff = text_eqb_iff;
}
