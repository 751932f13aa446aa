-- ===== src/Bpmn/Shapes.antt =====
-- Texts with their dashes in the same places, for `getSafeName` of src/lib/BpmnParser.ts: writing the
-- first letters of words large makes no word empty and empties none.
use Prim.Native.Char.{Char, code}
use Prim.Native.String.{◌++◌}
use Prim.Native.String.append
use text.Mathlib.TextLemmas.{append_assoc}
use zeebe_client_node_js.Base.{
  ℕ, ◌≡◌, ◌≢◌, ◌↔◌, ◌⊎◌, inl, inr, refl, sym, ap, ◌∙◌, subst, Bool, true, false, List, [], ◌∷◌,
  String, ◌==◌, arith, Bool-cases, if◌then◌else◌, ◌||◌,
}
use zeebe_client_node_js.Bpmn.Names.{split}
use zeebe_client_node_js.Bpmn.Separators.{lacks, split_some}

-- The second text is the first with each character other than the separator written as a text that is
-- not empty and has no separator.
pub data Written (a : ℕ) : String → String → Type 0 where
  nothing : Written a "" ""
  separator :
      (c : Char) {s t : String}
      → (code c == a) ≡ true
      → Written a s t
      → Written a (String.◌∷◌ c s) (String.◌∷◌ c t)
  letter :
      (c : Char) (x : String) {s t : String}
      → (code c == a) ≡ false
      → x ≢ ""
      → lacks a x ≡ true
      → Written a s t
      → Written a (String.◌∷◌ c s) (x ++ t)

pub Written-same : (a : ℕ) (s : String) → Written a s s
Written-same a String.[] = nothing
Written-same a (String.◌∷◌ c s) = elim (Bool-cases (code c == a)) [
  | inl e ↦ separator c e (Written-same a s)
  | inr e ↦
      subst (Written a (String.◌∷◌ c s))
        (append.cons c String.[] s ∙ ap (String.◌∷◌ c) (append.nil s))
        (letter c (String.◌∷◌ c String.[]) e (λ h. cc) (rw e refl) (Written-same a s))
]

pub Written-append :
    (a : ℕ) (s t u v : String) → Written a s t → Written a u v → Written a (s ++ u) (t ++ v)
Written-append a s t u v nothing k = rw (append.nil u, append.nil v) k
Written-append a s t u v (separator c {s = s'} {t = t'} e h) k =
    rw (append.cons c s' u, append.cons c t' v) (separator c e (Written-append a s' t' u v h k))
Written-append a s t u v (letter c x {s = s'} {t = t'} e n l h) k =
    rw (append.cons c s' u, append_assoc x t' v) (letter c x e n l (Written-append a s' t' u v h k))

-- One of the parts is empty.
abbrev pub AnyEmpty : List String → Type 0
AnyEmpty [] = ⊥
AnyEmpty (p ∷ ps) = (p ≡ "") ⊎ AnyEmpty ps

-- The same of the parts of a text: of the first one, and of the others.
abbrev first_empty : ℕ → String → Bool
first_empty a String.[] = true
first_empty a (String.◌∷◌ c s) = code c == a

abbrev rest_empty : ℕ → String → Bool
rest_empty a String.[] = false
rest_empty a (String.◌∷◌ c s) =
    let rest = rest_empty a s in if code c == a then first_empty a s || rest else rest

abbrev any_empty : ℕ → String → Bool
any_empty a s = first_empty a s || rest_empty a s

abbrev Parts : ℕ → String → List String → Type 0
Parts a s [] = ⊥
Parts a s (p ∷ ps) = ((p ≡ "") ↔ (first_empty a s ≡ true)) × (AnyEmpty ps ↔ (rest_empty a s ≡ true))

split-Parts : (a : ℕ) (s : String) → Parts a s (split a s)
unfolding split
split-Parts a String.[] = ((λ h. refl, λ h. refl), (λ h. absurd h, λ h. absurd (ground arith)))
split-Parts a (String.◌∷◌ c s) =
    let (p, ps, e) = split_some a s in
    let ih = subst (Parts a s) e (split-Parts a s) in
    elim (Bool-cases (code c == a)) [
      | inl k ↦
          let q : split a (String.◌∷◌ c s) ≡ "" ∷ p ∷ ps = rw (k, e) refl in
          subst (Parts a (String.◌∷◌ c s)) (sym q) (separated p ps k ih)
      | inr k ↦
          let q : split a (String.◌∷◌ c s) ≡ String.◌∷◌ c p ∷ ps = rw (k, e) refl in
          subst (Parts a (String.◌∷◌ c s)) (sym q) (attached p ps k ih)
    ]
  where
    separated :
        (p : String) (ps : List String)
        → (code c == a) ≡ true
        → Parts a s (p ∷ ps)
        → Parts a (String.◌∷◌ c s) ("" ∷ p ∷ ps)
    separated p ps e (h, k) = ((λ q. e, λ q. refl), ground arith)

    attached :
        (p : String) (ps : List String)
        → (code c == a) ≡ false
        → Parts a s (p ∷ ps)
        → Parts a (String.◌∷◌ c s) (String.◌∷◌ c p ∷ ps)
    attached p ps e (h, k) = ((λ q. absurd cc, λ q. absurd (ground arith)), ground arith)

rest_empty-append :
    (a : ℕ) (x t : String) → lacks a x ≡ true → rest_empty a (x ++ t) ≡ rest_empty a t
rest_empty-append a String.[] t l = rw (append.nil t) refl
rest_empty-append a (String.◌∷◌ d x) t l =
    rw (append.cons d x t) (ground (arith, rest_empty-append a x t))

Written-any_empty :
    (a : ℕ) (s t : String)
    → Written a s t
    → (first_empty a s ≡ first_empty a t) × (rest_empty a s ≡ rest_empty a t)
Written-any_empty a s t nothing = (refl, refl)
Written-any_empty a s t (separator c {s = s'} {t = t'} e h) =
    ground (arith, Written-any_empty a s' t' h)
Written-any_empty a s t (letter c x {s = s'} {t = t'} e n l h) =
    let (p, q) = Written-any_empty a s' t' h in
    ((rw e (sym (letters_first x t' n l))), rw e (q ∙ sym (rest_empty-append a x t' l)))
  where
    letters_first : (x t : String) → x ≢ "" → lacks a x ≡ true → first_empty a (x ++ t) ≡ false
    letters_first String.[] t n l = absurd (n refl)
    letters_first (String.◌∷◌ d x) t n l = rw (append.cons d x t) (ground arith)

Parts-any_empty :
    (a : ℕ) (s : String) (ps : List String) → Parts a s ps → AnyEmpty ps ↔ (any_empty a s ≡ true)
Parts-any_empty a s [] h = absurd h
Parts-any_empty a s (p ∷ ps) (h, k) = ground arith

pub Written-AnyEmpty :
    (a : ℕ) (s t : String) → Written a s t → AnyEmpty (split a s) ↔ AnyEmpty (split a t)
Written-AnyEmpty a s t h =
    let (p, q) = Written-any_empty a s t h in
    ground (
      arith,
      Parts-any_empty a s (split a s) (split-Parts a s),
      Parts-any_empty a t (split a t) (split-Parts a t),
    )
