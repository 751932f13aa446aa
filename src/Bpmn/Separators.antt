-- ===== src/Bpmn/Separators.antt =====
-- Splitting and joining texts at a separator, for the names of src/lib/BpmnParser.ts.
use Prim.Native.Char.{Char, code}
use Prim.Native.String.{◌++◌}
use Prim.Native.String.append
use text.Mathlib.TextLemmas.{append-nil}
use zeebe_client_node_js.Base.{
  ap, ℕ, ◌≡◌, ◌≢◌, refl, Bool, true, false, List, [], ◌∷◌, String, if◌then◌else◌, ◌==◌, arith,
  Bool-cases, inl, inr, All, sym, ◌∙◌,
}
use zeebe_client_node_js.Bpmn.Names.{attach, split, join}

-- The text has no character of this number.
abbrev pub lacks : ℕ → String → Bool
lacks n String.[] = true
lacks n (String.◌∷◌ c s) = let rest = lacks n s in if code c == n then false else rest

-- `replace a b s`: the characters `a` as `b`.
abbrev pub replace : ℕ → Char → String → String
replace a b String.[] = ""
replace a b (String.◌∷◌ c s) =
    let rest = replace a b s in if code c == a then String.◌∷◌ b rest else String.◌∷◌ c rest

pub lacks-append :
    (n : ℕ) (s t : String) → lacks n s ≡ true → lacks n t ≡ true → lacks n (s ++ t) ≡ true
lacks-append n String.[] t h k = rw (append.nil t) k
lacks-append n (String.◌∷◌ c s) t h k = rw (append.cons c s t) (ground (arith, lacks-append n s t))

pub lacks-attach :
    (n : ℕ) (c : Char) (ps : List String)
    → (code c == n) ≡ false
    → All (λ p. lacks n p ≡ true) ps
    → All (λ p. lacks n p ≡ true) (attach c ps)
lacks-attach n c [] e h = ground arith
lacks-attach n c (p ∷ ps) e (h, k) = (ground arith, k)

pub split-lacks : (a : ℕ) (s : String) → All (λ p. lacks a p ≡ true) (split a s)
unfolding split
split-lacks a String.[] = (refl, tt)
split-lacks a (String.◌∷◌ c s) = elim (Bool-cases (code c == a)) [
  | inl e ↦ rw e (refl, split-lacks a s)
  | inr e ↦ rw e (lacks-attach a c (split a s) e (split-lacks a s))
]

pub lacks-split :
    (n a : ℕ) (s : String) → lacks n s ≡ true → All (λ p. lacks n p ≡ true) (split a s)
unfolding split
lacks-split n a String.[] h = (refl, tt)
lacks-split n a (String.◌∷◌ c s) h = elim (Bool-cases (code c == a)) [
  | inl e ↦ rw e (refl, lacks-split n a s (ground arith))
  | inr e ↦ rw e (lacks-attach n c (split a s) (ground arith) (lacks-split n a s (ground arith)))
]

pub lacks-join :
    (n : ℕ) (ps : List String) → All (λ p. lacks n p ≡ true) ps → lacks n (join "" ps) ≡ true
unfolding join
lacks-join n [] h = refl
lacks-join n (p ∷ []) h = h.0
lacks-join n (p ∷ (q ∷ ps)) (h, k) =
    lacks-append n p ("" ++ join "" (q ∷ ps)) h
      (rw (append.nil (join "" (q ∷ ps))) (lacks-join n (q ∷ ps) k))

pub split_some : (a : ℕ) (s : String) → (p : String) × (ps : List String) × (split a s ≡ p ∷ ps)
unfolding split
split_some a String.[] = ("", [], refl)
split_some a (String.◌∷◌ c s) =
    let (p, ps, e) = split_some a s in
    elim (Bool-cases (code c == a)) [
      | inl k ↦ ("", split a s, rw k refl)
      | inr k ↦ (String.◌∷◌ c p, ps, rw (k, e) refl)
    ]

pub join-attach :
    (b c : Char) (p : String) (ps : List String)
    → join (String.◌∷◌ b String.[]) (attach c (p ∷ ps))
      ≡ String.◌∷◌ c (join (String.◌∷◌ b String.[]) (p ∷ ps))
unfolding join
join-attach b c p [] = refl
join-attach b c p (q ∷ ps) =
    append.cons c p (String.◌∷◌ b String.[] ++ join (String.◌∷◌ b String.[]) (q ∷ ps))

-- Splitting and joining replaces the separators.
pub join-split :
    (a : ℕ) (b : Char) (s : String) → join (String.◌∷◌ b String.[]) (split a s) ≡ replace a b s
unfolding split join
join-split a b String.[] = refl
join-split a b (String.◌∷◌ c s) =
    let (p, ps, e) = split_some a s in
    elim (Bool-cases (code c == a)) [
      | inl k ↦ rw (k, sym (join-split a b s), e, append.nil, append.cons, append.nil) refl
      | inr k ↦ rw (k, sym (join-split a b s), e, join-attach b c p ps) refl
    ]

pub split_whole : (a : ℕ) (s : String) → lacks a s ≡ true → split a s ≡ s ∷ []
unfolding split
split_whole a String.[] h = refl
split_whole a (String.◌∷◌ c s) h = elim (Bool-cases (code c == a)) [
  | inl e ↦ absurd (ground arith)
  | inr e ↦ rw (e, split_whole a s (ground arith)) refl
]

pub append_some : (s t : String) → s ≢ "" → (s ++ t) ≢ ""
append_some String.[] t h e = h refl
append_some (String.◌∷◌ c s) t h e = let k = sym (append.cons c s t) ∙ e in cc

pub join_some : (p : String) (ps : List String) → p ≢ "" → join "" (p ∷ ps) ≢ ""
unfolding join
join_some p [] h = h
join_some p (q ∷ ps) h = append_some p ("" ++ join "" (q ∷ ps)) h

pub join-cons : (p : String) (ps : List String) → join "" (p ∷ ps) ≡ p ++ join "" ps
unfolding join
join-cons p [] = sym (append-nil p)
join-cons p (q ∷ ps) = ap (λ z. p ++ z) (append.nil (join "" (q ∷ ps)))
