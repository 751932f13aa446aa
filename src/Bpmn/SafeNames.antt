-- ===== src/Bpmn/SafeNames.antt =====
-- What the names of src/lib/BpmnParser.ts hold: `getSafeName` leaves no separator, fails at an empty
-- word, and `getConstantName` is a replacement of characters.
use Prim.Native.Char.{Char, code}
use Prim.Native.String.{◌++◌}
use Prim.Native.String.append
use zeebe_client_node_js.Base.{
  ℕ, ◌≡◌, ◌≢◌, refl, true, Option, none, some, List, [], ◌∷◌, String, arith, Option-cases, inl, inr,
  ◌⊎◌, ◌↔◌, All, sym, subst, Bool-cases, ◌==◌,
}
use zeebe_client_node_js.Bpmn.Names.{split, join, capitals, get_safe_name, get_constant_name}
use zeebe_client_node_js.Bpmn.Shapes.{
  AnyEmpty, Written, separator, letter, Written-same, Written-append, Written-AnyEmpty,
}
use zeebe_client_node_js.Bpmn.Separators.{
  join-cons, lacks, replace, lacks-append, split-lacks, lacks-split, lacks-join, join-split,
}

-- A name, if there is one, without separators.
abbrev pub IsSafe : Option String → Type 0
IsSafe none = Unit
IsSafe (some s) = (lacks b'_' s ≡ true) × (lacks b'-' s ≡ true)

module _ (upper : String → String) where
  lacks-capitals :
      (n : ℕ) (ps qs : List String)
      → ((s : String) → lacks n s ≡ true → lacks n (upper s) ≡ true)
      → All (λ p. lacks n p ≡ true) ps
      → capitals upper ps ≡ some qs
      → All (λ q. lacks n q ≡ true) qs
  lacks-capitals n [] qs keep h e = rw (sym (no_more e)) tt
    where
      no_more : some [] ≡ some qs → [] ≡ qs
      no_more e = ground arith
  lacks-capitals n (String.[] ∷ ps) qs keep h e = absurd (ground arith)
  lacks-capitals n (String.◌∷◌ f r ∷ ps) qs keep (h, hs) e =
      elim (Option-cases (capitals upper ps)) [
        | inl k ↦ absurd (ground arith)
        | inr (rs, k) ↦
            subst (λ z. All (λ q. lacks n q ≡ true) z) (shape rs k)
              (
                lacks-append n (upper (String.◌∷◌ f String.[])) r
                    (keep (String.◌∷◌ f String.[]) (ground arith)) (ground arith),
                lacks-capitals n ps rs keep hs k,
              )
      ]
    where
      shape :
          (rs : List String)
          → capitals upper ps ≡ some rs
          → (upper (String.◌∷◌ f String.[]) ++ r) ∷ rs ≡ qs
      shape rs k = ground arith

  capitals_throws : (ps : List String) → (capitals upper ps ≡ none) ↔ AnyEmpty ps
  capitals_throws [] = ground arith
  capitals_throws (String.[] ∷ ps) = (λ h. inl refl, λ h. refl)
  capitals_throws (String.◌∷◌ f r ∷ ps) = elim (Option-cases (capitals upper ps)) [
    | inl e ↦ (λ h. inr ((capitals_throws ps).0 e), λ h. rw e refl)
    | inr (rs, e) ↦ (
      λ h. absurd (ground arith),
      λ h. elim h [ inl p ↦ absurd (cc) | inr q ↦ rw ((capitals_throws ps).1 q) refl ],
    )
  ]

  get_safe_name-lacks :
      (keep : (n : ℕ) (s : String)
        → lacks n s ≡ true
        → (n ≡ b'_') ⊎ (n ≡ b'-')
        → lacks n (upper s) ≡ true)
      (t s : String)
      → get_safe_name upper t ≡ some s
      → (lacks b'_' s ≡ true) × (lacks b'-' s ≡ true)
  unfolding get_safe_name
  get_safe_name-lacks keep t s h = elim (Option-cases (capitals upper (split b'_' t))) [
    | inl e ↦ absurd (ground arith)
    | inr (words, e) ↦ elim (Option-cases (capitals upper (split b'-' (join "" words)))) [
      | inl k ↦ absurd (ground arith)
      | inr (parts, k) ↦
          subst (λ z. (lacks b'_' z ≡ true) × (lacks b'-' z ≡ true)) (joined words parts e k)
            (
              lacks-join b'_' parts (
                  lacks-capitals b'_' (split b'-' (join "" words)) parts
                    (λ u p. keep b'_' u p (inl refl))
                    (lacks-split b'_' b'-' (join "" words)
                      (lacks-join b'_' words (first_pass words e)))
                    k),
              lacks-join b'-' parts (
                  lacks-capitals b'-' (split b'-' (join "" words)) parts
                    (λ u p. keep b'-' u p (inr refl)) (split-lacks b'-' (join "" words)) k),
            )
    ]
  ]
    where
      first_pass :
          (words : List String)
          → capitals upper (split b'_' t) ≡ some words
          → All (λ p. lacks b'_' p ≡ true) words
      first_pass words e =
          lacks-capitals b'_' (split b'_' t) words (λ u p. keep b'_' u p (inl refl))
            (split-lacks b'_' t) e

      joined :
          (words parts : List String)
          → capitals upper (split b'_' t) ≡ some words
          → capitals upper (split b'-' (join "" words)) ≡ some parts
          → join "" parts ≡ s
      joined words parts e k = ground arith

  pub get_constant_name-replace :
      (name : String)
      → get_constant_name upper name ≡ upper (replace b' ' "_" (replace b'-' "_" name))
  unfolding get_constant_name
  get_constant_name-replace name =
      rw (join-split b'-' "_" name, join-split b' ' "_" (replace b'-' "_" name)) refl

  module _ (visible : (c : Char) → upper (String.◌∷◌ c String.[]) ≢ "")
      (dash : (c : Char)
        → (code c == b'-') ≡ true
        → upper (String.◌∷◌ c String.[]) ≡ String.◌∷◌ c String.[])
      (keep : (n : ℕ) (s : String)
        → lacks n s ≡ true
        → (n ≡ b'_') ⊎ (n ≡ b'-')
        → lacks n (upper s) ≡ true) where
    capital-Written :
        (f : Char) (r : String)
        → Written b'-' (String.◌∷◌ f r) (upper (String.◌∷◌ f String.[]) ++ r)
    capital-Written f r = elim (Bool-cases (code f == b'-')) [
      | inl e ↦
          rw (dash f e, append.cons f String.[] r, append.nil r)
            (separator f e (Written-same b'-' r))
      | inr e ↦
          letter f (upper (String.◌∷◌ f String.[])) e (visible f)
            (keep b'-' (String.◌∷◌ f String.[]) (rw e refl) (inr refl)) (Written-same b'-' r)
    ]

    capitals-Written :
        (ps qs : List String) → capitals upper ps ≡ some qs → Written b'-' (join "" ps) (join "" qs)
    capitals-Written [] qs e =
        subst (λ z. Written b'-' (join "" []) (join "" z)) (no_words e)
          (Written-same b'-' (join "" []))
      where
        no_words : some [] ≡ some qs → [] ≡ qs
        no_words e = ground arith
    capitals-Written (String.[] ∷ ps) qs e = absurd (ground arith)
    capitals-Written (String.◌∷◌ f r ∷ ps) qs e = elim (Option-cases (capitals upper ps)) [
      | inl k ↦ absurd (ground arith)
      | inr (rs, k) ↦
          let w = upper (String.◌∷◌ f String.[]) ++ r in
          subst (λ z. Written b'-' (join "" (String.◌∷◌ f r ∷ ps)) (join "" z)) (words rs k)
            (rw (join-cons (String.◌∷◌ f r) ps, join-cons w rs)
              (Written-append b'-' (String.◌∷◌ f r) w (join "" ps) (join "" rs)
                (capital-Written f r) (capitals-Written ps rs k)))
    ]
      where
        words :
            (rs : List String)
            → capitals upper ps ≡ some rs
            → (upper (String.◌∷◌ f String.[]) ++ r) ∷ rs ≡ qs
        words rs k = ground arith

    get_safe_name_throws :
        (t : String)
        → (get_safe_name upper t ≡ none)
          ↔ (AnyEmpty (split b'_' t) ⊎ AnyEmpty (split b'-' (join "" (split b'_' t))))
    unfolding get_safe_name
    get_safe_name_throws t = elim (Option-cases (capitals upper (split b'_' t))) [
      | inl e ↦ (λ h. inl ((capitals_throws (split b'_' t)).0 e), λ h. rw e refl)
      | inr (words, e) ↦
          let same = Written-AnyEmpty b'-' _ _ (capitals-Written (split b'_' t) words e) in
          let second = capitals_throws (split b'-' (join "" words)) in
          (
            λ h. inr (same.1 (second.0 (second_pass words e h))),
            λ h. elim h [
              | inl p ↦ absurd (let q = (capitals_throws (split b'_' t)).1 p in ground arith)
              | inr p ↦ rw (e, second.1 (same.0 p)) refl
            ],
          )
    ]
      where
        second_pass :
            (words : List String)
            → capitals upper (split b'_' t) ≡ some words
            → get_safe_name upper t ≡ none
            → capitals upper (split b'-' (join "" words)) ≡ none
        second_pass words e h = elim (Option-cases (capitals upper (split b'-' (join "" words)))) [
          | inl k ↦ k
          | inr (parts, k) ↦ absurd (ground arith)
        ]

    -- getSafeName throws exactly when a word between underscores, or a word between dashes of the text
    -- without its underscores, is empty, and any name that it gives has neither an underscore nor a
    -- dash, where toUpperCase leaves a dash as it is, makes no character empty, and adds no underscore
    -- or dash to a text that has none.
    pub get_safe_name_lem :
        (t : String)
        → ((get_safe_name upper t ≡ none)
            ↔ (AnyEmpty (split b'_' t) ⊎ AnyEmpty (split b'-' (join "" (split b'_' t)))))
          × IsSafe (get_safe_name upper t)
    get_safe_name_lem t = (
      get_safe_name_throws t,
      elim (Option-cases (get_safe_name upper t)) [
        | inl e ↦ rw e tt
        | inr (s, e) ↦ rw e (get_safe_name-lacks keep t s e)
      ],
    )
