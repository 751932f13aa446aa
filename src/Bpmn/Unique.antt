-- ===== src/Bpmn/Unique.antt =====
-- Sorting and `new Set(…)`, as src/lib/BpmnParser.ts uses them: a list as an ascending list of its
-- elements, each once.
use zeebe_client_node_js.Base.{
  ◌≡◌, ◌≢◌, ◌↔◌, ◌⊎◌, inl, inr, refl, sym, ap₂, ◌∙◌, subst, true, false, List, [], ◌∷◌, ◌++◌,
  if◌then◌else◌, All, arith, Bool-cases,
}
use zeebe_client_node_js.Bpmn.Order.{Order}

module _ {A : Type 0} where
  infix 50 ◌∈◌
  abbrev pub ◌∈◌ : A → List A → Type 0
  x ∈ [] = ⊥
  x ∈ (y ∷ ys) = (x ≡ y) ⊎ (x ∈ ys)

  pub ∈-append : (x : A) (xs ys : List A) → (x ∈ (xs ++ ys)) ↔ ((x ∈ xs) ⊎ (x ∈ ys))
  ∈-append x [] ys = (inr, λ h. elim h [ inl p ↦ absurd p | inr q ↦ q ])
  ∈-append x (y ∷ xs) ys = ground (arith, ∈-append x xs ys)

module _ {A : Type 0} (o : Order A) where
  abbrev pub insert : A → List A → List A
  insert x [] = x ∷ []
  insert x (y ∷ ys) = let rest = insert x ys in if o.leb x y then x ∷ y ∷ ys else y ∷ rest

  -- `sort()`: stable, and by the order alone.
  unfoldable pub sort : List A → List A
  sort [] = []
  sort (x ∷ xs) = insert x (sort xs)

  abbrev pub without : A → List A → List A
  without x [] = []
  without x (y ∷ ys) = let rest = without x ys in if o.eqb y x then rest else y ∷ rest

  -- `[...new Set(l)]`: the first occurrence of each element.
  unfoldable pub to_set : List A → List A
  to_set [] = []
  to_set (x ∷ xs) = x ∷ without x (to_set xs)

  -- In ascending order, each element once.
  abbrev pub IsAscending : List A → Type 0
  IsAscending [] = Unit
  IsAscending (x ∷ xs) = All (λ y. (o.leb x y ≡ true) × (x ≢ y)) xs × IsAscending xs

  abbrev IsSorted : List A → Type 0
  IsSorted [] = Unit
  IsSorted (x ∷ xs) = All (λ y. o.leb x y ≡ true) xs × IsSorted xs

  ∈-insert : (z x : A) (xs : List A) → (z ∈ insert x xs) ↔ ((z ≡ x) ⊎ (z ∈ xs))
  ∈-insert z x [] = (λ h. h, λ h. h)
  ∈-insert z x (y ∷ ys) = ground (arith, ∈-insert z x ys)

  ∈-sort : (z : A) (xs : List A) → (z ∈ sort xs) ↔ (z ∈ xs)
  unfolding sort
  ∈-sort z [] = (λ h. h, λ h. h)
  ∈-sort z (x ∷ xs) = ground (arith, ∈-insert z x (sort xs), ∈-sort z xs)

  All-insert : (P : A → Type 0) (x : A) (xs : List A) → P x → All P xs → All P (insert x xs)
  All-insert P x [] p h = (p, tt)
  All-insert P x (y ∷ ys) p (q, h) = elim (Bool-cases (o.leb x y)) [
    | inl e ↦ rw e (p, (q, h))
    | inr e ↦ rw e (q, All-insert P x ys p h)
  ]

  All-trans :
      (x y : A) (ys : List A)
      → o.leb x y ≡ true
      → All (λ z. o.leb y z ≡ true) ys
      → All (λ z. o.leb x z ≡ true) ys
  All-trans x y [] h a = tt
  All-trans x y (z ∷ zs) h (k, a) = (o.leb-trans x y z h k, All-trans x y zs h a)

  insert-IsSorted : (x : A) (xs : List A) → IsSorted xs → IsSorted (insert x xs)
  insert-IsSorted x [] h = (tt, tt)
  insert-IsSorted x (y ∷ ys) (a, h) = elim (Bool-cases (o.leb x y)) [
    | inl e ↦ rw e ((e, All-trans x y ys e a), (a, h))
    | inr e ↦ rw e (All-insert _ x ys (after x y e) a, insert-IsSorted x ys h)
  ]
    where
      after : (x y : A) → o.leb x y ≡ false → o.leb y x ≡ true
      after x y e = elim (o.leb-total x y) [ inl p ↦ absurd (ground arith) | inr p ↦ p ]

  sort-IsSorted : (xs : List A) → IsSorted (sort xs)
  unfolding sort
  sort-IsSorted [] = tt
  sort-IsSorted (x ∷ xs) = insert-IsSorted x (sort xs) (sort-IsSorted xs)

  -- What an element of a sorted list is compared with, and what `without` leaves of it.
  All-without :
      (P : A → Type 0) (x : A) (ys : List A) → All P ys → All (λ y. P y × (x ≢ y)) (without x ys)
  All-without P x [] h = tt
  All-without P x (y ∷ ys) (p, h) = elim (Bool-cases (o.eqb y x)) [
    | inl e ↦ rw e (All-without P x ys h)
    | inr e ↦ rw e ((p, λ q. differ e q), All-without P x ys h)
  ]
    where
      differ : o.eqb y x ≡ false → x ≢ y
      differ e q = let k = (o.eqb_iff y x).1 (sym q) in cc

  ∈-without : (z x : A) (ys : List A) → (z ∈ without x ys) ↔ ((z ∈ ys) × (z ≢ x))
  ∈-without z x [] = (λ h. absurd h, λ h. absurd h.0)
  ∈-without z x (y ∷ ys) = ground (arith, ∈-without z x ys, o.eqb_iff y x)

  All-without_any : (P : A → Type 0) (x : A) (ys : List A) → All P ys → All P (without x ys)
  All-without_any P x [] h = tt
  All-without_any P x (y ∷ ys) (p, h) = elim (Bool-cases (o.eqb y x)) [
    | inl e ↦ rw e (All-without_any P x ys h)
    | inr e ↦ rw e (p, All-without_any P x ys h)
  ]

  without-IsAscending : (x : A) (ys : List A) → IsAscending ys → IsAscending (without x ys)
  without-IsAscending x [] h = tt
  without-IsAscending x (y ∷ ys) (a, h) = elim (Bool-cases (o.eqb y x)) [
    | inl e ↦ rw e (without-IsAscending x ys h)
    | inr e ↦ rw e (All-without_any _ x ys a, without-IsAscending x ys h)
  ]

  All-to_set : (P : A → Type 0) (xs : List A) → All P xs → All P (to_set xs)
  unfolding to_set
  All-to_set P [] h = tt
  All-to_set P (x ∷ xs) (p, h) = (p, All-without_any P x (to_set xs) (All-to_set P xs h))

  to_set-IsAscending : (xs : List A) → IsSorted xs → IsAscending (to_set xs)
  unfolding to_set
  to_set-IsAscending [] h = tt
  to_set-IsAscending (x ∷ xs) (a, h) = (
    All-without _ x (to_set xs) (All-to_set _ xs a),
    without-IsAscending x (to_set xs) (to_set-IsAscending xs h),
  )

  eq_dec : (z x : A) → (z ≡ x) ⊎ (z ≢ x)
  eq_dec z x = elim (Bool-cases (o.eqb z x)) [
    | inl e ↦ inl ((o.eqb_iff z x).0 e)
    | inr e ↦ inr (λ p. let k = (o.eqb_iff z x).1 p in cc)
  ]

  ∈-to_set : (z : A) (xs : List A) → (z ∈ to_set xs) ↔ (z ∈ xs)
  unfolding to_set
  ∈-to_set z [] = (λ h. h, λ h. h)
  ∈-to_set z (x ∷ xs) = ground (arith, ∈-without z x (to_set xs), ∈-to_set z xs, eq_dec z x)

  -- A list sorted and made a set is ascending and has the same elements.
  pub to_set-sort-IsAscending : (xs : List A) → IsAscending (to_set (sort xs))
  to_set-sort-IsAscending xs = to_set-IsAscending (sort xs) (sort-IsSorted xs)

  pub ∈-to_set-sort : (z : A) (xs : List A) → (z ∈ to_set (sort xs)) ↔ (z ∈ xs)
  ∈-to_set-sort z xs = ground (arith, ∈-to_set z (sort xs), ∈-sort z xs)

  above :
      (x z : A) (xs : List A)
      → All (λ y. (o.leb x y ≡ true) × (x ≢ y)) xs
      → z ∈ xs
      → (o.leb x z ≡ true) × (x ≢ z)
  above x z [] a h = elim h [ ]
  above x z (y ∷ ys) (p, a) (inl e) = subst (λ t. (o.leb x t ≡ true) × (x ≢ t)) (sym e) p
  above x z (y ∷ ys) (p, a) (inr h) = above x z ys a h

  -- Ascending lists with the same elements are equal.
  pub IsAscending-unique :
      (xs ys : List A) → IsAscending xs → IsAscending ys → ((z : A) → (z ∈ xs) ↔ (z ∈ ys)) → xs ≡ ys
  IsAscending-unique [] [] h k e = refl
  IsAscending-unique [] (y ∷ ys) h k e = absurd ((e y).1 (inl refl))
  IsAscending-unique (x ∷ xs) [] h k e = absurd ((e x).0 (inl refl))
  IsAscending-unique (x ∷ xs) (y ∷ ys) (a, h) (b, k) e =
      ap₂ ◌∷◌ (same_head a b e) (IsAscending-unique xs ys h k (same_tail a b e))
    where
      same_head :
          All (λ t. (o.leb x t ≡ true) × (x ≢ t)) xs
          → All (λ t. (o.leb y t ≡ true) × (y ≢ t)) ys
          → ((z : A) → (z ∈ (x ∷ xs)) ↔ (z ∈ (y ∷ ys)))
          → x ≡ y
      same_head a b e = elim ((e x).0 (inl refl)) [
        | inl p ↦ p
        | inr p ↦ elim ((e y).1 (inl refl)) [
          | inl q ↦ sym q
          | inr q ↦ o.leb-antisym x y (above x y xs a q).0 (above y x ys b p).0
        ]
      ]

      same_tail :
          All (λ t. (o.leb x t ≡ true) × (x ≢ t)) xs
          → All (λ t. (o.leb y t ≡ true) × (y ≢ t)) ys
          → ((z : A) → (z ∈ (x ∷ xs)) ↔ (z ∈ (y ∷ ys)))
          → (z : A) → (z ∈ xs) ↔ (z ∈ ys)
      same_tail a b e z = (
        (λ h. elim ((e z).0 (inr h)) [
          | inl p ↦ absurd ((above x z xs a h).1 (same_head a b e ∙ sym p))
          | inr p ↦ p
        ]),
        (λ h. elim ((e z).1 (inr h)) [
          | inl p ↦ absurd ((above y z ys b h).1 (sym (same_head a b e) ∙ sym p))
          | inr p ↦ p
        ]),
      )
