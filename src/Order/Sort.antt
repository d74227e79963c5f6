-- ===== src/Order/Sort.antt =====
-- `xs.sort(compare)`: the stable sort, as an insertion sort. `before y x` says that the
-- comparator is negative at (y, x).
use bps_protocol.Prelude.{
  ℕ, ◌≡◌, Bool, true, false, List, [], ◌∷◌, arith, if◌then◌else◌, All, All-map_pred, Bool-cases,
  inl, inr, refl, sum_of, ◌+◌, Any,
}
use mathlib.Core.List.{Perm}
use mathlib.Core.List.Perm

pub record IsStrictOrder {ℓ} {A : Type ℓ} (lt : A → A → Bool) : Type ℓ where
  pub irrefl : (x : A) → lt x x ≡ false
  pub trans : (x y z : A) → lt x y ≡ true → lt y z ≡ true → lt x z ≡ true
  pub connex : (x y : A) → lt x y ≡ false → lt y x ≡ false → x ≡ y

module _ {ℓ} {A : Type ℓ} (before : A → A → Bool) where
  unfoldable pub insert_sorted : A → List A → List A
  insert_sorted x [] = x ∷ []
  insert_sorted x (y ∷ ys) =
      let rest = insert_sorted x ys in if before y x then y ∷ rest else x ∷ y ∷ ys

  unfoldable pub sort_by : List A → List A
  sort_by [] = []
  sort_by (x ∷ xs) = insert_sorted x (sort_by xs)

  -- Nothing stands before what precedes it.
  abbrev pub IsSorted : List A → Type ℓ
  IsSorted [] = Unit
  IsSorted (x ∷ xs) = All (λ y. before y x ≡ false) xs × IsSorted xs

  pub All-insert_sorted {κ} :
      (P : A → Type κ) (x : A) (xs : List A) → P x → All P xs → All P (insert_sorted x xs)
  unfolding insert_sorted
  All-insert_sorted P x [] px h = (px, tt)
  All-insert_sorted P x (y ∷ ys) px h =
      elim (before y x) as (λ b. All P (if b then y ∷ insert_sorted x ys else x ∷ y ∷ ys)) [
        | true ↦ (h.0, All-insert_sorted P x ys px h.1)
        | false ↦ (px, h)
      ]

  pub All-sort_by {κ} : (P : A → Type κ) (xs : List A) → All P xs → All P (sort_by xs)
  unfolding sort_by
  All-sort_by P [] h = tt
  All-sort_by P (x ∷ xs) h = All-insert_sorted P x (sort_by xs) h.0 (All-sort_by P xs h.1)

  pub insert_sorted-perm : (x : A) (xs : List A) → Perm (insert_sorted x xs) (x ∷ xs)
  unfolding insert_sorted
  insert_sorted-perm x [] = Perm.refl _
  insert_sorted-perm x (y ∷ ys) =
      elim (before y x)
        as (λ b. Perm (if b then y ∷ insert_sorted x ys else x ∷ y ∷ ys) (x ∷ y ∷ ys)) [
          | true ↦ Perm.trans (Perm.cons y (insert_sorted-perm x ys)) (Perm.swap x y ys)
          | false ↦ Perm.refl _
        ]

  pub sort_by-perm : (xs : List A) → Perm (sort_by xs) xs
  unfolding sort_by
  sort_by-perm [] = Perm.refl _
  sort_by-perm (x ∷ xs) =
      Perm.trans (insert_sorted-perm x (sort_by xs)) (Perm.cons x (sort_by-perm xs))

  sum_of-insert_sorted :
      (f : A → ℕ) (x : A) (xs : List A) → sum_of f (insert_sorted x xs) ≡ f x + sum_of f xs
  unfolding insert_sorted
  sum_of-insert_sorted f x [] = refl
  sum_of-insert_sorted f x (y ∷ ys) = ground (arith, sum_of-insert_sorted f x ys)

  pub sum_of-sort_by : (f : A → ℕ) (xs : List A) → sum_of f (sort_by xs) ≡ sum_of f xs
  unfolding sort_by
  sum_of-sort_by f [] = refl
  sum_of-sort_by f (x ∷ xs) =
      ground (arith, sum_of-sort_by f xs, sum_of-insert_sorted f x (sort_by xs))

  -- The comparator is a strict weak order: what is not before stays not before along a chain.
  pub record IsWeakOrder : Type ℓ where
    pub asym : (x y : A) → before x y ≡ true → before y x ≡ false
    pub chain : (x y z : A) → before y x ≡ false → before z y ≡ false → before z x ≡ false

  module _ (weak : IsWeakOrder) where
    insert_sorted-IsSorted : (x : A) (xs : List A) → IsSorted xs → IsSorted (insert_sorted x xs)
    unfolding insert_sorted
    insert_sorted-IsSorted x [] h = (tt, tt)
    insert_sorted-IsSorted x (y ∷ ys) h = elim (Bool-cases (before y x)) [
      | inl e ↦ subst_if e (
        All-insert_sorted (λ z. before z y ≡ false) x ys (weak.asym y x e) h.0,
        insert_sorted-IsSorted x ys h.1,
      )
      | inr e ↦ subst_else e ((e, All-map_pred (λ z p. weak.chain x y z e p) ys h.0), h)
    ]
      where
        subst_if :
            before y x ≡ true
            → IsSorted (y ∷ insert_sorted x ys)
            → IsSorted (if before y x then y ∷ insert_sorted x ys else x ∷ y ∷ ys)
        subst_if e p = rw e p

        subst_else :
            before y x ≡ false
            → IsSorted (x ∷ y ∷ ys)
            → IsSorted (if before y x then y ∷ insert_sorted x ys else x ∷ y ∷ ys)
        subst_else e p = rw e p

    pub sort_by-IsSorted : (xs : List A) → IsSorted (sort_by xs)
    unfolding sort_by
    sort_by-IsSorted [] = tt
    sort_by-IsSorted (x ∷ xs) = insert_sorted-IsSorted x (sort_by xs) (sort_by-IsSorted xs)

pub strict-IsWeakOrder {ℓ} : {A : Type ℓ} (lt : A → A → Bool) → IsStrictOrder lt → IsWeakOrder lt
strict-IsWeakOrder lt o = record {
  asym = λ x y e. elim (Bool-cases (lt y x)) [
    | inl f ↦ cc (o.trans x y x e f, o.irrefl x)
    | inr f ↦ f
  ];
  chain = λ x y z e f. elim (Bool-cases (lt z x)) [
    | inr g ↦ g
    | inl g ↦ elim (Bool-cases (lt x y)) [
      | inl k ↦ cc (o.trans z x y g k, f)
      | inr k ↦ cc (o.connex x y k e, f)
    ]
  ];
}

module _ {A : Type 0} (before : A → A → Bool) where
  Any-insert_sorted_head :
      (P : A → Type 0) (x : A) (xs : List A) → P x → Any P (insert_sorted before x xs)
  unfolding insert_sorted
  Any-insert_sorted_head P x [] p = inl p
  Any-insert_sorted_head P x (y ∷ ys) p =
      elim (before y x) as (λ b. Any P (if b then y ∷ insert_sorted before x ys else x ∷ y ∷ ys)) [
        | true ↦ inr (Any-insert_sorted_head P x ys p)
        | false ↦ inl p
      ]

  Any-insert_sorted_tail :
      (P : A → Type 0) (x : A) (xs : List A) → Any P xs → Any P (insert_sorted before x xs)
  unfolding insert_sorted
  Any-insert_sorted_tail P x [] h = absurd h
  Any-insert_sorted_tail P x (y ∷ ys) (inl p) =
      elim (before y x) as (λ b. Any P (if b then y ∷ insert_sorted before x ys else x ∷ y ∷ ys)) [
        | true ↦ inl p
        | false ↦ inr (inl p)
      ]
  Any-insert_sorted_tail P x (y ∷ ys) (inr h) =
      elim (before y x) as (λ b. Any P (if b then y ∷ insert_sorted before x ys else x ∷ y ∷ ys)) [
        | true ↦ inr (Any-insert_sorted_tail P x ys h)
        | false ↦ inr (inr h)
      ]

  -- Sorting loses nothing.
  pub Any-sort_by : (P : A → Type 0) (xs : List A) → Any P xs → Any P (sort_by before xs)
  unfolding sort_by
  Any-sort_by P [] h = h
  Any-sort_by P (x ∷ xs) (inl p) = Any-insert_sorted_head P x (sort_by before xs) p
  Any-sort_by P (x ∷ xs) (inr h) =
      Any-insert_sorted_tail P x (sort_by before xs) (Any-sort_by P xs h)
