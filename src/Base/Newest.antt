-- ===== src/Base/Newest.antt =====
-- The first row of a sort by a number, the greatest first.
use Prim.Native.Nat.{ℕ, ◌≤◌}
use mathlib.Core.Path.{◌≡◌, subst}
use mathlib.Core.Logic.{◌⊎◌, inl, inr}
use mathlib.Core.Bool.{Bool, true, false}
use mathlib.Core.List.{List, [], ◌∷◌}
use native.Mathlib.Omega.{arith}
use b46_ordering_app_backend.Base.Tests.{Bool-cases, ltb}
use b46_ordering_app_backend.Base.Lists.{All, keep}
use b46_ordering_app_backend.Base.Sort.{sort_by, insert_by, insert_by-All}
use b46_ordering_app_backend.Base.Rows.{All-weaker}

-- The row is one of the list.
abbrev pub Among : {A : Type 0} → A → List A → Type 0
Among a [] = ⊥
Among a (x ∷ xs) = (x ≡ a) ⊎ Among a xs

module _ {A : Type 0} (less : A → A → Bool) where
  insert_by-Among : (x a : A) (xs : List A) → Among x (insert_by less a xs) → (a ≡ x) ⊎ Among x xs
  unfolding insert_by
  insert_by-Among x a [] h = h
  insert_by-Among x a (b ∷ bs) h = elim (Bool-cases (less a b)) [
    | inl e ↦ rw e at h
    | inr e ↦ elim (rw e at h) as (λ t. (a ≡ x) ⊎ Among x (b ∷ bs)) [
      | inl same ↦ inr (inl same)
      | inr rest ↦ elim (insert_by-Among x a bs rest) [
        | inl same ↦ inl same
        | inr there ↦ inr (inr there)
      ]
    ]
  ]

  pub sort_by-Among : (x : A) (xs : List A) → Among x (sort_by less xs) → Among x xs
  unfolding sort_by
  sort_by-Among x [] h = h
  sort_by-Among x (y ∷ ys) h = elim (insert_by-Among x y (sort_by less ys) h) [
    | inl same ↦ inl same
    | inr rest ↦ inr (sort_by-Among x ys rest)
  ]

  insert_by-All_back :
      (P : A → Type 0) (a : A) (xs : List A) → All P (insert_by less a xs) → P a × All P xs
  unfolding insert_by
  insert_by-All_back P a [] h = h
  insert_by-All_back P a (x ∷ xs) h = elim (Bool-cases (less a x)) [
    | inl e ↦ rw e at h
    | inr e ↦
        let (first, rest) = rw e at h in
        let (here, others) = insert_by-All_back P a xs rest in (here, (first, others))
  ]

  pub sort_by-All_back : (P : A → Type 0) (xs : List A) → All P (sort_by less xs) → All P xs
  unfolding sort_by
  sort_by-All_back P [] h = tt
  sort_by-All_back P (x ∷ xs) h =
      let (here, rest) = insert_by-All_back P x (sort_by less xs) h in
      (here, sort_by-All_back P xs rest)

module _ {A : Type 0} (q : A → Bool) where
  pub keep-Among : (x : A) (xs : List A) → Among x (keep q xs) → (q x ≡ true) × Among x xs
  unfolding keep
  keep-Among x [] h = absurd h
  keep-Among x (y ∷ ys) h = elim (Bool-cases (q y)) [
    | inr e ↦ let (t, there) = keep-Among x ys (rw e at h) in (t, inr there)
    | inl e ↦ elim (rw e at h) as (λ t. (q x ≡ true) × Among x (y ∷ ys)) [
      | inl same ↦ (subst (λ z. q z ≡ true) same e, inl same)
      | inr rest ↦ let (t, there) = keep-Among x ys rest in (t, inr there)
    ]
  ]

  -- What holds of all rows that a filter keeps.
  pub keep-All_back :
      (P : A → Type 0) (xs : List A) → All P (keep q xs) → All (λ x. (q x ≡ false) ⊎ P x) xs
  unfolding keep
  keep-All_back P [] h = tt
  keep-All_back P (x ∷ xs) h = elim (Bool-cases (q x)) [
    | inr e ↦ (inl e, keep-All_back P xs (rw e at h))
    | inl e ↦ let (here, rest) = rw e at h in (inr here, keep-All_back P xs rest)
  ]

module _ {A : Type 0} (number : A → ℕ) where
  abbrev pub descending : A → A → Bool
  descending a b = ltb (number b) (number a)

  -- The first row has the greatest number.
  abbrev pub HasFirst : List A → Type 0
  HasFirst [] = Unit {0}
  HasFirst (a ∷ rest) = All (λ x. number x ≤ number a) (a ∷ rest)

  insert_by-HasFirst : (a : A) (xs : List A) → HasFirst xs → HasFirst (insert_by descending a xs)
  unfolding insert_by
  insert_by-HasFirst a [] h = (omega arith, tt)
  insert_by-HasFirst a (b ∷ bs) h = elim (Bool-cases (descending a b)) [
    | inl e ↦ rw e (
      omega arith,
      All-weaker (λ x. number x ≤ number b) (λ x. number x ≤ number a)
          (λ x le. ground (arith, e, le)) (b ∷ bs) h,
    )
    | inr e ↦
        rw e (h.0, insert_by-All descending (λ x. number x ≤ number b) a bs (ground (arith, e)) h.1)
  ]

  pub sort_by-HasFirst : (xs : List A) → HasFirst (sort_by descending xs)
  unfolding sort_by
  sort_by-HasFirst [] = tt
  sort_by-HasFirst (x ∷ xs) = insert_by-HasFirst x (sort_by descending xs) (sort_by-HasFirst xs)
