-- ===== src/Base/Sort.antt =====
-- Insertion sort by a test "comes before", and what it keeps.
use Prim.Native.Nat.{suc}
use Prim.Native.String.{String}
use mathlib.Core.Path.{◌≡◌, refl, sym}
use mathlib.Core.Logic.{◌≢◌, inl, inr}
use mathlib.Core.Bool.{Bool}
use mathlib.Core.List.{List, [], ◌∷◌, Perm}
use mathlib.Core.List.Perm
use native.Mathlib.Omega.{arith}
use b46_ordering_app_backend.Base.Tests.{if◌then◌else◌, Bool-cases}
use b46_ordering_app_backend.Base.Lists.{length, All}
use b46_ordering_app_backend.Base.Keys.{Absent, Distinct}

-- ORDER BY: insertion into a sorted list, after the rows that are not greater.
unfoldable pub insert_by {ℓ} : {A : Type ℓ} → (A → A → Bool) → A → List A → List A
insert_by less a [] = a ∷ []
insert_by less a (b ∷ bs) = if less a b then a ∷ b ∷ bs else b ∷ insert_by less a bs

unfoldable pub sort_by {ℓ} : {A : Type ℓ} → (A → A → Bool) → List A → List A
unfolding insert_by
sort_by less [] = []
sort_by less (a ∷ rest) = insert_by less a (sort_by less rest)

module _ {ℓ} {A : Type ℓ} (less : A → A → Bool) where
  pub insert_by-All :
      (P : A → Type 0) (a : A) (xs : List A) → P a → All P xs → All P (insert_by less a xs)
  unfolding insert_by
  insert_by-All P a [] h hs = (h, tt)
  insert_by-All P a (x ∷ xs) h hs = elim (Bool-cases (less a x)) [
    | inl e ↦ rw e (h, hs)
    | inr e ↦ rw e (hs.0, insert_by-All P a xs h hs.1)
  ]

  -- A sort keeps what holds of every row.
  pub sort_by-All : (P : A → Type 0) (xs : List A) → All P xs → All P (sort_by less xs)
  unfolding sort_by
  sort_by-All P [] hs = tt
  sort_by-All P (x ∷ xs) hs = insert_by-All P x (sort_by less xs) hs.0 (sort_by-All P xs hs.1)

  length-insert_by : (a : A) (xs : List A) → length (insert_by less a xs) ≡ suc (length xs)
  unfolding insert_by
  length-insert_by a [] = refl
  length-insert_by a (x ∷ xs) = ground (arith, length-insert_by a xs)

  pub length-sort_by : (xs : List A) → length (sort_by less xs) ≡ length xs
  unfolding sort_by
  length-sort_by [] = refl
  length-sort_by (x ∷ xs) = omega (arith, length-insert_by x (sort_by less xs), length-sort_by xs)

  insert_by-Absent :
      (key : A → String) (k : String) (a : A) (xs : List A)
      → key a ≢ k
      → Absent key k xs
      → Absent key k (insert_by less a xs)
  unfolding insert_by
  insert_by-Absent key k a [] n h = (n, tt)
  insert_by-Absent key k a (x ∷ xs) n h = elim (Bool-cases (less a x)) [
    | inl e ↦ rw e (n, h)
    | inr e ↦ rw e (h.0, insert_by-Absent key k a xs n h.1)
  ]

  insert_by-Distinct :
      (key : A → String) (a : A) (xs : List A)
      → Absent key (key a) xs
      → Distinct key xs
      → Distinct key (insert_by less a xs)
  unfolding insert_by
  insert_by-Distinct key a [] h d = (tt, tt)
  insert_by-Distinct key a (x ∷ xs) h d = elim (Bool-cases (less a x)) [
    | inl e ↦ rw e (h, d)
    | inr e ↦ rw e (
      insert_by-Absent key (key x) a xs (λ p. h.0 (sym p)) d.0,
      insert_by-Distinct key a xs h.1 d.1,
    )
  ]

  sort_by-Absent :
      (key : A → String) (k : String) (xs : List A)
      → Absent key k xs
      → Absent key k (sort_by less xs)
  unfolding sort_by
  sort_by-Absent key k [] h = tt
  sort_by-Absent key k (x ∷ xs) h =
      insert_by-Absent key k x (sort_by less xs) h.0 (sort_by-Absent key k xs h.1)

  pub sort_by-Distinct :
      (key : A → String) (xs : List A) → Distinct key xs → Distinct key (sort_by less xs)
  unfolding sort_by
  sort_by-Distinct key [] d = tt
  sort_by-Distinct key (x ∷ xs) d =
      insert_by-Distinct key x (sort_by less xs) (sort_by-Absent key (key x) xs d.0)
        (sort_by-Distinct key xs d.1)

  insert_by-perm : (a : A) (xs : List A) → Perm (insert_by less a xs) (a ∷ xs)
  unfolding insert_by
  insert_by-perm a [] = Perm.rfl
  insert_by-perm a (x ∷ xs) = elim (Bool-cases (less a x)) [
    | inl e ↦ rw e Perm.rfl
    | inr e ↦ rw e (Perm.trans (Perm.cons x (insert_by-perm a xs)) (Perm.swap a x xs))
  ]

  -- A sort has the same rows.
  pub sort_by-perm : (xs : List A) → Perm (sort_by less xs) xs
  unfolding sort_by
  sort_by-perm [] = Perm.rfl
  sort_by-perm (x ∷ xs) =
      Perm.trans (insert_by-perm x (sort_by less xs)) (Perm.cons x (sort_by-perm xs))
