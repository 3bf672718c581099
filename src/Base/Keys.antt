-- ===== src/Base/Keys.antt =====
-- Tables with a unique text key: looking a row up, adding one, and changing some in place.
use Prim.Native.String.{String}
use mathlib.Core.Path.{◌≡◌, refl, sym, subst, ◌∙◌}
use mathlib.Core.Logic.{◌≢◌, inl, inr}
use mathlib.Core.Bool.{Bool, true, false}
use mathlib.Core.List.{List, [], ◌∷◌, ◌++◌}
use mathlib.Core.Option.{Option, none, some}
use native.Mathlib.Omega.{arith}
use text.Mathlib.TextEquality.{eq_iff}
use b46_ordering_app_backend.Base.Tests.{if◌then◌else◌, Bool-cases}
use b46_ordering_app_backend.Base.Lists.{find_first, update_where}
use b46_ordering_app_backend.Base.Text.{◌=s=◌}

pub apart : {a b : String} → (a =s= b) ≡ false → a ≢ b
apart {a} {b} n e = cc (n, (eq_iff a b).1 e)

module _ {ℓ} {A : Type ℓ} where
  -- No row has the key.
  abbrev pub Absent : (A → String) → String → List A → Type 0
  Absent key k [] = Unit
  Absent key k (x ∷ xs) = (key x ≢ k) × Absent key k xs

  -- No two rows share a key.
  abbrev pub Distinct : (A → String) → List A → Type 0
  Distinct key [] = Unit
  Distinct key (x ∷ xs) = Absent key (key x) xs × Distinct key xs

  abbrev pub find_key : (A → String) → String → List A → Option A
  find_key key k rows = find_first (λ x. key x =s= k) rows

  pub find_key-Absent :
      (key : A → String) (k : String) (xs : List A) → Absent key k xs → find_key key k xs ≡ none
  unfolding find_first
  find_key-Absent key k [] h = refl
  find_key-Absent key k (x ∷ xs) h = ground (arith, eq_iff (key x) k, find_key-Absent key k xs h.1)

  pub Absent-find_key :
      (key : A → String) (k : String) (xs : List A) → find_key key k xs ≡ none → Absent key k xs
  unfolding find_first
  Absent-find_key key k [] h = tt
  Absent-find_key key k (x ∷ xs) h = elim (Bool-cases (key x =s= k)) [
    | inl e ↦ ground (arith, e)
    | inr e ↦
        (λ p. ground (arith, p, e, eq_iff (key x) k), Absent-find_key key k xs (ground (arith, e)))
  ]

  pub Absent-snoc :
      (key : A → String) (k : String) (xs : List A) (a : A)
      → Absent key k xs
      → key a ≢ k
      → Absent key k (xs ++ a ∷ [])
  Absent-snoc key k [] a h n = (n, tt)
  Absent-snoc key k (x ∷ xs) a h n = (h.0, Absent-snoc key k xs a h.1 n)

  pub Distinct-snoc :
      (key : A → String) (xs : List A) (a : A)
      → Distinct key xs
      → Absent key (key a) xs
      → Distinct key (xs ++ a ∷ [])
  Distinct-snoc key [] a d h = (tt, tt)
  Distinct-snoc key (x ∷ xs) a d h =
      (Absent-snoc key (key x) xs a d.0 (λ e. h.0 (sym e)), Distinct-snoc key xs a d.1 h.1)

  -- The new row is found by its key, and every other key finds what it found.
  pub find_key-snoc :
      (key : A → String) (k : String) (xs : List A) (a : A)
      → Absent key (key a) xs
      → find_key key k (xs ++ a ∷ []) ≡ (if key a =s= k then some a else find_key key k xs)
  unfolding find_first
  find_key-snoc key k [] a h = refl
  find_key-snoc key k (x ∷ xs) a h =
      ground (arith, find_key-snoc key k xs a h.1, eq_iff (key x) k, eq_iff (key a) k)

  -- A change that leaves the keys alone keeps a key absent, and the keys distinct.
  pub Absent-update :
      (key : A → String) (k : String) (p : A → Bool) (f : A → A)
      → ((a : A) → key (f a) ≡ key a)
      → (xs : List A) → Absent key k xs
      → Absent key k (update_where p f xs)
  unfolding update_where
  Absent-update key k p f same [] h = tt
  Absent-update key k p f same (x ∷ xs) h = elim (Bool-cases (p x)) [
    | inl e ↦ rw e ((λ q. h.0 (cc (same x, q))), Absent-update key k p f same xs h.1)
    | inr e ↦ rw e (h.0, Absent-update key k p f same xs h.1)
  ]

  pub Distinct-update :
      (key : A → String) (p : A → Bool) (f : A → A)
      → ((a : A) → key (f a) ≡ key a)
      → (xs : List A) → Distinct key xs
      → Distinct key (update_where p f xs)
  unfolding update_where
  Distinct-update key p f same [] d = tt
  Distinct-update key p f same (x ∷ xs) d = elim (Bool-cases (p x)) [
    | inl e ↦
        rw (e, same x)
          (Absent-update key (key x) p f same xs d.0, Distinct-update key p f same xs d.1)
    | inr e ↦ rw e (Absent-update key (key x) p f same xs d.0, Distinct-update key p f same xs d.1)
  ]

  abbrev pub changed : (A → Bool) → (A → A) → Option A → Option A
  changed p f none = none
  changed p f (some a) = some (if p a then f a else a)

  pub find_key-update :
      (key : A → String) (k : String) (p : A → Bool) (f : A → A)
      → ((a : A) → key (f a) ≡ key a)
      → (xs : List A) → find_key key k (update_where p f xs) ≡ changed p f (find_key key k xs)
  unfolding update_where find_first
  find_key-update key k p f same [] = refl
  find_key-update key k p f same (x ∷ xs) =
      ground (arith, same x, find_key-update key k p f same xs)

  -- A row that is found has the key.
  pub find_key_sound :
      (key : A → String) (k : String) (xs : List A) {a : A} → find_key key k xs ≡ some a → key a ≡ k
  unfolding find_first
  find_key_sound key k [] h = cc
  find_key_sound key k (x ∷ xs) {a} h =
      ground (arith, eq_iff (key x) k, find_key_sound key k xs {a = a})

  -- A test that no row passes: no row has a key for which the test would pass.
  pub Absent-find_first :
      (key : A → String) (k : String) (p : A → Bool)
      → ((a : A) → key a ≡ k → p a ≡ true)
      → (xs : List A) → find_first p xs ≡ none
      → Absent key k xs
  unfolding find_first
  Absent-find_first key k p test [] h = tt
  Absent-find_first key k p test (x ∷ xs) h = elim (Bool-cases (p x)) [
    | inl e ↦ ground (arith, e)
    | inr e ↦ ((λ q. cc (test x q, e)), Absent-find_first key k p test xs (ground (arith, e)))
  ]

  -- A row that is found passes the test, and its key is not absent.
  pub found_passes : (p : A → Bool) (xs : List A) (a : A) → find_first p xs ≡ some a → p a ≡ true
  unfolding find_first
  found_passes p [] a h = cc
  found_passes p (x ∷ xs) a h = elim (Bool-cases (p x)) [
    | inl e ↦ ground (arith, e)
    | inr e ↦ found_passes p xs a (ground (arith, e))
  ]

  found_present :
      (key : A → String) (k : String) (p : A → Bool) (xs : List A) (a : A)
      → Absent key k xs
      → find_first p xs ≡ some a
      → key a ≢ k
  unfolding find_first
  found_present key k p [] a n h = cc
  found_present key k p (x ∷ xs) a n h = elim (Bool-cases (p x)) [
    | inl e ↦ λ q. n.0 (ground (arith, e, q))
    | inr e ↦ found_present key k p xs a n.1 (ground (arith, e))
  ]

  -- With distinct keys, a row found by any test is the one found by its key.
  pub found_by_key :
      (key : A → String) (p : A → Bool) (xs : List A) (a : A)
      → Distinct key xs
      → find_first p xs ≡ some a
      → find_key key (key a) xs ≡ some a
  unfolding find_first
  found_by_key key p [] a d h = cc
  found_by_key key p (x ∷ xs) a d h = elim (Bool-cases (p x)) [
    | inl e ↦ ground (arith, e, eq_iff (key x) (key a))
    | inr e ↦
        let later : find_first p xs ≡ some a = ground (arith, e) in
        let other = found_present key (key x) p xs a d.0 later in
        ground (arith, other, eq_iff (key x) (key a), found_by_key key p xs a d.1 later)
  ]

  -- With distinct keys, two rows with the same key are one.
  pub same_row :
      (key : A → String) (p q : A → Bool) (xs : List A) (a b : A)
      → Distinct key xs
      → find_first p xs ≡ some a
      → find_first q xs ≡ some b
      → key a ≡ key b
      → a ≡ b
  same_row key p q xs a b d ha hb e =
      let fa = found_by_key key p xs a d ha in
      let fb = found_by_key key q xs b d hb in
      let both : ◌≡◌ {A = Option A} (some a) (some b) =
        sym fa ∙ subst (λ k. find_key key k xs ≡ some b) (sym e) fb in
      cc both

  -- A change that passes the found row over leaves the search as it was.
  pub changed_none :
      (p : A → Bool) (f : A → A) (o : Option A)
      → ((a : A) → o ≡ some a → p a ≡ false)
      → changed p f o ≡ o
  changed_none p f none h = refl
  changed_none p f (some a) h = rw (h a refl)
