-- ===== src/Base/Rows.antt =====
-- Tables under updates and insertions: predicates at every row, and the rows that a test keeps.
use Prim.Native.String.{String}
use mathlib.Core.Path.{◌≡◌, refl, sym, subst}
use mathlib.Core.Logic.{◌≢◌, inl, inr}
use mathlib.Core.Bool.{Bool, true, false}
use mathlib.Core.List.{List, [], ◌∷◌, ◌++◌}
use mathlib.Core.Option.{none, some}
use native.Mathlib.Omega.{arith}
use b46_ordering_app_backend.Base.Tests.{if◌then◌else◌, Bool-cases}
use b46_ordering_app_backend.Base.Lists.{All, find_first, keep, update_where}
use b46_ordering_app_backend.Base.Text.{◌=s=◌}
use b46_ordering_app_backend.Base.Keys.{Absent, Distinct, find_key}

module _ {ℓ} {A : Type ℓ} where
  pub All-snoc {κ} : (P : A → Type κ) (xs : List A) (a : A) → All P xs → P a → All P (xs ++ a ∷ [])
  All-snoc P [] a h new = (new, tt)
  All-snoc P (x ∷ xs) a h new = (h.0, All-snoc P xs a h.1 new)

  pub All-append : (P : A → Type 0) (xs ys : List A) → All P xs → All P ys → All P (xs ++ ys)
  All-append P [] ys h k = k
  All-append P (x ∷ xs) ys h k = (h.0, All-append P xs ys h.1 k)

  pub All-weaker : (P Q : A → Type 0) → ((a : A) → P a → Q a) → (xs : List A) → All P xs → All Q xs
  All-weaker P Q weaker [] h = tt
  All-weaker P Q weaker (x ∷ xs) h = (weaker x h.0, All-weaker P Q weaker xs h.1)

  pub All-update {κ} :
      (P : A → Type κ) (p : A → Bool) (f : A → A)
      → ((a : A) → p a ≡ true → P a → P (f a))
      → (xs : List A) → All P xs
      → All P (update_where p f xs)
  unfolding update_where
  All-update P p f step [] h = tt
  All-update P p f step (x ∷ xs) h = elim (Bool-cases (p x)) [
    | inl e ↦ rw e (step x e h.0, All-update P p f step xs h.1)
    | inr e ↦ rw e (h.0, All-update P p f step xs h.1)
  ]

  -- An update after which a predicate holds of what it changed, and held of the rest before.
  pub All-updated {κ} :
      (P : A → Type κ) (p : A → Bool) (f : A → A)
      → ((a : A) → p a ≡ true → P (f a))
      → ((a : A) → p a ≡ false → P a)
      → (xs : List A) → All P (update_where p f xs)
  unfolding update_where
  All-updated P p f hit miss [] = tt
  All-updated P p f hit miss (x ∷ xs) = elim (Bool-cases (p x)) [
    | inl e ↦ rw e (hit x e, All-updated P p f hit miss xs)
    | inr e ↦ rw e (miss x e, All-updated P p f hit miss xs)
  ]

  pub All-found {κ} :
      (P : A → Type κ) (p : A → Bool) (xs : List A) (a : A)
      → All P xs
      → find_first p xs ≡ some a
      → P a
  unfolding find_first
  All-found P p [] a h e = absurd (cc)
  All-found P p (x ∷ xs) a h e = elim (Bool-cases (p x)) [
    | inl t ↦ subst_head x a (ground (arith, t, e)) h.0
    | inr t ↦ All-found P p xs a h.1 (ground (arith, t, e))
  ]
    where
      subst_head : (x a : A) → x ≡ a → P x → P a
      subst_head x a same h = rw (sym same) h

  -- An update after which no row passes a test.
  pub keep-update-none :
      (q p : A → Bool) (f : A → A)
      → ((a : A) → p a ≡ true → q (f a) ≡ false)
      → ((a : A) → p a ≡ false → q a ≡ false)
      → (xs : List A) → keep q (update_where p f xs) ≡ []
  unfolding keep update_where
  keep-update-none q p f hit miss [] = refl
  keep-update-none q p f hit miss (x ∷ xs) = elim (Bool-cases (p x)) [
    | inl e ↦ rw (e, hit x e) (keep-update-none q p f hit miss xs)
    | inr e ↦ rw (e, miss x e) (keep-update-none q p f hit miss xs)
  ]

  -- Where no row passes a test, no row that is found does.
  pub keep-none-found :
      (q p : A → Bool) (xs : List A) (a : A)
      → keep q xs ≡ []
      → find_first p xs ≡ some a
      → q a ≡ false
  unfolding keep find_first
  keep-none-found q p [] a n h = cc
  keep-none-found q p (x ∷ xs) a n h = elim (Bool-cases (p x)) [
    | inl e ↦ ground (arith, e, n, h)
    | inr e ↦ keep-none-found q p xs a (ground (arith, n)) (ground (arith, e, h))
  ]

  pub find_first-snoc :
      (p : A → Bool) (xs : List A) (a : A)
      → find_first p xs ≡ none
      → p a ≡ true
      → find_first p (xs ++ a ∷ []) ≡ some a
  unfolding find_first
  find_first-snoc p [] a h e = rw e
  find_first-snoc p (x ∷ xs) a h e = elim (Bool-cases (p x)) [
    | inl t ↦ absurd (ground (arith, t, h))
    | inr t ↦ rw t (find_first-snoc p xs a (ground (arith, t, h)) e)
  ]

  -- Where a key is absent, no test that asks for it finds a row.
  pub find_first-Absent :
      (key : A → String) (k : String) (p : A → Bool)
      → ((a : A) → p a ≡ true → key a ≡ k)
      → (xs : List A) → Absent key k xs
      → find_first p xs ≡ none
  unfolding find_first
  find_first-Absent key k p asks [] h = refl
  find_first-Absent key k p asks (x ∷ xs) h = elim (Bool-cases (p x)) [
    | inl t ↦ absurd (h.0 (asks x t))
    | inr t ↦ rw t (find_first-Absent key k p asks xs h.1)
  ]

  pub update_where-snoc :
      (p : A → Bool) (f : A → A) (xs : List A) (a : A)
      → update_where p f (xs ++ a ∷ []) ≡ update_where p f xs ++ (if p a then f a else a) ∷ []
  unfolding update_where
  update_where-snoc p f [] a = refl
  update_where-snoc p f (x ∷ xs) a = rw (update_where-snoc p f xs a)

  -- The rows that `live` keeps, when rows are added and changed. `key` is what may not repeat
  -- among them.
  module _ (key : A → String) (live : A → Bool) where
    pub keep-snoc :
        (xs : List A) (a : A) → live a ≡ true → keep live (xs ++ a ∷ []) ≡ keep live xs ++ a ∷ []
    unfolding keep
    keep-snoc [] a e = rw e
    keep-snoc (x ∷ xs) a e = elim (Bool-cases (live x)) [
      | inl t ↦ rw (t, keep-snoc xs a e)
      | inr t ↦ rw (t, keep-snoc xs a e)
    ]

    module _ (p : A → Bool) (f : A → A) (same : (a : A) → key (f a) ≡ key a)
        (ends : (a : A) → live a ≡ false → live (f a) ≡ false) where
      pub keep-update-Absent :
          (k : String) (xs : List A)
          → Absent key k (keep live xs)
          → Absent key k (keep live (update_where p f xs))
      unfolding keep update_where
      keep-update-Absent k [] h = tt
      keep-update-Absent k (x ∷ xs) h = elim (Bool-cases (live x)) [
        | inr t ↦ elim (Bool-cases (p x)) [
          | inl e ↦ rw (e, ends x t) (keep-update-Absent k xs (rw t at h))
          | inr e ↦ rw (e, t) (keep-update-Absent k xs (rw t at h))
        ]
        | inl t ↦
            let whole : (key x ≢ k) × Absent key k (keep live xs) = rw t at h in
            let rest = keep-update-Absent k xs whole.1 in
            elim (Bool-cases (p x)) [
              | inr e ↦ rw (e, t) (whole.0, rest)
              | inl e ↦ elim (Bool-cases (live (f x))) [
                | inl t' ↦ rw (e, t') ((λ q. whole.0 (cc (same x, q))), rest)
                | inr t' ↦ rw (e, t') rest
              ]
            ]
      ]

      pub keep-update-Distinct :
          (xs : List A)
          → Distinct key (keep live xs)
          → Distinct key (keep live (update_where p f xs))
      unfolding keep update_where
      keep-update-Distinct [] h = tt
      keep-update-Distinct (x ∷ xs) h = elim (Bool-cases (live x)) [
        | inr t ↦ elim (Bool-cases (p x)) [
          | inl e ↦ rw (e, ends x t) (keep-update-Distinct xs (rw t at h))
          | inr e ↦ rw (e, t) (keep-update-Distinct xs (rw t at h))
        ]
        | inl t ↦
            let whole : Absent key (key x) (keep live xs) × Distinct key (keep live xs) =
              rw t at h in
            let rest = keep-update-Distinct xs whole.1 in
            let apart_from = keep-update-Absent (key x) xs whole.0 in
            elim (Bool-cases (p x)) [
              | inr e ↦ rw (e, t) (apart_from, rest)
              | inl e ↦ elim (Bool-cases (live (f x))) [
                | inl t' ↦ rw (e, t', same x) (apart_from, rest)
                | inr t' ↦ rw (e, t') rest
              ]
            ]
      ]

    -- A live row that is found keeps its key from being absent among the live ones.
    found_live :
        (k : String) (p : A → Bool) (xs : List A) (a : A)
        → Absent key k (keep live xs)
        → find_first p xs ≡ some a
        → live a ≡ true
        → key a ≢ k
    unfolding find_first keep
    found_live k p [] a n h t = cc
    found_live k p (x ∷ xs) a n h t = elim (Bool-cases (p x)) [
      | inl e ↦ first_live (ground (arith, e, h))
      | inr e ↦ found_live k p xs a rest (ground (arith, e, h)) t
    ]
      where
        rest : Absent key k (keep live xs)
        rest = elim (Bool-cases (live x)) [ inl t' ↦ tail (rw t' at n) | inr t' ↦ rw t' at n ]
          where
            tail : (key x ≢ k) × Absent key k (keep live xs) → Absent key k (keep live xs)
            tail h = h.1

        first_live : x ≡ a → key a ≢ k
        first_live same q =
            let whole : (key x ≢ k) × Absent key k (keep live xs) = rw (same_live same) at n in
            whole.0 (cc (same, q))
          where
            same_live : x ≡ a → live x ≡ true
            same_live same = cc (same, t)

    keep-tail :
        (x : A) (xs : List A) → Distinct key (keep live (x ∷ xs)) → Distinct key (keep live xs)
    unfolding keep
    keep-tail x xs u = elim (Bool-cases (live x)) [ inl t ↦ second (rw t at u) | inr t ↦ rw t at u ]
      where
        second : Distinct key (x ∷ keep live xs) → Distinct key (keep live xs)
        second h = h.1

    keep-head :
        (x : A) (xs : List A)
        → live x ≡ true
        → Distinct key (keep live (x ∷ xs))
        → Absent key (key x) (keep live xs)
    unfolding keep
    keep-head x xs t u = first (rw t at u)
      where
        first : Distinct key (x ∷ keep live xs) → Absent key (key x) (keep live xs)
        first h = h.0

    -- When the one live row of a key is changed into a row that is not live, no live row has the key.
    pub keep-ended :
        (id : A → String) (i : String) (f : A → A)
        → ((a : A) → key (f a) ≡ key a)
        → ((a : A) → live (f a) ≡ false)
        → (xs : List A) (a : A) → Distinct id xs
        → Distinct key (keep live xs)
        → find_key id i xs ≡ some a
        → live a ≡ true
        → Absent key (key a) (keep live (update_where (λ x. id x =s= i) f xs))
    unfolding find_first keep update_where
    keep-ended id i f same ends [] a d u h t = tt
    keep-ended id i f same ends (x ∷ xs) a d u h t = elim (Bool-cases (id x =s= i)) [
      | inl e ↦
          let here : x ≡ a = ground (arith, e, h) in
          let alone = keep-head x xs (cc (here, t)) u in
          rw (e, ends x)
            (keep-update-Absent (λ x. id x =s= i) f same (λ b q. ends b) (key a) xs
              (subst (λ b. Absent key (key b) (keep live xs)) here alone))
      | inr e ↦
          let later : find_key id i xs ≡ some a = ground (arith, e, h) in
          let rest = keep-ended id i f same ends xs a d.1 (keep-tail x xs u) later t in
          elim (Bool-cases (live x)) [
            | inr q ↦ rw (e, q) rest
            | inl q ↦
                let other =
                  found_live (key x) (λ y. id y =s= i) xs a (keep-head x xs q u) later t in
                rw (e, q) ((λ r. other (sym r)), rest)
          ]
    ]
