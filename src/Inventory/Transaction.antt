-- ===== src/Inventory/Transaction.antt =====
-- The transactions of the inventory store, whatever their body does.
use b46_ordering_app_backend.Base.{
  ◌≡◌, ◌⊎◌, inl, inr, refl, Result, ok, err, arith, Option-cases, Bool-cases,
}
use b46_ordering_app_backend.Inventory.Tables.{
  Db, Env, Failure, commit_tx, finish, is_serialization_failure,
}

-- A transaction ends where it began, or where its body ended.
finish-place {ℓ} :
    {A : Type ℓ} (env : Env) (before : Db) (a : A) (after : Db)
    → ((finish env before (ok (a, after))).1 ≡ before)
      ⊎ ((finish env before (ok (a, after))).1 ≡ after)
unfolding finish
finish-place env before a after = elim (Option-cases (env.fails commit_tx)) [
  | inl e ↦ inr (ground (arith, e))
  | inr (f, e) ↦ elim (Bool-cases (is_serialization_failure f)) [
    | inl s ↦ inl (ground (arith, e, s))
    | inr s ↦ elim (Bool-cases env.commit_applied) [
      | inl c ↦ inr (ground (arith, e, s, c))
      | inr c ↦ inl (ground (arith, e, s, c))
    ]
  ]
]

pub finish_cases {ℓ} :
    {A : Type ℓ} (env : Env) (before : Db) (r : Result Failure (A × Db))
    → ((finish env before r).1 ≡ before)
      ⊎ ((a : A) × (after : Db) × (r ≡ ok (a, after)) × ((finish env before r).1 ≡ after))
finish_cases env before (err e) = inl (unfold finish in refl)
finish_cases env before (ok (a, after)) = elim (finish-place env before a after) [
  | inl e ↦ inl e
  | inr e ↦ inr (a, after, refl, e)
]
