-- ===== src/Ordering/Store/Transaction.antt =====
-- How a transaction of adapters/postgres/store.go can end.
use b46_ordering_app_backend.Base.{◌≡◌, ◌⊎◌, inl, inr, refl, ap, arith, Result, ok, err, Bool-cases}
use b46_ordering_app_backend.Ordering.Domain.{OrderError, begin_tx, commit_tx}
use b46_ordering_app_backend.Ordering.Store.Tables.{Db, Env, finish, transaction}

-- A transaction ends with the old database or with its body's.
pub finish_cases {ℓ} :
    {A : Type ℓ} (env : Env) (before : Db) (r : Result OrderError (A × Db))
    → ((finish env before r).1 ≡ before)
      ⊎ ((a : A) × (db' : Db) × (r ≡ ok (a, db')) × ((finish env before r).1 ≡ db'))
unfolding finish
finish_cases env before (err e) = inl refl
finish_cases env before (ok (a, db')) = elim (Bool-cases (env.fails commit_tx)) [
  | inr e ↦ inr (a, db', refl, rw e)
  | inl e ↦ elim (Bool-cases env.commit_applied) [
    | inl c ↦ inr (a, db', refl, rw (e, c))
    | inr c ↦ inl (rw (e, c))
  ]
]

-- The same from the start of the transaction.
pub transaction_cases {ℓ} :
    {A : Type ℓ} (env : Env) (body : Db → Result OrderError (A × Db)) (db : Db)
    → ((transaction env body db).1 ≡ db)
      ⊎ ((a : A) × (db' : Db) × (body db ≡ ok (a, db')) × ((transaction env body db).1 ≡ db'))
unfolding transaction
transaction_cases env body db = elim (Bool-cases (env.fails begin_tx)) [
  | inl e ↦ inl (rw e)
  | inr e ↦ rw e (finish_cases env db (body db))
]

pub finish-ok {ℓ} :
    {A : Type ℓ} (env : Env) (before : Db) (r : Result OrderError (A × Db)) {a : A} {after : Db}
    → finish env before r ≡ (ok a, after)
    → r ≡ ok (a, after)
unfolding finish
finish-ok env before (err e) h = absurd (cc (ap (λ p. p.0) h))
finish-ok env before (ok (a', after')) h = elim (Bool-cases (env.fails commit_tx)) [
  | inl e ↦ absurd (ground (arith, e, h))
  | inr e ↦ ground (arith, e, h)
]

pub transaction-ok {ℓ} :
    {A : Type ℓ} (env : Env) (body : Db → Result OrderError (A × Db)) (db : Db) {a : A} {after : Db}
    → transaction env body db ≡ (ok a, after)
    → body db ≡ ok (a, after)
unfolding transaction
transaction-ok env body db {a} {after} h = elim (Bool-cases (env.fails begin_tx)) [
  | inl e ↦ absurd (ground (arith, e, h))
  | inr e ↦ finish-ok env db (body db) {a = a} {after = after} (ground (arith, e, h))
]
