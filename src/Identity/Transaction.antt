-- ===== src/Identity/Transaction.antt =====
-- How a transaction of identity/adapters/postgres can end.
use b46_ordering_app_backend.Base.{
  ◌≡◌, ◌⊎◌, inl, inr, refl, false, Result, ok, err, arith, Bool-cases,
}
use b46_ordering_app_backend.Identity.Domain.{Step, IdentityError, begin_tx, commit_tx}
use b46_ordering_app_backend.Identity.Tables.{Db, Env, finish, transaction, statement}

finish_cases {ℓ} :
    {A : Type ℓ} (env : Env) (before : Db) (r : Result IdentityError (Result IdentityError A × Db))
    → ((finish env before r).1 ≡ before)
      ⊎ ((answer : Result IdentityError A) × (after : Db) × (r ≡ ok (answer, after))
          × ((finish env before r).1 ≡ after))
unfolding finish
finish_cases env before (err e) = inl refl
finish_cases env before (ok (answer, after)) = elim (Bool-cases (env.fails commit_tx)) [
  | inr e ↦ inr (answer, after, refl, rw e)
  | inl e ↦ elim (Bool-cases env.applied) [
    | inl c ↦ inr (answer, after, refl, rw (e, c))
    | inr c ↦ inl (rw (e, c))
  ]
]

-- A transaction ends with the old tables or with its body's.
pub transaction_cases {ℓ} :
    {A : Type ℓ} (env : Env) (body : Db → Result IdentityError (Result IdentityError A × Db))
    (db : Db)
    → ((transaction env body db).1 ≡ db)
      ⊎ ((answer : Result IdentityError A) × (after : Db) × (body db ≡ ok (answer, after))
          × ((transaction env body db).1 ≡ after))
unfolding transaction
transaction_cases env body db = elim (Bool-cases (env.fails begin_tx)) [
  | inl e ↦ inl (rw e)
  | inr e ↦ rw e (finish_cases env db (body db))
]

finish_ok {ℓ} :
    {A : Type ℓ} (env : Env) (before : Db) (r : Result IdentityError (Result IdentityError A × Db))
    (a : A)
    → (finish env before r).0 ≡ ok a
    → (after : Db) × (r ≡ ok (ok a, after)) × ((finish env before r).1 ≡ after)
unfolding finish
finish_ok env before (err e) a h = absurd (cc)
finish_ok env before (ok (answer, after)) a h = elim (Bool-cases (env.fails commit_tx)) [
  | inl e ↦ absurd (ground (arith, e, h))
  | inr e ↦ (after, ground (arith, e, h), rw e)
]

-- A transaction that answers with a value has run its body and keeps its tables.
pub transaction_ok {ℓ} :
    {A : Type ℓ} (env : Env) (body : Db → Result IdentityError (Result IdentityError A × Db))
    (db : Db) (a : A)
    → (transaction env body db).0 ≡ ok a
    → (after : Db) × (body db ≡ ok (ok a, after)) × ((transaction env body db).1 ≡ after)
unfolding transaction
transaction_ok env body db a h = elim (Bool-cases (env.fails begin_tx)) [
  | inl e ↦ absurd (ground (arith, e, h))
  | inr e ↦ rw e (finish_ok env db (body db) a (ground (arith, e, h)))
]

-- No step of a call fails for a technical reason.
abbrev pub Works : Env → Type 0
Works env = (s : Step) → env.fails s ≡ false

-- Without technical failures a transaction is its body.
pub transaction-Works {ℓ} :
    {A : Type ℓ} (env : Env) (body : Db → Result IdentityError (Result IdentityError A × Db))
    (db : Db) (answer : Result IdentityError A) (after : Db)
    → Works env
    → body db ≡ ok (answer, after)
    → transaction env body db ≡ (answer, after)
unfolding transaction finish
transaction-Works env body db answer after works e = rw (works begin_tx, e, works commit_tx)

-- A statement outside a transaction has its effect, or none.
pub statement_cases :
    (env : Env) (s : Step) (write : Db → Db) (db : Db)
    → ((statement env s write db).1 ≡ db) ⊎ ((statement env s write db).1 ≡ write db)
statement_cases env s write db = elim (Bool-cases (env.fails s)) [
  | inr e ↦ inr (rw e)
  | inl e ↦ elim (Bool-cases env.applied) [ inl a ↦ inr (rw (e, a)) | inr a ↦ inl (rw (e, a)) ]
]
