-- ===== src/Inventory/Store/Receipts.antt =====
-- Store.Commit leaves a receipt, and a receipt is replayed.
use b46_ordering_app_backend.Base.{
  Bool, true, false, ℕ, zero, suc, ◌≡◌, ◌≢◌, ◌⊎◌, inl, inr, refl, sym, ◌∙◌, ap, subst, String, none,
  some, Result, ok, err, arith, eq_iff, ◌=s=◌, Option-cases,
}
use b46_ordering_app_backend.Inventory.Domain.{
  CommitCommand, CommitResult, InventoryError, operation_conflict, validate_result,
}
use b46_ordering_app_backend.Inventory.Tables.{
  Db, Env, Call, ReceiptRow, Failure, conflict, attempt, finish, begin_tx, commit_tx,
  lock_operation, load_receipt, decode_receipt,
}
use b46_ordering_app_backend.Inventory.Store.{
  receipt_of, load_stored, decode_receipt_result, wire_result, commit_body, commit_once, close,
  replays, commit_tries, commit, stored_result, replay_or_commit, after_try, classify_store_error,
}
use b46_ordering_app_backend.Inventory.Store.Received.{Received, commit_body-Received}

finish-ok :
    (env : Env) (before : Db) (r : Result Failure (CommitResult × Db)) {a : CommitResult}
    {after : Db}
    → finish env before r ≡ (ok a, after)
    → r ≡ ok (a, after)
unfolding finish
finish-ok env before (err e) h = absurd (ground (arith, ap (λ p. p.0) h))
finish-ok env before (ok (a', after')) h = elim (Option-cases (env.fails commit_tx)) [
  | inl e ↦ ground (arith, e, h)
  | inr (f, e) ↦ ground (arith, e, h)
]

close-ok :
    (env : Env) (before : Db) (again : Bool) (r : Result Failure (CommitResult × Db))
    {a : CommitResult} {after : Db}
    → close env before again r ≡ (ok a, after)
    → r ≡ ok (a, after)
unfolding close
close-ok env before true (ok (a', after')) h = ground (arith, h)
close-ok env before true (err e) h = absurd (ground (arith, ap (λ p. p.0) h))
close-ok env before false r h = finish-ok env before r h

-- A transaction that has begun runs its body.
pub commit_once-begun :
    (env : Env) (actor : String) (command : CommitCommand) (fingerprint : String) (db : Db)
    → env.fails begin_tx ≡ none
    → commit_once env actor command fingerprint db
      ≡ close env db
          (replays env command fingerprint db)
          (commit_body env actor command fingerprint db)
unfolding commit_once
commit_once-begun env actor command fingerprint db e = ground (arith, e)

pub commit_once-refused :
    (env : Env) (actor : String) (command : CommitCommand) (fingerprint : String) (db : Db)
    {f : Failure}
    → env.fails begin_tx ≡ some f
    → commit_once env actor command fingerprint db ≡ (err f, db)
unfolding commit_once
commit_once-refused env actor command fingerprint db e = ground (arith, e)

commit_once-Received :
    (env : Env) (actor : String) (command : CommitCommand) (fingerprint : String) (db : Db)
    {r : CommitResult} {db' : Db}
    → commit_once env actor command fingerprint db ≡ (ok r, db')
    → Received command.operation_id fingerprint r db'
unfolding commit_once
commit_once-Received env actor command fingerprint db h = elim (Option-cases (env.fails begin_tx)) [
  | inr (f, e) ↦ absurd (cc (sym (commit_once-refused env actor command fingerprint db e) ∙ h))
  | inl e ↦ commit_body-Received env actor command fingerprint db (
      close-ok env db (replays env command fingerprint db)
        (commit_body env actor command fingerprint db)
        (sym (commit_once-begun env actor command fingerprint db e) ∙ h))
]

-- What an attempt needs to replay a receipt: none of these steps fails.
pub record Works (env : Env) : Type 0 where
  pub begins : env.fails begin_tx ≡ none
  pub locks : env.fails lock_operation ≡ none
  pub loads : env.fails load_receipt ≡ none
  pub decodes : env.fails decode_receipt ≡ none

module _ (env : Env) (fingerprint : String) (w : Works env) where
  attempted : (c : Call) → env.fails c ≡ none → attempt env c ≡ ok tt
  attempted c e = ap (λ o. elim o [ none ↦ ok tt | some f ↦ err f ]) e

  stored_result-replay :
      (row : ReceiptRow)
      → row.request_fingerprint ≡ fingerprint
      → validate_result (wire_result row.result_payload) ≡ ok tt
      → stored_result env fingerprint (some row) ≡ ok (some (wire_result row.result_payload))
  unfolding stored_result decode_receipt_result
  stored_result-replay row printed valid =
      rw
        (
          (eq_iff row.request_fingerprint fingerprint).1 printed,
          attempted decode_receipt w.decodes,
          valid,
        )
        refl

  module _ (command : CommitCommand) (db : Db) (r : CommitResult)
      (received : Received command.operation_id fingerprint r db)
      (valid : validate_result r ≡ ok tt) where
    load_stored-replay : load_stored env command.operation_id fingerprint db ≡ ok (some r)
    unfolding load_stored
    load_stored-replay =
        rw (attempted load_receipt w.loads, received.found)
          (stored_result-replay received.row received.printed
              (subst (λ x. validate_result x ≡ ok tt) (sym received.holds) valid)
            ∙ ap (λ x. ok (some x)) received.holds)

    commit_body-replay :
        (actor : String) → commit_body env actor command fingerprint db ≡ ok (r, db)
    unfolding commit_body replay_or_commit
    commit_body-replay actor = rw (attempted lock_operation w.locks, load_stored-replay) refl

    replays-true : replays env command fingerprint db ≡ true
    unfolding replays
    replays-true = rw (load_stored-replay, replays) refl

    commit_once-replay :
        (actor : String) → commit_once env actor command fingerprint db ≡ (ok r, db)
    unfolding close
    commit_once-replay actor =
        commit_once-begun env actor command fingerprint db w.begins
        ∙ rw (replays-true, commit_body-replay actor) refl

module _ (env : Env) (fingerprint : String) (w : Works env) (actor : String)
    (command : CommitCommand) (db : Db) (row : ReceiptRow)
    (found : receipt_of command.operation_id db ≡ some row)
    (refused : (row.request_fingerprint =s= fingerprint) ≡ false) where
  load_stored-conflict : load_stored env command.operation_id fingerprint db ≡ err conflict
  unfolding load_stored stored_result
  load_stored-conflict =
      rw (attempted env fingerprint w load_receipt w.loads, found) (rw refused refl)

  commit_body-conflict : commit_body env actor command fingerprint db ≡ err conflict
  unfolding commit_body
  commit_body-conflict =
      rw (attempted env fingerprint w lock_operation w.locks, load_stored-conflict) refl

  replays-false : replays env command fingerprint db ≡ false
  unfolding replays
  replays-false = rw (load_stored-conflict, replays) refl

  commit_once-conflict : commit_once env actor command fingerprint db ≡ (err conflict, db)
  unfolding close finish
  commit_once-conflict =
      commit_once-begun env actor command fingerprint db w.begins
      ∙ rw (replays-false, commit_body-conflict) refl

after_try-ok :
    (p : Result Failure CommitResult × Db) (again : Result InventoryError CommitResult × Db)
    {r : CommitResult} {db' : Db}
    → after_try p.0 p.1 again ≡ (ok r, db')
    → (p ≡ (ok r, db')) ⊎ (again ≡ (ok r, db'))
unfolding after_try
after_try-ok (ok a, after) again h = inl (ground (arith, h))
after_try-ok (err e, after) again h = inr (ground (arith, h))

commit_tries-Received :
    (n i : ℕ) (envs : ℕ → Env) (between : ℕ → Db → Db) (actor : String) (command : CommitCommand)
    (fingerprint : String) (db : Db) {r : CommitResult} {db' : Db}
    → commit_tries n i envs between actor command fingerprint db ≡ (ok r, db')
    → Received command.operation_id fingerprint r db'
unfolding commit_tries
commit_tries-Received zero i envs between actor command fingerprint db h = absurd (cc h)
commit_tries-Received (suc n) i envs between actor command fingerprint db h =
    let once = commit_once (envs i) actor command fingerprint (between i db) in
    elim (after_try-ok once (commit_tries n (suc i) envs between actor command fingerprint once.1)
      h) [
        | inl e ↦ commit_once-Received (envs i) actor command fingerprint (between i db) e
        | inr e ↦ commit_tries-Received n (suc i) envs between actor command fingerprint once.1 e
      ]

-- When Store.Commit returns a result, the operation's receipt holds it under the command's
-- fingerprint.
pub commit-Received :
    (envs : ℕ → Env) (between : ℕ → Db → Db) (actor : String) (command : CommitCommand)
    (fingerprint : String) (db : Db) {r : CommitResult} {db' : Db}
    → commit envs between actor command fingerprint db ≡ (ok r, db')
    → Received command.operation_id fingerprint r db'
unfolding commit
commit-Received envs between actor command fingerprint db h =
    commit_tries-Received 3 0 envs between actor command fingerprint db h

-- A first attempt that succeeds is the whole call.
pub commit-first :
    (envs : ℕ → Env) (between : ℕ → Db → Db) (actor : String) (command : CommitCommand)
    (fingerprint : String) (db : Db) {r : CommitResult} {db' : Db}
    → commit_once (envs 0) actor command fingerprint (between 0 db) ≡ (ok r, db')
    → commit envs between actor command fingerprint db ≡ (ok r, db')
unfolding commit commit_tries after_try
commit-first envs between actor command fingerprint db once = rw once refl

-- A receipt that holds a valid result is replayed: the same command gets that result and changes
-- nothing.
pub commit-replay :
    (envs : ℕ → Env) (between : ℕ → Db → Db) (actor : String) (command : CommitCommand)
    (fingerprint : String) (db : Db) (r : CommitResult)
    → Works (envs 0)
    → Received command.operation_id fingerprint r (between 0 db)
    → validate_result r ≡ ok tt
    → commit envs between actor command fingerprint db ≡ (ok r, between 0 db)
commit-replay envs between actor command fingerprint db r w received valid =
    commit-first envs between actor command fingerprint db
      (commit_once-replay (envs 0) fingerprint w command (between 0 db) r received valid actor)

-- An operation that has a receipt under another fingerprint is a conflict, and nothing changes,
-- when no step of the first attempt fails.
pub commit-conflict :
    (envs : ℕ → Env) (between : ℕ → Db → Db) (actor : String) (command : CommitCommand)
    (fingerprint : String) (db : Db) (row : ReceiptRow)
    → Works (envs 0)
    → receipt_of command.operation_id (between 0 db) ≡ some row
    → row.request_fingerprint ≢ fingerprint
    → commit envs between actor command fingerprint db ≡ (err operation_conflict, between 0 db)
unfolding commit commit_tries after_try classify_store_error
commit-conflict envs between actor command fingerprint db row w found other =
    rw
      (commit_once-conflict (envs 0) fingerprint w actor command (between 0 db) row found
        (ground (arith, other, eq_iff row.request_fingerprint fingerprint)))
      refl
