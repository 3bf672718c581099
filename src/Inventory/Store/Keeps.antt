-- ===== src/Inventory/Store/Keeps.antt =====
-- What every deduction and every receipt keeps, Store.Commit keeps.
use b46_ordering_app_backend.Base.{
  Option-cases, Bool, refl, ℕ, zero, suc, ◌≡◌, inl, inr, sym, ap, subst, String, true, false, not,
  Option, none, some, List, [], ◌∷◌, Result, ok, err, bind_ok, passed, ok-injective, fail_if, arith,
  Bool-cases, ◌==◌, length, keep,
}
use b46_ordering_app_backend.Base.Sort.{sort_by}
use b46_ordering_app_backend.Inventory.Domain.{
  CommitCommand, CommitResult, UnavailableItem, InventoryError,
}
use b46_ordering_app_backend.Inventory.Tables.{
  begin_tx, Db, Env, ReceiptRow, Failure, other_failure, attempt, lock_operation, load_items,
  lock_items, deduct, insert_movement, insert_receipt, is_serialization_failure, unique_violation,
}
use b46_ordering_app_backend.Inventory.Transaction.{finish_cases}
use b46_ordering_app_backend.Inventory.Demand.{StockDemand, demand_lines, load_rows}
use b46_ordering_app_backend.Inventory.Store.Receipts.{commit_once-begun, commit_once-refused}
use b46_ordering_app_backend.Inventory.Store.{
  load_stored, deduct_all, decide, fresh_commit, record_receipt, commit_body, commit_once, close,
  replays, commit_tries, commit, can_deduct, after_deduction, fits_int4, by_item_id, first_demands,
  unserved, product_ids, replay_or_commit, after_try, new_receipt, with_receipt, receipt_collides,
}

module _ (P : Db → Type 0)
    (on_receipt : (row : ReceiptRow) (db : Db) → P db → P (with_receipt row db))
    (on_deduction : (env : Env) (k : ℕ) (actor : String) (command : CommitCommand) (d : StockDemand)
        (db : Db)
      → fits_int4 d.quantity ≡ true
      → length (keep (can_deduct d) db.items) ≡ 1
      → P db
      → P (after_deduction env k actor command d db)) where
  deduct_all-keeps :
      (env : Env) (k : ℕ) (actor : String) (command : CommitCommand) (ds : List StockDemand)
      (db : Db) {db' : Db}
      → P db
      → deduct_all env k actor command ds db ≡ ok db'
      → P db'
  unfolding deduct_all
  deduct_all-keeps env k actor command [] db p h = subst P (ok-injective h) p
  deduct_all-keeps env k actor command (d ∷ ds) db p h0 =
      bind_ok (attempt env deduct) h0 λ u1 e1 h1.
        bind_ok (fail_if (not (fits_int4 d.quantity)) other_failure) h1 λ u2 e2 h2.
          bind_ok (fail_if (not (length (keep (can_deduct d) db.items) == 1)) other_failure) h2
            λ u3 e3 h3. bind_ok (attempt env insert_movement) h3 λ u4 e4 h4.
              deduct_all-keeps env (suc k) actor command ds
                (after_deduction env k actor command d db)
                (on_deduction env k actor command d db
                  (ground (arith, passed (not (fits_int4 d.quantity)) other_failure e2))
                  (ground (
                    arith,
                    passed (not (length (keep (can_deduct d) db.items) == 1)) other_failure e3,
                  ))
                  p)
                h4

  decide-keeps :
      (env : Env) (actor : String) (command : CommitCommand) (us : List UnavailableItem)
      (ds : List StockDemand) (db : Db) {result : CommitResult} {db' : Db}
      → P db
      → decide env actor command us ds db ≡ ok (result, db')
      → P db'
  unfolding decide
  decide-keeps env actor command [] ds db p h0 =
      bind_ok (deduct_all env 1 actor command (sort_by by_item_id ds) db) h0 λ after e h1.
        subst P (ap (λ q. q.1) (ok-injective h1))
          (deduct_all-keeps env 1 actor command (sort_by by_item_id ds) db p e)
  decide-keeps env actor command (u ∷ us) ds db p h = subst P (ap (λ q. q.1) (ok-injective h)) p

  fresh_commit-keeps :
      (env : Env) (actor : String) (command : CommitCommand) (db : Db) {result : CommitResult}
      {db' : Db}
      → P db
      → fresh_commit env actor command db ≡ ok (result, db')
      → P db'
  unfolding fresh_commit
  fresh_commit-keeps env actor command db p h0 = bind_ok (attempt env load_items) h0 λ u1 e1 h1.
      bind_ok
        (demand_lines env db (load_rows (product_ids command.lines) db) command.lines
          (first_demands command))
        h1
        λ s e2 h2.
          bind_ok (attempt env lock_items) h2
            λ u3 e3 h3. decide-keeps env actor command (unserved command s db) s.demands db p h3

  record_receipt-keeps :
      (env : Env) (command : CommitCommand) (fingerprint : String) (result : CommitResult) (db : Db)
      {r : CommitResult} {db' : Db}
      → P db
      → record_receipt env command fingerprint result db ≡ ok (r, db')
      → P db'
  unfolding record_receipt
  record_receipt-keeps env command fingerprint result db p h0 =
      bind_ok (attempt env insert_receipt) h0 λ u1 e1 h1.
        bind_ok
          (fail_if (receipt_collides (new_receipt command fingerprint result) db) unique_violation)
          h1
          λ u2 e2 h2.
            subst P (ap (λ q. q.1) (ok-injective h2))
              (on_receipt (new_receipt command fingerprint result) db p)

  replay_or_commit-keeps :
      (env : Env) (actor : String) (command : CommitCommand) (fingerprint : String) (db : Db)
      (stored : Option CommitResult) {r : CommitResult} {db' : Db}
      → P db
      → replay_or_commit env actor command fingerprint db stored ≡ ok (r, db')
      → P db'
  unfolding replay_or_commit
  replay_or_commit-keeps env actor command fingerprint db (some replay) p h =
      subst P (ap (λ q. q.1) (ok-injective h)) p
  replay_or_commit-keeps env actor command fingerprint db none p h0 =
      bind_ok (fresh_commit env actor command db) h0 λ (result, after) e h1.
        record_receipt-keeps env command fingerprint result after
          (fresh_commit-keeps env actor command db p e) h1

  commit_body-keeps :
      (env : Env) (actor : String) (command : CommitCommand) (fingerprint : String) (db : Db)
      {r : CommitResult} {db' : Db}
      → P db
      → commit_body env actor command fingerprint db ≡ ok (r, db')
      → P db'
  unfolding commit_body
  commit_body-keeps env actor command fingerprint db p h0 =
      bind_ok (attempt env lock_operation) h0 λ u1 e1 h1.
        bind_ok (load_stored env command.operation_id fingerprint db) h1
          λ o e2 h2. replay_or_commit-keeps env actor command fingerprint db o p h2

  close-keeps :
      (env : Env) (before : Db) (again : Bool) (r : Result Failure (CommitResult × Db))
      → P before
      → ((a : CommitResult) (after : Db) → r ≡ ok (a, after) → P after)
      → P (close env before again r).1
  unfolding close
  close-keeps env before true (ok (a, after)) p keeps = keeps a after refl
  close-keeps env before true (err e) p keeps = p
  close-keeps env before false r p keeps = elim (finish_cases env before r) [
    | inl same ↦ subst P (sym same) p
    | inr (a, after, done, end) ↦ subst P (sym end) (keeps a after done)
  ]

  commit_once-keeps :
      (env : Env) (actor : String) (command : CommitCommand) (fingerprint : String) (db : Db)
      → P db
      → P ((commit_once env actor command fingerprint db).1)
  unfolding commit_once
  commit_once-keeps env actor command fingerprint db p = elim (Option-cases (env.fails begin_tx)) [
    | inr (f, e) ↦
        subst (λ x. P x.1) (sym (commit_once-refused env actor command fingerprint db e)) p
    | inl e ↦
        subst (λ x. P x.1) (sym (commit_once-begun env actor command fingerprint db e))
          (close-keeps env db (replays env command fingerprint db)
            (commit_body env actor command fingerprint db) p
            (λ r after done. commit_body-keeps env actor command fingerprint db p done))
  ]

  after_try-keeps :
      (r : Result Failure CommitResult) (after : Db)
      (again : Result InventoryError CommitResult × Db)
      → P after
      → P again.1
      → P ((after_try r after again).1)
  unfolding after_try
  after_try-keeps (ok a) after again p q = p
  after_try-keeps (err e) after again p q = elim (Bool-cases (is_serialization_failure e)) [
    | inl s ↦ rw s q
    | inr s ↦ rw s p
  ]

  module _ (envs : ℕ → Env) (between : ℕ → Db → Db)
      (on_others : (i : ℕ) (db : Db) → P db → P (between i db)) where
    commit_tries-keeps :
        (n i : ℕ) (actor : String) (command : CommitCommand) (fingerprint : String) (db : Db)
        → P db
        → P ((commit_tries n i envs between actor command fingerprint db).1)
    unfolding commit_tries
    commit_tries-keeps zero i actor command fingerprint db p = p
    commit_tries-keeps (suc n) i actor command fingerprint db p =
        let once = commit_once (envs i) actor command fingerprint (between i db) in
        let q =
          commit_once-keeps (envs i) actor command fingerprint (between i db) (on_others i db p) in
        after_try-keeps once.0 once.1
          (commit_tries n (suc i) envs between actor command fingerprint once.1) q
          (commit_tries-keeps n (suc i) actor command fingerprint once.1 q)

    pub commit-keeps :
        (actor : String) (command : CommitCommand) (fingerprint : String) (db : Db)
        → P db
        → P ((commit envs between actor command fingerprint db).1)
    unfolding commit
    commit-keeps actor command fingerprint db p =
        commit_tries-keeps 3 0 actor command fingerprint db p
