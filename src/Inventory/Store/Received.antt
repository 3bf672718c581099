-- ===== src/Inventory/Store/Received.antt =====
-- A transaction of Store.Commit that succeeds leaves a receipt of its result.
use b46_ordering_app_backend.Base.{
  ℕ, suc, ◌≡◌, ◌⊎◌, inl, inr, refl, sym, ◌∙◌, ap, subst, String, not, Option, none, some, List, [],
  ◌∷◌, Result, ok, err, bind_ok, passed, ok-injective, fail_if, arith, eq_iff, eq_refl, ◌=s=◌,
  Option-cases, ◌==◌, length, keep,
}
use b46_ordering_app_backend.Base.Keys.{Absent-find_key, find_key, find_key-snoc}
use b46_ordering_app_backend.Base.Sort.{sort_by}
use b46_ordering_app_backend.Inventory.Domain.{
  CommitCommand, CommitResult, UnavailableItem, InventoryError, validate_result,
}
use b46_ordering_app_backend.Inventory.Tables.{
  Db, Env, ReceiptRow, conflict, other_failure, attempt, lock_operation, load_receipt,
  decode_receipt, load_items, lock_items, deduct, insert_movement, insert_receipt, unique_violation,
}
use b46_ordering_app_backend.Inventory.Demand.{StockDemand, demand_lines, load_rows}
use b46_ordering_app_backend.Inventory.Store.{
  receipt_of, load_stored, decode_receipt_result, wire_result, deduct_all, decide, fresh_commit,
  record_receipt, commit_body, can_deduct, after_deduction, fits_int4, stored_result, or_broken,
  by_item_id, first_demands, unserved, product_ids, replay_or_commit, new_receipt, with_receipt,
  receipt_collides,
}

-- The receipt of an operation, which holds a result.
pub record Received (operation fingerprint : String) (result : CommitResult) (db : Db)
    : Type 0 where
  pub row : ReceiptRow
  pub found : receipt_of operation db ≡ some row
  pub printed : row.request_fingerprint ≡ fingerprint
  pub holds : wire_result row.result_payload ≡ result

deduct_all-receipts :
    (env : Env) (k : ℕ) (actor : String) (command : CommitCommand) (ds : List StockDemand) (db : Db)
    {db' : Db}
    → deduct_all env k actor command ds db ≡ ok db'
    → db'.receipts ≡ db.receipts
unfolding deduct_all
deduct_all-receipts env k actor command [] db h = ap (λ d. d.receipts) (sym (ok-injective h))
deduct_all-receipts env k actor command (d ∷ ds) db h0 = bind_ok (attempt env deduct) h0 λ u1 e1 h1.
    bind_ok (fail_if (not (fits_int4 d.quantity)) other_failure) h1 λ u2 e2 h2.
      bind_ok (fail_if (not (length (keep (can_deduct d) db.items) == 1)) other_failure) h2
        λ u3 e3 h3. bind_ok (attempt env insert_movement) h3 λ u4 e4 h4.
          deduct_all-receipts env (suc k) actor command ds
            (after_deduction env k actor command d db) h4

decide-receipts :
    (env : Env) (actor : String) (command : CommitCommand) (us : List UnavailableItem)
    (ds : List StockDemand) (db : Db) {result : CommitResult} {db' : Db}
    → decide env actor command us ds db ≡ ok (result, db')
    → db'.receipts ≡ db.receipts
unfolding decide
decide-receipts env actor command [] ds db h0 =
    bind_ok (deduct_all env 1 actor command (sort_by by_item_id ds) db) h0 λ after e h1.
      ap (λ d. d.receipts) (sym (ap (λ p. p.1) (ok-injective h1)))
      ∙ deduct_all-receipts env 1 actor command (sort_by by_item_id ds) db e
decide-receipts env actor command (u ∷ us) ds db h =
    ap (λ d. d.receipts) (sym (ap (λ p. p.1) (ok-injective h)))

fresh_commit-receipts :
    (env : Env) (actor : String) (command : CommitCommand) (db : Db) {result : CommitResult}
    {db' : Db}
    → fresh_commit env actor command db ≡ ok (result, db')
    → db'.receipts ≡ db.receipts
unfolding fresh_commit
fresh_commit-receipts env actor command db h0 = bind_ok (attempt env load_items) h0 λ u1 e1 h1.
    bind_ok
      (demand_lines env db (load_rows (product_ids command.lines) db) command.lines
        (first_demands command))
      h1
      λ s e2 h2.
        bind_ok (attempt env lock_items) h2
          λ u3 e3 h3. decide-receipts env actor command (unserved command s db) s.demands db h3

or_broken-ok : (r : Result InventoryError (Unit {0})) → or_broken r ≡ ok tt → r ≡ ok tt
or_broken-ok (ok u) h = refl
or_broken-ok (err e) h = cc h

stored_result-ok :
    (env : Env) (fingerprint : String) (row : ReceiptRow) {o : Option CommitResult}
    → stored_result env fingerprint (some row) ≡ ok o
    → (row.request_fingerprint ≡ fingerprint) × (o ≡ some (wire_result row.result_payload))
unfolding stored_result decode_receipt_result
stored_result-ok env fingerprint row h0 =
    bind_ok (fail_if (not (row.request_fingerprint =s= fingerprint)) conflict) h0 λ u1 e1 h1.
      bind_ok (attempt env decode_receipt) h1 λ u2 e2 h2.
        bind_ok (decode_receipt_result row.result_payload) h2 λ r e3 h3.
          bind_ok (or_broken (validate_result (wire_result row.result_payload))) e3 λ u4 e4 h4. (
            ground (
              arith,
              passed (not (row.request_fingerprint =s= fingerprint)) conflict e1,
              eq_iff row.request_fingerprint fingerprint,
            ),
            sym (ok-injective h3) ∙ ap some (sym (ok-injective h4)),
          )

load_stored-cases :
    (env : Env) (operation fingerprint : String) (db : Db) {o : Option CommitResult}
    → load_stored env operation fingerprint db ≡ ok o
    → ((o ≡ none) × (receipt_of operation db ≡ none))
      ⊎ ((r : CommitResult) × (o ≡ some r) × Received operation fingerprint r db)
unfolding load_stored
load_stored-cases env operation fingerprint db {o} h0 =
    bind_ok (attempt env load_receipt) h0 λ u1 e1 h1.
      elim (Option-cases (receipt_of operation db)) [
        | inl e ↦
            let h2 = subst (λ x. stored_result env fingerprint x ≡ ok o) e h1 in
            inl (sym (ok-injective (unfold stored_result in h2)), e)
        | inr (row, e) ↦
            let (printed, same) =
              stored_result-ok env fingerprint row
                (subst (λ x. stored_result env fingerprint x ≡ ok o) e h1) in
            inr (
              wire_result row.result_payload,
              same,
              record { row = row; found = e; printed = printed; holds = refl },
            )
      ]

record_receipt-Received :
    (env : Env) (command : CommitCommand) (fingerprint : String) (result : CommitResult) (db : Db)
    {r : CommitResult} {db' : Db}
    → receipt_of command.operation_id db ≡ none
    → record_receipt env command fingerprint result db ≡ ok (r, db')
    → Received command.operation_id fingerprint r db'
      × (db' ≡ with_receipt (new_receipt command fingerprint result) db)
unfolding record_receipt receipt_of
record_receipt-Received env command fingerprint result db absent h0 =
    bind_ok (attempt env insert_receipt) h0 λ u1 e1 h1.
      bind_ok
        (fail_if (receipt_collides (new_receipt command fingerprint result) db) unique_violation) h1
        λ u2 e2 h2.
          let row = new_receipt command fingerprint result in
          let same = sym (ap (λ p. p.1) (ok-injective h2)) in
          (
            record {
              row = row;
              found =
                  ap (λ d. find_key (λ r. r.operation_id) command.operation_id d.receipts) same
                  ∙ find_key-snoc (λ r. r.operation_id) command.operation_id db.receipts row
                      (Absent-find_key (λ r. r.operation_id) command.operation_id db.receipts
                        absent)
                  ∙ rw (eq_refl command.operation_id) refl;
              printed = refl;
              holds = ap (λ p. p.0) (ok-injective h2);
            },
            same,
          )

-- A body that succeeds replayed the receipt, or added one; either way the receipt holds its result.
pub commit_body-Received :
    (env : Env) (actor : String) (command : CommitCommand) (fingerprint : String) (db : Db)
    {r : CommitResult} {db' : Db}
    → commit_body env actor command fingerprint db ≡ ok (r, db')
    → Received command.operation_id fingerprint r db'
unfolding commit_body replay_or_commit
commit_body-Received env actor command fingerprint db {r} {db'} h0 =
    bind_ok (attempt env lock_operation) h0 λ u1 e1 h1.
      bind_ok (load_stored env command.operation_id fingerprint db) h1 λ o e2 h2.
        elim (load_stored-cases env command.operation_id fingerprint db e2) [
          | inl (e, absent) ↦
              bind_ok (fresh_commit env actor command db)
                (subst (λ x. replay_or_commit env actor command fingerprint db x ≡ ok (r, db')) e
                  h2)
                λ (result, after) e3 h3.
                  let kept = fresh_commit-receipts env actor command db e3 in
                  (record_receipt-Received env command fingerprint result after
                    (unfold receipt_of in
                      ap (find_key (λ r. r.operation_id) command.operation_id) kept ∙ absent)
                    h3).0
          | inr (r', e, received) ↦
              let h3 = ok-injective (
                subst (λ x. replay_or_commit env actor command fingerprint db x ≡ ok (r, db')) e
                  h2) in
              subst (λ x. Received command.operation_id fingerprint x db') (ap (λ p. p.0) h3)
                (subst (λ d. Received command.operation_id fingerprint r' d) (ap (λ p. p.1) h3)
                  received)
        ]
