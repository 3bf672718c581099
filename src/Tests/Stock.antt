-- ===== src/Tests/Stock.antt =====
-- A commit of a plain and a composite product, and the theorems about the inventory applied to it.
use b46_ordering_app_backend.Base.{
  ◌≡◌, ◌↔◌, refl, ap, ◌∙◌, String, true, false, none, some, [], ◌∷◌, ok, err, pos, All, find_first,
  keep, update_where, text_lt, add64, wrap64,
}
use b46_ordering_app_backend.Base.Sort.{sort_by}
use b46_ordering_app_backend.Base.Keys.{apart}
use b46_ordering_app_backend.Inventory.Domain.{
  CommitCommand, CommitResult, Digest, committed, operation_conflict, validate_command, fingerprint,
}
use b46_ordering_app_backend.Inventory.Domain.Validity.{IsCommand, validate_command_iff}
use b46_ordering_app_backend.Inventory.Tables.{Db, Env, ReceiptRow}
use b46_ordering_app_backend.Inventory.Store.{
  commit, commit_once, receipt_of, new_receipt, with_receipt,
}
use b46_ordering_app_backend.Inventory.Store.Receipts.{Works, commit-first, commit-conflict}
use b46_ordering_app_backend.Inventory.Store.Stock.{
  IsStocked, Balanced, commit-IsStocked, commit-Balanced,
}
use b46_ordering_app_backend.Inventory.Service.{service_commit, commit_printed, checked_result}
use b46_ordering_app_backend.Inventory.Service.Replay.{
  commit_with, commit_printed-replay, service_commit-again,
}

abbrev tea : String
tea = "00000000-0000-0000-0000-0000000000a1"

abbrev set_menu : String
set_menu = "00000000-0000-0000-0000-0000000000a2"

abbrev bun : String
bun = "00000000-0000-0000-0000-0000000000a3"

-- The menu holds one bun and a half.
abbrev till_db : Db
till_db = record {
  items =
      record { id = tea; stock = pos 10; active = true; tracks_stock = true; composite = false }
      ∷ record {
        id = set_menu;
        stock = pos 0;
        active = true;
        tracks_stock = true;
        composite = true;
      }
      ∷ record { id = bun; stock = pos 8; active = true; tracks_stock = true; composite = false }
      ∷ [];
  components =
      record { parent_item_id = set_menu; component_item_id = bun; digits = pos 15; scale = 1 }
      ∷ [];
  movements = [];
  receipts = [];
}

abbrev command : CommitCommand
command = record {
  schema_version = "1.0";
  event_id = "00000000-0000-0000-0000-0000000000e1";
  operation_id = "00000000-0000-0000-0000-0000000000f1";
  order_id = "00000000-0000-0000-0000-0000000000d1";
  occurred_at = 100;
  lines =
      record {
        order_line_id = "00000000-0000-0000-0000-0000000000c1";
        product_id = tea;
        quantity = pos 4;
      }
      ∷ record {
        order_line_id = "00000000-0000-0000-0000-0000000000c2";
        product_id = set_menu;
        quantity = pos 3;
      }
      ∷ [];
}

abbrev quiet : Env
quiet = record {
  fails = λ c. none;
  commit_applied = true;
  now = 120;
  new_id = λ k. "00000000-0000-0000-0000-0000000000b1";
}

abbrev digest : Digest
digest = record { sha256_hex = λ s. "print"; time_text = λ t. "time"; decimal = λ n. "number" }

quiet-Works : Works quiet
quiet-Works = record { begins = refl; locks = refl; loads = refl; decodes = refl }

abbrev result : CommitResult
result = record {
  schema_version = "1.0";
  event_id = "00000000-0000-0000-0000-0000000000b1";
  operation_id = command.operation_id;
  order_id = command.order_id;
  status = committed;
  occurred_at = 120;
  unavailable_items = [];
}

abbrev till_db_after : Db
till_db_after = (commit_once quiet "actor" command "print" till_db).1

fingerprint_run : fingerprint digest command ≡ ok "print"
unfolding fingerprint
fingerprint_run = refl

once_run : (commit_once quiet "actor" command "print" till_db).0 ≡ ok result
unfolding commit_once find_first keep add64 wrap64 sort_by text_lt update_where
once_run = refl

commit_run :
    commit_with digest (λ i. quiet) (λ i db. db) "actor" command till_db
    ≡ (ok result, till_db_after)
unfolding service_commit checked_result
commit_run =
    ap (commit_printed (λ c p db. commit (λ i. quiet) (λ i d. d) "actor" c p db) command till_db)
      fingerprint_run
    ∙ commit_printed-replay (λ c p db. commit (λ i. quiet) (λ i d. d) "actor" c p db) command
        till_db "print"
        (commit-first (λ i. quiet) (λ i d. d) "actor" command "print" till_db
          (ap (λ r. (r, till_db_after)) once_run))
        refl

service_commit-again_example :
    commit_with digest (λ i. quiet) (λ i db. db) "actor" command till_db_after
    ≡ (ok result, till_db_after)
service_commit-again_example =
    service_commit-again digest (λ i. quiet) (λ i. quiet) (λ i db. db) (λ i db. db) "actor" "actor"
      command till_db till_db_after result commit_run quiet-Works refl

commit-IsStocked_example :
    All IsStocked (commit (λ i. quiet) (λ i db. db) "actor" command "print" till_db).1.items
commit-IsStocked_example =
    commit-IsStocked (λ i. quiet) (λ i db. db) "actor" command "print" till_db (λ i a h. h)
      (refl, (refl, (refl, tt)))

till_db-Balanced : Balanced bun (pos 8) till_db
unfolding find_first
till_db-Balanced = (((apart refl, (apart refl, tt)), ((apart refl, tt), (tt, tt))), refl)

commit-Balanced_example :
    Balanced bun (pos 8) (commit (λ i. quiet) (λ i db. db) "actor" command "print" till_db).1
commit-Balanced_example =
    commit-Balanced (λ i. quiet) (λ i db. db) "actor" command "print" till_db bun (pos 8)
      (λ i a h. h) till_db-Balanced

abbrev other_print : ReceiptRow
other_print = new_receipt command "other print" result

other_print_found :
    receipt_of command.operation_id (with_receipt other_print till_db) ≡ some other_print
unfolding receipt_of find_first
other_print_found = refl

commit-conflict_example :
    commit (λ i. quiet) (λ i db. db) "actor" command "print" (with_receipt other_print till_db)
    ≡ (err operation_conflict, with_receipt other_print till_db)
commit-conflict_example =
    commit-conflict (λ i. quiet) (λ i db. db) "actor" command "print"
      (with_receipt other_print till_db) other_print quiet-Works other_print_found (apart refl)

validate_command_iff_example : (validate_command command ≡ ok tt) ↔ IsCommand command
validate_command_iff_example = validate_command_iff command
