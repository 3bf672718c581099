-- ===== src/Ordering/Worker.antt =====
-- services/ordering/internal/ordering/application/worker.go: the worker that sends outbox messages
-- to the inventory service.
pub mod Retry
use b46_ordering_app_backend.Base.{
  ℕ, zero, suc, ◌+◌, ◌-◌, String, Bool, true, false, not, ◌&&◌, ◌||◌, Option, none, some, List, [],
  ◌∷◌, ◌++◌, Result, ok, err, if◌then◌else◌, ◌=s=◌, ℤ, pos, int_lt, mul64, div64, pos_part, length,
  concat,
}
use b46_ordering_app_backend.Ordering.Domain.{
  Time, InventoryCommit, InventoryResult, inventory_committed, ClaimedInventoryWork, OrderError,
  wrapped, claim_work, schedule_retry, apply_result, Notification, order_accepted,
}
use b46_ordering_app_backend.Ordering.Store.Tables.{Db, Env}
use b46_ordering_app_backend.Ordering.Store.Outbox.{
  claim_inventory_work, apply_inventory_result, retry_inventory_work,
}

-- Durations are int64 numbers of nanoseconds; the lease is subtracted from a time.
pub record WorkerConfig : Type 0 where
  pub batch_size : ℕ
  pub lease_timeout : Time
  pub retry_base : ℤ
  pub retry_max : ℤ

abbrev capped : ℤ → ℤ → ℤ
capped delay retry_max = if int_lt retry_max delay then retry_max else delay

-- The loop of retryDelay with `k` rounds left.
retry_loop : ℕ → ℤ → ℤ → ℤ
retry_loop zero delay retry_max = capped delay retry_max
retry_loop (suc k) delay retry_max =
    let rest = retry_loop k (mul64 delay (pos 2)) retry_max in
    if not (int_lt delay retry_max)
    then capped delay retry_max
    else if int_lt (div64 retry_max (pos 2)) delay
    then retry_max
    else rest

-- An attempt count below 1 counts as 1, so `attempt - 1` rounds are left.
unfoldable pub retry_delay : WorkerConfig → ℕ → ℤ
unfolding retry_loop
retry_delay config attempt = retry_loop (attempt - 1) config.retry_base config.retry_max

-- An error of the inventory committer, which may carry a code.
pub data InventoryError : Type 0 where
  coded : String → InventoryError
  uncoded : InventoryError

is_known_code : String → Bool
is_known_code c =
    c =s= "INVENTORY_UNREACHABLE"
    || c =s= "INVENTORY_TIMEOUT"
    || c =s= "INVENTORY_THROTTLED"
    || c =s= "INVENTORY_UNAUTHORIZED"
    || c =s= "INVENTORY_SERVER_ERROR"
    || c =s= "INVENTORY_CONTRACT_REJECTED"
    || c =s= "INVENTORY_OPERATION_CONFLICT"
    || c =s= "INVENTORY_INVALID_RESPONSE"

unfoldable pub safe_inventory_error_code : InventoryError → String
unfolding is_known_code
safe_inventory_error_code uncoded = "INVENTORY_TECHNICAL"
safe_inventory_error_code (coded c) = if is_known_code c then c else "INVENTORY_TECHNICAL"

-- What the outside does in one call of ProcessOnce: the clock, the database's decisions in the claim
-- and in each message's transaction, and the inventory's answers.
pub record Round : Type 0 where
  pub now : Time
  pub claim_env : Env
  pub item_env : ℕ → Env
  pub commit : InventoryCommit → Result InventoryError InventoryResult

abbrev accepted : InventoryResult → Time → List Notification
accepted result now = elim result.status [
  | inventory_committed ↦
      record {
        event_id = concat result.event_id ":ORDER_ACCEPTED";
        kind = order_accepted;
        order_id = result.order_id;
        recipient_user_id = "";
        audience = "CASHIER";
        occurred_at = now;
      }
      ∷ []
  | _ ↦ []
]

-- One round of the loop: a retry is scheduled, or the answer is applied.
unfoldable pub handle_work :
    WorkerConfig
    → Round
    → Env
    → ClaimedInventoryWork
    → Db
    → Result OrderError (List Notification) × Db
handle_work config round env claimed db = elim (round.commit claimed.commit) [
  | err e ↦
      (let (r, db') =
          retry_inventory_work env claimed
            (round.now + pos_part (retry_delay config claimed.attempt_count))
            (safe_inventory_error_code e) db in
        (elim r [ ok u ↦ ok [] | err x ↦ err (wrapped schedule_retry x) ], db'))
  | ok result ↦
      (let (r, db') = apply_inventory_result env claimed result round.now db in
        (
          elim r [ ok u ↦ ok (accepted result round.now) | err x ↦ err (wrapped apply_result x) ],
          db',
        ))
]

abbrev also_sent :
    List Notification
    → Result OrderError ℕ × Db × List Notification
    → Result OrderError ℕ × Db × List Notification
also_sent sent (r, db, more) = (r, db, sent ++ more)

-- The loop over the claimed work: it stops at the first error of the store. `k` counts its rounds.
unfoldable pub handle_all :
    WorkerConfig
    → Round
    → ℕ
    → ℕ
    → List ClaimedInventoryWork
    → Db
    → Result OrderError ℕ × Db × List Notification
handle_all config round total k [] db = (ok total, db, [])
handle_all config round total k (claimed ∷ work) db =
    let (r, db') = handle_work config round (round.item_env k) claimed db in
    elim r [
      | err e ↦ (err e, db', [])
      | ok sent ↦ also_sent sent (handle_all config round total (suc k) work db')
    ]

unfoldable pub process_once :
    WorkerConfig → Round → Db → Result OrderError ℕ × Db × List Notification
unfolding handle_all
process_once config round db =
    let (r, db') =
      claim_inventory_work round.claim_env round.now config.lease_timeout config.batch_size db in
    elim r [
      | err e ↦ (err (wrapped claim_work e), db', [])
      | ok work ↦ handle_all config round (length work) 0 work db'
    ]

-- The loop of Run over the rounds until the context is done: it ends with the first error.
unfoldable pub run : WorkerConfig → List Round → Db → Result OrderError (Unit {0}) × Db
unfolding process_once
run config [] db = (ok tt, db)
run config (round ∷ rounds) db =
    let (r, db', sent) = process_once config round db in
    elim r [ err e ↦ (err e, db') | ok n ↦ run config rounds db' ]
