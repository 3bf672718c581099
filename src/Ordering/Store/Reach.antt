-- ===== src/Ordering/Store/Reach.antt =====
-- The tables that calls of the store reach, one after another, from any process.
use b46_ordering_app_backend.Base.{ℕ, ◌≡◌, sym, subst, String}
use b46_ordering_app_backend.Ordering.Domain.{
  Time, OrderDraft, FulfillmentStatus, ClaimedInventoryWork, InventoryResult,
}
use b46_ordering_app_backend.Ordering.Store.Tables.{Db, Env}
use b46_ordering_app_backend.Ordering.Store.WellFormed.{IsWellFormed}
use b46_ordering_app_backend.Ordering.Store.Place.{place_order}
use b46_ordering_app_backend.Ordering.Store.Place.Invariant.{place_order-IsWellFormed}
use b46_ordering_app_backend.Ordering.Store.Fulfil.{mark_cashier_read, advance_fulfillment}
use b46_ordering_app_backend.Ordering.Store.Fulfil.Invariant.{
  mark_cashier_read-IsWellFormed, advance_fulfillment-IsWellFormed,
}
use b46_ordering_app_backend.Ordering.Store.Outbox.{
  claim_inventory_work, apply_inventory_result, retry_inventory_work,
}
use b46_ordering_app_backend.Ordering.Store.Outbox.Target.{IsGenuine}
use b46_ordering_app_backend.Ordering.Store.Outbox.Invariant.{apply_inventory_result-IsWellFormed}
use b46_ordering_app_backend.Ordering.Store.Outbox.Claims.{
  claim_inventory_work-IsWellFormed, retry_inventory_work-IsWellFormed,
}

-- `Reaches start after`: calls lead from `start` to `after`, each with its own environment. While an
-- order is placed, other calls may run between the look-up of its checkout and its insertion.
pub data Reaches : Db → Db → Type 0 where
  stays : {start after : Db} → after ≡ start → Reaches start after
  places :
      {start db mid after : Db} (env again : Env) (draft : OrderDraft)
      → Reaches start db
      → Reaches db mid
      → after ≡ (place_order env again (λ d. mid) draft db).1
      → Reaches start after
  claims :
      {start db after : Db} (env : Env) (now lease_timeout : Time) (batch_size : ℕ)
      → Reaches start db
      → after ≡ (claim_inventory_work env now lease_timeout batch_size db).1
      → Reaches start after
  applies :
      {start db after : Db} (env : Env) (claimed : ClaimedInventoryWork) (result : InventoryResult)
      (now : Time)
      → Reaches start db
      → IsGenuine claimed db
      → after ≡ (apply_inventory_result env claimed result now db).1
      → Reaches start after
  retries :
      {start db after : Db} (env : Env) (claimed : ClaimedInventoryWork) (next : Time)
      (code : String)
      → Reaches start db
      → after ≡ (retry_inventory_work env claimed next code db).1
      → Reaches start after
  marks :
      {start db after : Db} (env : Env) (cashier_id order_id : String) (now : Time)
      → Reaches start db
      → after ≡ (mark_cashier_read env cashier_id order_id now db).1
      → Reaches start after
  advances :
      {start db after : Db} (env : Env) (cashier_id order_id : String) (target : FulfillmentStatus)
      (now : Time)
      → Reaches start db
      → after ≡ (advance_fulfillment env cashier_id order_id target now db).1
      → Reaches start after

-- However the calls of the store are interleaved and whatever fails in them, they lead from
-- well-formed tables to well-formed ones: keys stay unique, and each order has the operation, message
-- and fulfilment that its status calls for. Results are applied to work that was claimed from the
-- tables.
pub Reaches-IsWellFormed :
    {start after : Db} → Reaches start after → IsWellFormed start → IsWellFormed after
Reaches-IsWellFormed (stays same) w = subst IsWellFormed (sym same) w
Reaches-IsWellFormed (places {db = db} {mid = mid} env again draft before during same) w =
    let w' = Reaches-IsWellFormed before w in
    subst IsWellFormed (sym same)
      (place_order-IsWellFormed env again (λ d. mid) draft db w' (Reaches-IsWellFormed during w'))
Reaches-IsWellFormed (claims {db = db} env now lease_timeout batch_size before same) w =
    subst IsWellFormed (sym same) (
      claim_inventory_work-IsWellFormed env now lease_timeout batch_size db
        (Reaches-IsWellFormed before w))
Reaches-IsWellFormed (applies {db = db} env claimed result now before genuine same) w =
    subst IsWellFormed (sym same) (
      apply_inventory_result-IsWellFormed env claimed result now db (Reaches-IsWellFormed before w)
        genuine)
Reaches-IsWellFormed (retries {db = db} env claimed next code before same) w =
    subst IsWellFormed (sym same)
      (retry_inventory_work-IsWellFormed env claimed next code db (Reaches-IsWellFormed before w))
Reaches-IsWellFormed (marks {db = db} env cashier_id order_id now before same) w =
    subst IsWellFormed (sym same) (
      mark_cashier_read-IsWellFormed env cashier_id order_id now db (Reaches-IsWellFormed before w))
Reaches-IsWellFormed (advances {db = db} env cashier_id order_id target now before same) w =
    subst IsWellFormed (sym same) (
      advance_fulfillment-IsWellFormed env cashier_id order_id target now db
        (Reaches-IsWellFormed before w))
