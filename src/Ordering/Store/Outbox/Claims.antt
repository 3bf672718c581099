-- ===== src/Ordering/Store/Outbox/Claims.antt =====
-- Claiming and releasing outbox messages keeps the tables well formed.
use b46_ordering_app_backend.Base.{
  ℕ, suc, ◌-◌, ◌≡◌, refl, sym, ◌∙◌, ap, String, Bool, inl, inr, Option, none, some, List, [], ◌∷◌,
  Bool-cases, Result, ok, err, ◌=s=◌, update_where,
}
use b46_ordering_app_backend.Base.Keys.{Distinct-update, find_key-update, changed}
use b46_ordering_app_backend.Ordering.Domain.{
  Time, Call, OrderError, claim_lost, ClaimedInventoryWork, claim, release, OrderStatus,
  inventory_committed, inventory_items_unavailable, submitted, confirmed, rejected, other_status,
  InventoryResultStatus,
}
use b46_ordering_app_backend.Ordering.Store.Tables.{
  Db, Env, OrderRow, FulfillmentRow, OperationRow, OutboxRow, is_null,
}
use b46_ordering_app_backend.Ordering.Store.WellFormed.{
  IsWellFormed, Shape, ShapeFor, Settled, order_of, operation_of_order, box_of_order,
  fulfillment_of_order,
}
use b46_ordering_app_backend.Ordering.Store.Outbox.{
  claim_rows, claim_inventory_work, claimed_row, candidates, claim_is_held, holds_claim,
  retried_row, retry_inventory_work, autocommit,
}

-- A change of messages that leaves their keys alone, and whether they are published.
pub record KeepsMessage (f : OutboxRow → OutboxRow) : Type 0 where
  pub event : (r : OutboxRow) → (f r).event_id ≡ r.event_id
  pub operation : (r : OutboxRow) → (f r).operation_id ≡ r.operation_id
  pub order : (r : OutboxRow) → (f r).order_id ≡ r.order_id
  pub sent : (r : OutboxRow) → is_null (f r).published_at ≡ is_null r.published_at

module _ (p : OutboxRow → Bool) (f : OutboxRow → OutboxRow) (k : KeepsMessage f) where
  Settled-changed :
      (op : Option OperationRow) (r : Option OutboxRow) (s : Option InventoryResultStatus)
      → Settled op r s
      → Settled op (changed p f r) s
  Settled-changed none none s h = h
  Settled-changed none (some r) s h = h
  Settled-changed (some op) none s h = h
  Settled-changed (some op) (some r) s h = elim (Bool-cases (p r)) [
    | inl e ↦ rw e (h.0, k.sent r ∙ h.1, h.2 ∙ sym (k.operation r))
    | inr e ↦ rw e h
  ]

  ShapeFor-changed :
      (status : OrderStatus) (code : Option String) (ff : Option FulfillmentRow)
      (op : Option OperationRow) (r : Option OutboxRow)
      → ShapeFor status code ff op r
      → ShapeFor status code ff op (changed p f r)
  ShapeFor-changed submitted code ff op r (a, s, c) = (a, Settled-changed op r none s, c)
  ShapeFor-changed confirmed code ff op r (a, s, c) =
      (a, Settled-changed op r (some inventory_committed) s, c)
  ShapeFor-changed rejected code ff op r (a, s, c) =
      (a, Settled-changed op r (some inventory_items_unavailable) s, c)
  ShapeFor-changed (other_status x) code ff op r h = h

  Shape-changed :
      (o : Option OrderRow) (ff : Option FulfillmentRow) (op : Option OperationRow)
      (r : Option OutboxRow)
      → Shape o ff op r
      → Shape o ff op (changed p f r)
  Shape-changed none ff op r (a, b, c) = (a, b, ap (changed p f) c)
  Shape-changed (some o) ff op r h = ShapeFor-changed o.status o.rejection_code ff op r h

  outbox-IsWellFormed :
      (db : Db) → IsWellFormed db → IsWellFormed (record db { outbox = update_where p f db.outbox })
  outbox-IsWellFormed db w = record {
    order_ids = w.order_ids;
    checkout_ids = w.checkout_ids;
    fulfillment_ids = w.fulfillment_ids;
    operation_ids = w.operation_ids;
    operation_orders = w.operation_orders;
    event_ids = Distinct-update (λ r. r.event_id) p f k.event db.outbox w.event_ids;
    box_operations =
        Distinct-update (λ r. r.operation_id) p f k.operation db.outbox w.box_operations;
    box_orders = Distinct-update (λ r. r.order_id) p f k.order db.outbox w.box_orders;
    shapes = λ id. rw (find_key-update (λ r. r.order_id) id p f k.order db.outbox) (
        Shape-changed (order_of id db) (fulfillment_of_order id db) (operation_of_order id db)
          (box_of_order id db) (w.shapes id));
  }

claimed_row-keeps : (now : Time) (token : String) → KeepsMessage (claimed_row now token)
unfolding claimed_row
claimed_row-keeps now token = record {
  event = λ r. refl;
  operation = λ r. refl;
  order = λ r. refl;
  sent = λ r. refl;
}

retried_row-keeps : (next : Time) (code : String) → KeepsMessage (retried_row next code)
unfolding retried_row
retried_row-keeps next code = record {
  event = λ r. refl;
  operation = λ r. refl;
  order = λ r. refl;
  sent = λ r. refl;
}

claim_rows-IsWellFormed :
    (env : Env) (now : Time) (k : ℕ) (cs rows : List OutboxRow) (db : Db)
    → IsWellFormed (record db { outbox = rows })
    → IsWellFormed (record db { outbox = (claim_rows env now k cs rows).0 })
unfolding claim_rows
claim_rows-IsWellFormed env now k [] rows db w = w
claim_rows-IsWellFormed env now k (c ∷ cs) rows db w =
    claim_rows-IsWellFormed env now (suc k) cs
      (update_where (λ r. r.event_id =s= c.event_id) (claimed_row now (env.token k)) rows) db
      (outbox-IsWellFormed (λ r. r.event_id =s= c.event_id) (claimed_row now (env.token k))
        (claimed_row-keeps now (env.token k)) (record db { outbox = rows }) w)

autocommit-IsWellFormed {ℓ} :
    {A : Type ℓ} (env : Env) (step : Call) (before : Db) (answer : Result OrderError A) (after : Db)
    → IsWellFormed before
    → IsWellFormed after
    → IsWellFormed (autocommit env step before answer after).1
autocommit-IsWellFormed env step before answer after w w' = elim (Bool-cases (env.fails step)) [
  | inr e ↦ rw e w'
  | inl e ↦ elim (Bool-cases env.commit_applied) [ inl a ↦ rw (e, a) w' | inr a ↦ rw (e, a) w ]
]

-- Claiming work leaves well-formed tables well formed, whatever fails.
pub claim_inventory_work-IsWellFormed :
    (env : Env) (now lease_timeout : Time) (batch_size : ℕ) (db : Db)
    → IsWellFormed db
    → IsWellFormed (claim_inventory_work env now lease_timeout batch_size db).1
unfolding claim_inventory_work
claim_inventory_work-IsWellFormed env now lease_timeout batch_size db w =
    let due = candidates env now (now - lease_timeout) batch_size db in
    let w' = claim_rows-IsWellFormed env now 0 due db.outbox db w in
    autocommit-IsWellFormed env claim db _ _ w w'

-- Scheduling a retry leaves well-formed tables well formed, whatever fails.
pub retry_inventory_work-IsWellFormed :
    (env : Env) (claimed : ClaimedInventoryWork) (next : Time) (code : String) (db : Db)
    → IsWellFormed db
    → IsWellFormed (retry_inventory_work env claimed next code db).1
unfolding retry_inventory_work
retry_inventory_work-IsWellFormed env claimed next code db w =
    elim (Bool-cases (claim_is_held claimed db)) [
      | inr n ↦ rw n (autocommit-IsWellFormed env release db (err claim_lost) db w w)
      | inl h ↦ rw h (
          autocommit-IsWellFormed env release db (ok tt)
            (record db {
              outbox = update_where (holds_claim claimed) (retried_row next code) db.outbox;
            })
            w
            (outbox-IsWellFormed (holds_claim claimed) (retried_row next code)
              (retried_row-keeps next code) db w))
    ]
