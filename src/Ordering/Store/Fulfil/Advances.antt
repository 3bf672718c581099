-- ===== src/Ordering/Store/Fulfil/Advances.antt =====
-- Store.AdvanceFulfillment moves one fulfilment one state on.
use b46_ordering_app_backend.Base.{
  ◌≢◌, ok, Result-cases, ◌+◌, ◌≡◌, ◌⊎◌, inl, inr, refl, sym, ◌∙◌, ap, subst, String, Bool, true,
  some, [], ◌∷◌, ◌++◌, arith, eq_iff, ◌=s=◌, Bool-cases, Option-cases, find_first,
}
use b46_ordering_app_backend.Base.Keys.{
  find_key, find_key-update, changed, changed_none, find_key_sound,
}
use b46_ordering_app_backend.Ordering.Domain.{
  Order, status_eq, Time, FulfillmentStatus, preparing, delivering, delivered, other, OrderStatus,
  confirmed,
}
use b46_ordering_app_backend.Ordering.Domain.Lifecycle.{rank}
use b46_ordering_app_backend.Ordering.Store.Tables.{
  Db, Env, OrderRow, FulfillmentRow, fulfillment_advanced,
}
use b46_ordering_app_backend.Ordering.Store.Load.{fulfillment_row, order_row, is_confirmed}
use b46_ordering_app_backend.Ordering.Store.Fulfil.{
  advance_fulfillment, advance_body, advanced, order_is_confirmed, set_fulfillment, update_applies,
}
use b46_ordering_app_backend.Ordering.Store.Fulfil.Forward.{
  Steps, advance_fulfillment-Steps, advance_body-Steps,
}
use b46_ordering_app_backend.Ordering.Store.Transaction.{transaction-ok}

-- What one step makes of a fulfilment: the target as its status, one version more, the time of the
-- state reached and the cashier who did it; the rest stays.
pub record Moved (cashier_id : String) (target : FulfillmentStatus) (now : Time)
    (row moved : FulfillmentRow) : Type 0 where
  pub forward : rank target ≡ rank row.status + 1
  pub order : moved.order_id ≡ row.order_id
  pub status : moved.status ≡ target
  pub version : moved.version ≡ row.version + 1
  pub prepared : moved.preparing_at ≡ row.preparing_at
  pub times :
      ((target ≡ delivering)
        × (moved.delivering_at ≡ some now)
        × (moved.delivered_at ≡ row.delivered_at))
      ⊎ ((target ≡ delivered)
          × (moved.delivering_at ≡ row.delivering_at)
          × (moved.delivered_at ≡ some now))
  pub read_at : moved.cashier_read_at ≡ row.cashier_read_at
  pub read_by : moved.cashier_read_by ≡ row.cashier_read_by
  pub updated : moved.updated_by ≡ some cashier_id

-- One step in the tables: the order is confirmed, its fulfilment has moved, those of the other orders
-- are as before, one audit record is added, and the other tables stay.
pub record Advances (cashier_id order_id : String) (target : FulfillmentStatus) (now : Time)
    (db after : Db) : Type 0 where
  pub order : OrderRow
  pub ordered : find_first (λ o. o.id =s= order_id) db.orders ≡ some order
  pub is_it_confirmed : order.status ≡ confirmed
  pub row : FulfillmentRow
  pub found : find_first (λ f. f.order_id =s= order_id) db.fulfillments ≡ some row
  pub moved : FulfillmentRow
  pub reached : find_first (λ f. f.order_id =s= order_id) after.fulfillments ≡ some moved
  pub moves : Moved cashier_id target now row moved
  pub elsewhere :
      (id : String)
      → (order_id ≡ id)
        ⊎ (find_first (λ f. f.order_id =s= id) after.fulfillments
            ≡ find_first (λ f. f.order_id =s= id) db.fulfillments)
  pub audit :
      after.audit
      ≡ db.audit
        ++ record {
          actor_user_id = some cashier_id;
          action = fulfillment_advanced row.status target;
          target_id = order_id;
          occurred_at = now;
        }
          ∷ []
  pub users : after.users ≡ db.users
  pub orders : after.orders ≡ db.orders
  pub lines : after.lines ≡ db.lines
  pub operations : after.operations ≡ db.operations
  pub outbox : after.outbox ≡ db.outbox

confirmed_order :
    (id : String) (db : Db)
    → order_is_confirmed id db ≡ true
    → (o : OrderRow) × (find_first (λ x. x.id =s= id) db.orders ≡ some o) × (o.status ≡ confirmed)
unfolding order_is_confirmed order_row
confirmed_order id db h =
    elim (Option-cases (find_first (λ (x : OrderRow). x.id =s= id) db.orders)) [
      | inl n ↦ absurd (ground (arith, n, h))
      | inr (o, e) ↦ (o, e, is_it o.status (rw (e, order_is_confirmed) at h))
    ]
  where
    is_it : (s : OrderStatus) → is_confirmed s ≡ true → s ≡ confirmed
    is_it confirmed h = refl
    is_it s h = cc

advanced-Moved :
    (cashier_id : String) (target : FulfillmentStatus) (now : Time) (row : FulfillmentRow)
    → update_applies target row.status ≡ true
    → rank target ≡ rank row.status + 1
    → Moved cashier_id target now row (advanced target cashier_id now row)
unfolding advanced update_applies
advanced-Moved cashier_id delivering now row a h = record {
  forward = h;
  order = refl;
  status = refl;
  version = refl;
  prepared = refl;
  times = inl (refl, refl, refl);
  read_at = refl;
  read_by = refl;
  updated = refl;
}
advanced-Moved cashier_id delivered now row a h = record {
  forward = h;
  order = refl;
  status = refl;
  version = refl;
  prepared = refl;
  times = inr (refl, refl, refl);
  read_at = refl;
  read_by = refl;
  updated = refl;
}
advanced-Moved cashier_id preparing now row a h = absurd (cc)
advanced-Moved cashier_id (other s) now row a h = absurd (cc)

advanced_key :
    (target : FulfillmentStatus) (cashier_id : String) (now : Time) (f : FulfillmentRow)
    → (advanced target cashier_id now f).order_id ≡ f.order_id
unfolding advanced
advanced_key preparing cashier_id now f = refl
advanced_key delivering cashier_id now f = refl
advanced_key delivered cashier_id now f = refl
advanced_key (other s) cashier_id now f = refl

module _ (order_id : String) (target : FulfillmentStatus) (cashier_id : String) (now : Time)
    (db : Db) where
  abbrev change : FulfillmentRow → FulfillmentRow
  change = advanced target cashier_id now

  abbrev is_it : FulfillmentRow → Bool
  is_it f = f.order_id =s= order_id

  looked_up :
      (id : String)
      → find_key FulfillmentRow.order_id id (set_fulfillment order_id change db).fulfillments
        ≡ changed is_it change (find_key FulfillmentRow.order_id id db.fulfillments)
  looked_up id =
      find_key-update FulfillmentRow.order_id id is_it change (advanced_key target cashier_id now)
        db.fulfillments

  row_moved :
      (row : FulfillmentRow)
      → find_key FulfillmentRow.order_id order_id db.fulfillments ≡ some row
      → find_key FulfillmentRow.order_id order_id (set_fulfillment order_id change db).fulfillments
        ≡ some (change row)
  row_moved row found =
      let named = find_key_sound FulfillmentRow.order_id order_id db.fulfillments found in
      looked_up order_id
      ∙ ap (changed is_it change) found
      ∙ rw ((eq_iff row.order_id order_id).1 named) refl

  row_elsewhere :
      (id : String)
      → (order_id ≡ id)
        ⊎ (find_key FulfillmentRow.order_id id (set_fulfillment order_id change db).fulfillments
            ≡ find_key FulfillmentRow.order_id id db.fulfillments)
  row_elsewhere id = elim (Bool-cases (order_id =s= id)) [
    | inl e ↦ inl ((eq_iff order_id id).0 e)
    | inr e ↦ inr (
        looked_up id
        ∙ changed_none is_it change (find_key FulfillmentRow.order_id id db.fulfillments)
            (λ f found.
              let named = find_key_sound FulfillmentRow.order_id id db.fulfillments found in
              ground (arith, e, named, eq_iff order_id id, eq_iff f.order_id order_id)))
  ]

Steps-Advances :
    (cashier_id order_id : String) (target : FulfillmentStatus) (now : Time) (db after : Db)
    → Steps cashier_id order_id target now db after
    → Advances cashier_id order_id target now db after
unfolding fulfillment_row
Steps-Advances cashier_id order_id target now db after s =
    let (order, placed, is_confirmed_one) = confirmed_order order_id db s.confirmed in
    subst (Advances cashier_id order_id target now db) (sym s.changed_to) (record {
      order = order;
      ordered = placed;
      is_it_confirmed = is_confirmed_one;
      row = s.row;
      found = s.found;
      moved = advanced target cashier_id now s.row;
      reached = row_moved order_id target cashier_id now db s.row s.found;
      moves = advanced-Moved cashier_id target now s.row s.applies s.forward;
      elsewhere = row_elsewhere order_id target cashier_id now db;
      audit = refl;
      users = refl;
      orders = refl;
      lines = refl;
      operations = refl;
      outbox = refl;
    })

status_eq_sound : (a b : FulfillmentStatus) → status_eq a b ≡ true → a ≡ b
unfolding status_eq
status_eq_sound preparing preparing h = refl
status_eq_sound delivering delivering h = refl
status_eq_sound delivered delivered h = refl
status_eq_sound (other s) (other t) h = ap other ((eq_iff s t).0 h)
status_eq_sound a b h = cc

-- AdvanceFulfillment moves the fulfilment of a confirmed order exactly one state on, with one audit
-- record, or it leaves the tables alone; in the latter case it answers with no order, unless the
-- fulfilment was in the target state already.
pub advance_fulfillment-Advances :
    (env : Env) (cashier_id order_id : String) (target : FulfillmentStatus) (now : Time) (db : Db)
    (order : Order)
    → (((advance_fulfillment env cashier_id order_id target now db).1 ≡ db)
        × (((advance_fulfillment env cashier_id order_id target now db).0 ≢ ok order)
            ⊎ ((row : FulfillmentRow) × (find_first (λ f. f.order_id =s= order_id) db.fulfillments
                  ≡ some row)
                × (row.status ≡ target))))
      ⊎ Advances cashier_id order_id target now db
          (advance_fulfillment env cashier_id order_id target now db).1
unfolding advance_fulfillment fulfillment_row
advance_fulfillment-Advances env cashier_id order_id target now db order =
    let run = advance_fulfillment env cashier_id order_id target now db in
    elim (Result-cases run.0) [
      | inr (e, refused) ↦ elim (advance_fulfillment-Steps env cashier_id order_id target now db) [
        | inl same ↦ inl (same, inl (λ h. absurd (cc (refused, h))))
        | inr steps ↦ inr (Steps-Advances cashier_id order_id target now db run.1 steps)
      ]
      | inl (answer, done) ↦
          let body =
            transaction-ok env (advance_body env cashier_id order_id target now) db {a = answer}
              {after = run.1} (ap (λ a. (a, run.1)) done) in
          elim (advance_body-Steps env cashier_id order_id target now db body) [
            | inl (same, (row, found, there)) ↦
                inl (same, inr (row, found, status_eq_sound row.status target there))
            | inr steps ↦ inr (Steps-Advances cashier_id order_id target now db run.1 steps)
          ]
    ]
