-- ===== src/Ordering/Store/Fulfil/Forward.antt =====
-- What Store.AdvanceFulfillment can leave behind.
use b46_ordering_app_backend.Base.{
  ◌+◌, ◌≡◌, ◌⊎◌, inl, inr, sym, ◌∙◌, ap, subst, String, true, not, some, ok, bind_ok, passed,
  ok-injective, got, or_fail, arith, fail_if, Bool-cases,
}
use b46_ordering_app_backend.Ordering.Domain.{
  Time, Order, FulfillmentStatus, status_eq, not_found, invalid_transition,
  validate_fulfillment_target, lock_operation, advance_row, insert_audit,
}
use b46_ordering_app_backend.Ordering.Domain.Lifecycle.{rank}
use b46_ordering_app_backend.Ordering.Store.Tables.{
  Db, Env, FulfillmentRow, fulfillment_advanced, attempt,
}
use b46_ordering_app_backend.Ordering.Store.Load.{fulfillment_row, load_order_row}
use b46_ordering_app_backend.Ordering.Store.Transaction.{transaction_cases}
use b46_ordering_app_backend.Ordering.Store.Fulfil.{
  order_is_confirmed, advanced, audited, set_fulfillment, update_applies, update_row, advance_step,
  advance_body, advance_fulfillment,
}

-- One step of the fulfilment of a confirmed order: its status was one below the target, and the
-- tables differ in its row and one audit record.
pub record Steps (cashier_id order_id : String) (target : FulfillmentStatus) (now : Time)
    (db after : Db) : Type 0 where
  pub row : FulfillmentRow
  pub found : fulfillment_row order_id db ≡ some row
  pub confirmed : order_is_confirmed order_id db ≡ true
  pub applies : update_applies target row.status ≡ true
  pub forward : rank target ≡ rank row.status + 1
  pub changed_to :
      after
      ≡ audited cashier_id
          (fulfillment_advanced row.status target)
          order_id
          now
          (set_fulfillment order_id (advanced target cashier_id now) db)

applies_forward :
    (target current : FulfillmentStatus)
    → update_applies target current ≡ true
    → rank target ≡ rank current + 1
unfolding update_applies status_eq
applies_forward target current h = ground arith

update_row-ok :
    (env : Env) (cashier_id order_id : String) (target : FulfillmentStatus) (now : Time)
    (row : FulfillmentRow) (db : Db) {after : Db}
    → update_row env cashier_id order_id target now row db ≡ ok after
    → (update_applies target row.status ≡ true)
      × (after
          ≡ audited cashier_id
              (fulfillment_advanced row.status target)
              order_id
              now
              (set_fulfillment order_id (advanced target cashier_id now) db))
unfolding update_row
update_row-ok env cashier_id order_id target now row db h0 =
    bind_ok (attempt env advance_row) h0 λ u1 e1 h1.
      bind_ok (fail_if (not (update_applies target row.status)) invalid_transition) h1 λ u2 e2 h2.
        bind_ok (attempt env insert_audit) h2 λ u3 e3 h3. (
          ground (arith, passed (not (update_applies target row.status)) invalid_transition e2),
          sym (ok-injective h3),
        )

advance_step-cases :
    (env : Env) (cashier_id order_id : String) (target : FulfillmentStatus) (now : Time)
    (row : FulfillmentRow) (db : Db) {after : Db}
    → advance_step env cashier_id order_id target now row db ≡ ok after
    → ((after ≡ db) × (status_eq row.status target ≡ true))
      ⊎ ((update_applies target row.status ≡ true)
          × (after
              ≡ audited cashier_id
                  (fulfillment_advanced row.status target)
                  order_id
                  now
                  (set_fulfillment order_id (advanced target cashier_id now) db)))
unfolding advance_step
advance_step-cases env cashier_id order_id target now row db {after} h =
    elim (Bool-cases (status_eq row.status target)) [
      | inl e ↦ inl (ground (arith, e, h), e)
      | inr e ↦ inr (
          update_row-ok env cashier_id order_id target now row db {after = after}
            (ground (arith, e, h)))
    ]

pub advance_body-Steps :
    (env : Env) (cashier_id order_id : String) (target : FulfillmentStatus) (now : Time) (db : Db)
    {order : Order} {db' : Db}
    → advance_body env cashier_id order_id target now db ≡ ok (order, db')
    → ((db' ≡ db)
        × ((row : FulfillmentRow) × (fulfillment_row order_id db ≡ some row)
            × (status_eq row.status target ≡ true)))
      ⊎ Steps cashier_id order_id target now db db'
unfolding advance_body
advance_body-Steps env cashier_id order_id target now db h0 =
    bind_ok (attempt env lock_operation) h0 λ u1 e1 h1.
      bind_ok (fail_if (not (order_is_confirmed order_id db)) not_found) h1 λ u2 e2 h2.
        bind_ok (or_fail (fulfillment_row order_id db) not_found) h2 λ row e3 h3.
          bind_ok (validate_fulfillment_target row.status target) h3 λ u4 e4 h4.
            bind_ok (advance_step env cashier_id order_id target now row db) h4 λ after e5 h5.
              bind_ok (load_order_row env order_id "" true after) h5 λ order e6 h6.
                let same = sym (ap (λ p. p.1) (ok-injective h6)) in
                elim (advance_step-cases env cashier_id order_id target now row db e5) [
                  | inl (kept, there) ↦
                      inl
                        (same ∙ kept, (row, got (fulfillment_row order_id db) not_found e3, there))
                  | inr (applies, changed_to) ↦ inr (record {
                    row = row;
                    found = got (fulfillment_row order_id db) not_found e3;
                    confirmed =
                        ground (arith, passed (not (order_is_confirmed order_id db)) not_found e2);
                    applies = applies;
                    forward = applies_forward target row.status applies;
                    changed_to = same ∙ changed_to;
                  })
                ]

-- AdvanceFulfillment leaves the tables alone or moves the fulfilment of a
-- confirmed order exactly one state on, with one audit record.
pub advance_fulfillment-Steps :
    (env : Env) (cashier_id order_id : String) (target : FulfillmentStatus) (now : Time) (db : Db)
    → ((advance_fulfillment env cashier_id order_id target now db).1 ≡ db)
      ⊎ Steps cashier_id order_id target now db
          (advance_fulfillment env cashier_id order_id target now db).1
unfolding advance_fulfillment
advance_fulfillment-Steps env cashier_id order_id target now db =
    elim (transaction_cases env (advance_body env cashier_id order_id target now) db) [
      | inl same ↦ inl same
      | inr (order, after, done, end) ↦
          elim (advance_body-Steps env cashier_id order_id target now db done) [
            | inl (kept, there) ↦ inl (end ∙ kept)
            | inr steps ↦ inr (subst (Steps cashier_id order_id target now db) (sym end) steps)
          ]
    ]
