-- ===== src/Ordering/Store/Fulfil/Invariant.antt =====
-- Reading and advancing a fulfilment keeps the tables well formed.
use b46_ordering_app_backend.Base.{
  ◌+◌, ◌≡◌, inl, inr, refl, sym, ◌∙◌, ap, subst, String, Bool, true, false, Option, none, some,
  Result, ok, bind_ok, ok-injective, arith, eq_iff, Bool-cases, ◌=s=◌,
}
use b46_ordering_app_backend.Base.Keys.{
  Distinct-update, find_key, find_key-update, find_key_sound, changed,
}
use b46_ordering_app_backend.Ordering.Domain.{
  Time, Order, OrderError, OrderStatus, submitted, confirmed, rejected, other_status,
  FulfillmentStatus, preparing, delivering, delivered, other, mark_read, insert_audit,
}
use b46_ordering_app_backend.Ordering.Domain.Lifecycle.{rank}
use b46_ordering_app_backend.Ordering.Store.Tables.{
  Db, Env, OrderRow, FulfillmentRow, OperationRow, OutboxRow, attempt, is_null,
}
use b46_ordering_app_backend.Ordering.Store.Load.{fulfillment_row, load_order_row}
use b46_ordering_app_backend.Ordering.Store.Transaction.{transaction_cases}
use b46_ordering_app_backend.Ordering.Store.WellFormed.{
  IsWellFormed, Shape, ShapeFor, HasFulfillment, IsOnTime, TimesFor, order_of, operation_of_order,
  box_of_order, fulfillment_of_order,
}
use b46_ordering_app_backend.Ordering.Store.Fulfil.{
  advanced, set_fulfillment, marked, read_applies, read_once, audited_read, mark_cashier_read_body,
  mark_cashier_read, advance_fulfillment,
}
use b46_ordering_app_backend.Ordering.Store.Fulfil.Forward.{advance_fulfillment-Steps}

module _ (p : FulfillmentRow → Bool) (f : FulfillmentRow → FulfillmentRow) where
  HasFulfillment-changed :
      (ff : Option FulfillmentRow)
      → ((x : FulfillmentRow) → ff ≡ some x → p x ≡ true → IsOnTime x → IsOnTime (f x))
      → HasFulfillment ff
      → HasFulfillment (changed p f ff)
  HasFulfillment-changed none good h = h
  HasFulfillment-changed (some x) good h = elim (Bool-cases (p x)) [
    | inl e ↦ rw e (good x refl e h)
    | inr e ↦ rw e h
  ]

  ShapeFor-fulfilled :
      (status : OrderStatus) (code : Option String) (ff : Option FulfillmentRow)
      (op : Option OperationRow) (r : Option OutboxRow)
      → ((x : FulfillmentRow) → ff ≡ some x → p x ≡ true → IsOnTime x → IsOnTime (f x))
      → ShapeFor status code ff op r
      → ShapeFor status code (changed p f ff) op r
  ShapeFor-fulfilled submitted code ff op r good (a, s, c) = (ap (changed p f) a, s, c)
  ShapeFor-fulfilled confirmed code ff op r good (a, s, c) =
      (HasFulfillment-changed ff good a, s, c)
  ShapeFor-fulfilled rejected code ff op r good (a, s, c) = (ap (changed p f) a, s, c)
  ShapeFor-fulfilled (other_status x) code ff op r good h = h

  Shape-fulfilled :
      (o : Option OrderRow) (ff : Option FulfillmentRow) (op : Option OperationRow)
      (r : Option OutboxRow)
      → ((x : FulfillmentRow) → ff ≡ some x → p x ≡ true → IsOnTime x → IsOnTime (f x))
      → Shape o ff op r
      → Shape o (changed p f ff) op r
  Shape-fulfilled none ff op r good (a, b, c) = (ap (changed p f) a, b, c)
  Shape-fulfilled (some o) ff op r good h =
      ShapeFor-fulfilled o.status o.rejection_code ff op r good h

-- A change of one fulfilment that keeps its key and its times in order.
set_fulfillment-IsWellFormed :
    (id : String) (f : FulfillmentRow → FulfillmentRow) (db : Db)
    → ((x : FulfillmentRow) → (f x).order_id ≡ x.order_id)
    → ((x : FulfillmentRow) → fulfillment_row id db ≡ some x → IsOnTime x → IsOnTime (f x))
    → IsWellFormed db
    → IsWellFormed (set_fulfillment id f db)
unfolding fulfillment_row
set_fulfillment-IsWellFormed id f db same good w = record {
  order_ids = w.order_ids;
  checkout_ids = w.checkout_ids;
  fulfillment_ids =
      Distinct-update (λ x. x.order_id) (λ x. x.order_id =s= id) f same db.fulfillments
        w.fulfillment_ids;
  operation_ids = w.operation_ids;
  operation_orders = w.operation_orders;
  event_ids = w.event_ids;
  box_operations = w.box_operations;
  box_orders = w.box_orders;
  shapes = λ k.
      rw (find_key-update (λ x. x.order_id) k (λ x. x.order_id =s= id) f same db.fulfillments) (
        Shape-fulfilled (λ x. x.order_id =s= id) f (order_of k db) (fulfillment_of_order k db)
          (operation_of_order k db) (box_of_order k db)
          (λ x e passes timely.
            let here = find_key_sound (λ y. y.order_id) k db.fulfillments e in
            good x
              (subst (λ i. find_key (λ y. y.order_id) i db.fulfillments ≡ some x)
                (sym here ∙ (eq_iff x.order_id id).0 passes) e)
              timely)
          (w.shapes k));
}

advanced-id :
    (target : FulfillmentStatus) (cashier_id : String) (now : Time) (x : FulfillmentRow)
    → (advanced target cashier_id now x).order_id ≡ x.order_id
unfolding advanced
advanced-id preparing cashier_id now x = refl
advanced-id delivering cashier_id now x = refl
advanced-id delivered cashier_id now x = refl
advanced-id (other s) cashier_id now x = refl

times_after_preparing :
    (s : FulfillmentStatus) (a b : Option Time) → rank s ≡ 1 → TimesFor s a b → b ≡ none
times_after_preparing s a b e h = ground arith

times_after_delivering :
    (s : FulfillmentStatus) (a b : Option Time) → rank s ≡ 2 → TimesFor s a b → is_null a ≡ false
times_after_delivering s a b e h = ground arith

advanced-IsOnTime :
    (target : FulfillmentStatus) (cashier_id : String) (now : Time) (x : FulfillmentRow)
    → rank target ≡ rank x.status + 1
    → IsOnTime x
    → IsOnTime (advanced target cashier_id now x)
unfolding advanced
advanced-IsOnTime preparing cashier_id now x e h = h
advanced-IsOnTime delivering cashier_id now x e (v, r, t) = (
  omega (arith, v, e),
  r,
  (refl, times_after_preparing x.status x.delivering_at x.delivered_at (omega (arith, e)) t),
)
advanced-IsOnTime delivered cashier_id now x e (v, r, t) = (
  omega (arith, v, e),
  r,
  (times_after_delivering x.status x.delivering_at x.delivered_at (omega (arith, e)) t, refl),
)
advanced-IsOnTime (other s) cashier_id now x e h = h

-- Advancing a fulfilment leaves well-formed tables well formed, whatever it returns.
pub advance_fulfillment-IsWellFormed :
    (env : Env) (cashier_id order_id : String) (target : FulfillmentStatus) (now : Time) (db : Db)
    → IsWellFormed db
    → IsWellFormed (advance_fulfillment env cashier_id order_id target now db).1
advance_fulfillment-IsWellFormed env cashier_id order_id target now db w =
    elim (advance_fulfillment-Steps env cashier_id order_id target now db) [
      | inl same ↦ subst IsWellFormed (sym same) w
      | inr s ↦
          let moved =
            set_fulfillment-IsWellFormed order_id (advanced target cashier_id now) db
              (advanced-id target cashier_id now)
              (λ x e.
                let both : ◌≡◌ {A = Option FulfillmentRow} (some s.row) (some x) =
                  sym s.found ∙ e in
                let same : s.row ≡ x = cc both in
                advanced-IsOnTime target cashier_id now x
                  (subst (λ (y : FulfillmentRow). rank target ≡ rank y.status + 1) same s.forward))
              w in
          subst IsWellFormed (sym s.changed_to) (record {
            order_ids = moved.order_ids;
            checkout_ids = moved.checkout_ids;
            fulfillment_ids = moved.fulfillment_ids;
            operation_ids = moved.operation_ids;
            operation_orders = moved.operation_orders;
            event_ids = moved.event_ids;
            box_operations = moved.box_operations;
            box_orders = moved.box_orders;
            shapes = moved.shapes;
          })
    ]

read_once-IsWellFormed :
    (env : Env) (cashier_id order_id : String) (now : Time) (db : Db) {after : Db}
    → IsWellFormed db
    → read_once env cashier_id order_id now db ≡ ok after
    → IsWellFormed after
unfolding read_once audited_read
read_once-IsWellFormed env cashier_id order_id now db {after} w h0 =
    bind_ok (attempt env mark_read) h0 λ u1 e1 h1. elim (Bool-cases (read_applies order_id db)) [
      | inr e ↦
          let same : ◌≡◌ {A = Result OrderError Db} (ok db) (ok after) = ground (arith, e, h1) in
          subst IsWellFormed (ok-injective same) w
      | inl e ↦
          let taken : audited_read env cashier_id order_id now db ≡ ok after =
            ground (arith, e, h1) in
          bind_ok (attempt env insert_audit) taken λ u2 e2 h2.
            let read =
              set_fulfillment-IsWellFormed order_id (marked cashier_id now) db (λ x. refl)
                (λ x e (v, r, t). (v, refl, t)) w in
            subst IsWellFormed (ok-injective h2) (record {
              order_ids = read.order_ids;
              checkout_ids = read.checkout_ids;
              fulfillment_ids = read.fulfillment_ids;
              operation_ids = read.operation_ids;
              operation_orders = read.operation_orders;
              event_ids = read.event_ids;
              box_operations = read.box_operations;
              box_orders = read.box_orders;
              shapes = read.shapes;
            })
    ]

mark_cashier_read_body-IsWellFormed :
    (env : Env) (cashier_id order_id : String) (now : Time) (db : Db) {order : Order} {db' : Db}
    → IsWellFormed db
    → mark_cashier_read_body env cashier_id order_id now db ≡ ok (order, db')
    → IsWellFormed db'
unfolding mark_cashier_read_body
mark_cashier_read_body-IsWellFormed env cashier_id order_id now db w h0 =
    bind_ok (read_once env cashier_id order_id now db) h0 λ after e1 h1.
      bind_ok (load_order_row env order_id "" true after) h1 λ order e2 h2.
        subst IsWellFormed (ap (λ p. p.1) (ok-injective h2))
          (read_once-IsWellFormed env cashier_id order_id now db w e1)

-- Marking an order as read leaves well-formed tables well formed, whatever it returns.
pub mark_cashier_read-IsWellFormed :
    (env : Env) (cashier_id order_id : String) (now : Time) (db : Db)
    → IsWellFormed db
    → IsWellFormed (mark_cashier_read env cashier_id order_id now db).1
unfolding mark_cashier_read
mark_cashier_read-IsWellFormed env cashier_id order_id now db w =
    elim (transaction_cases env (mark_cashier_read_body env cashier_id order_id now) db) [
      | inl same ↦ subst IsWellFormed (sym same) w
      | inr (order, after, done, end) ↦
          subst IsWellFormed (sym end)
            (mark_cashier_read_body-IsWellFormed env cashier_id order_id now db w done)
    ]
