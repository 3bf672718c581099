-- ===== src/Ordering/Store/Place/Recorded.antt =====
-- Store.PlaceOrder records the checkout of every order that it returns.
use b46_ordering_app_backend.Base.{
  ◌≡◌, inl, inr, refl, sym, ◌∙◌, ap, subst, false, not, ◌||◌, some, Result, ok, bind_ok, passed,
  ok-injective, arith, eq_iff, eq_refl, ◌=s=◌, Bool-cases, Option-cases, fail_if,
}
use b46_ordering_app_backend.Base.Keys.{find_key, find_key-snoc}
use b46_ordering_app_backend.Ordering.Domain.{
  Order, OrderDraft, PlaceOrderResult, OrderError, begin_tx, insert_order, checkout_conflict,
  find_checkout,
}
use b46_ordering_app_backend.Ordering.Store.Tables.{Db, Env, OrderRow, finish}
use b46_ordering_app_backend.Ordering.Store.Load.{
  find_checkout_row, load_order_row, checkout_row, order_row,
}
use b46_ordering_app_backend.Ordering.Store.Place.{
  order_collides, insert_rows, place_order, place_new, replay, replay_in_transaction, order_row_of,
  checkout_after_conflict,
}
use b46_ordering_app_backend.Ordering.Store.Transaction.{finish-ok}
use b46_ordering_app_backend.Ordering.Store.Place.Outcome.{IsPlaced, insert_rows-IsPlaced}
use b46_ordering_app_backend.Ordering.Store.Place.Invariant.{new_checkout_id, new_order_id}
use b46_ordering_app_backend.Ordering.Store.Place.Stored.{
  Stored, LinesBelong, load_order_row-Stored, placed-Stored,
}
use b46_ordering_app_backend.Ordering.Domain.{submitted}

-- The order of a checkout is in the table, under the fingerprint and the customer of the draft, and
-- the tables have the given order under its id.
pub record Recorded (draft : OrderDraft) (order : Order) (db : Db) : Type 0 where
  pub row : OrderRow
  pub found : checkout_row draft.order.checkout_id db ≡ some row
  pub printed : row.checkout_fingerprint ≡ draft.checkout_fingerprint
  pub owned : row.customer_id ≡ draft.order.customer_id
  pub kept : OrderRow
  pub loaded : order_row row.id db ≡ some kept
  pub stored : Stored order kept db

replay-Recorded :
    (env : Env) (draft : OrderDraft) (row : OrderRow) (db : Db) {r : PlaceOrderResult}
    → checkout_row draft.order.checkout_id db ≡ some row
    → replay env draft row db ≡ ok r
    → Recorded draft r.order db
unfolding replay
replay-Recorded env draft row db found h0 =
    bind_ok
      (fail_if
        (not (row.checkout_fingerprint =s= draft.checkout_fingerprint)
          || not (row.customer_id =s= draft.order.customer_id))
        checkout_conflict)
      h0
      λ u1 e1 h1.
        bind_ok (load_order_row env row.id draft.order.customer_id false db) h1 λ order e2 h2.
          let agree = passed _ checkout_conflict e1 in
          let (kept, loaded, stored) =
            load_order_row-Stored env row.id draft.order.customer_id false db e2 in
          record {
            row = row;
            found = found;
            printed =
                ground (arith, agree, eq_iff row.checkout_fingerprint draft.checkout_fingerprint);
            owned = ground (arith, agree, eq_iff row.customer_id draft.order.customer_id);
            kept = kept;
            loaded = loaded;
            stored =
                subst (λ (x : PlaceOrderResult). Stored x.order kept db) (ok-injective h2) stored;
          }

placed-Recorded :
    (draft : OrderDraft) (db : Db) {db' : Db}
    → draft.order.status ≡ submitted
    → LinesBelong db
    → IsPlaced draft db db'
    → Recorded draft draft.order db'
unfolding checkout_row order_row
placed-Recorded draft db {db'} fresh belong (free, op, box, same) = record {
  row = order_row_of draft;
  found =
      ap (λ d. find_key (λ o. o.checkout_id) draft.order.checkout_id d.orders) same
      ∙ find_key-snoc (λ o. o.checkout_id) draft.order.checkout_id db.orders (order_row_of draft)
          (new_checkout_id draft db free)
      ∙ rw (eq_refl draft.order.checkout_id) refl;
  printed = refl;
  owned = refl;
  kept = order_row_of draft;
  loaded =
      ap (λ d. find_key (λ o. o.id) draft.order.id d.orders) same
      ∙ find_key-snoc (λ o. o.id) draft.order.id db.orders (order_row_of draft)
          (new_order_id draft db free)
      ∙ rw (eq_refl draft.order.id) refl;
  stored =
      subst (Stored draft.order (order_row_of draft)) (sym same)
        (placed-Stored draft db fresh (new_order_id draft db free) belong);
}

checkout_after_conflict-Recorded :
    (env : Env) (draft : OrderDraft) (db : Db) {r : PlaceOrderResult}
    → checkout_after_conflict env draft db ≡ ok r
    → Recorded draft r.order db
unfolding checkout_after_conflict find_checkout_row
checkout_after_conflict-Recorded env draft db {r} h = elim (Bool-cases (env.fails find_checkout)) [
  | inl e ↦ absurd (ground (arith, e, h))
  | inr e ↦ elim (Option-cases (checkout_row draft.order.checkout_id db)) [
    | inl n ↦ absurd (ground (arith, e, n, h))
    | inr (row, found) ↦
        replay-Recorded env draft row db {r = r} found (ground (arith, e, found, h))
  ]
]

place_new-Recorded :
    (env again : Env) (draft : OrderDraft) (db : Db) {r : PlaceOrderResult} {db' : Db}
    → draft.order.status ≡ submitted
    → LinesBelong db
    → place_new env again draft db ≡ (ok r, db')
    → Recorded draft r.order db'
unfolding place_new
place_new-Recorded env again draft db {r} {db'} fresh belong h =
    elim (Bool-cases (env.fails insert_order)) [
      | inl e ↦ absurd (ground (arith, e, h))
      | inr e ↦ elim (Bool-cases (order_collides draft db)) [
        | inl c ↦
            let both : ◌≡◌ {A = Result OrderError PlaceOrderResult × Db}
                (checkout_after_conflict again draft db, db) (ok r, db') =
              ground (arith, e, c, h) in
            subst (Recorded draft r.order) (ap (λ p. p.1) both)
              (checkout_after_conflict-Recorded again draft db (ap (λ p. p.0) both))
        | inr c ↦
            let done : finish env db (insert_rows env draft db) ≡ (ok r, db') =
              ground (arith, e, c, h) in
            let (new, same) =
              insert_rows-IsPlaced env draft db c
                (finish-ok env db (insert_rows env draft db) done) in
            subst (λ (x : PlaceOrderResult). Recorded draft x.order db') (sym same)
              (placed-Recorded draft db fresh belong new)
      ]
    ]

replay_in_transaction-Recorded :
    (env : Env) (draft : OrderDraft) (row : OrderRow) (db : Db) {r : PlaceOrderResult} {db' : Db}
    → checkout_row draft.order.checkout_id db ≡ some row
    → replay_in_transaction env draft row db ≡ ok (r, db')
    → Recorded draft r.order db'
unfolding replay_in_transaction
replay_in_transaction-Recorded env draft row db {r} {db'} found h0 =
    bind_ok (replay env draft row db) h0 λ a e h1.
      let both = ok-injective h1 in
      subst (λ (x : PlaceOrderResult). Recorded draft x.order db') (ap (λ p. p.0) both)
        (subst (Recorded draft a.order) (ap (λ p. p.1) both)
          (replay-Recorded env draft row db found e))

-- Whenever PlaceOrder returns an order, the tables hold it, with its lines, and the order of that
-- checkout has the draft's fingerprint and customer.
pub place_order-Recorded :
    (env again : Env) (between : Db → Db) (draft : OrderDraft) (db : Db) {r : PlaceOrderResult}
    {db' : Db}
    → draft.order.status ≡ submitted
    → LinesBelong (between db)
    → place_order env again between draft db ≡ (ok r, db')
    → Recorded draft r.order db'
unfolding place_order find_checkout_row
place_order-Recorded env again between draft db {r} {db'} fresh belong h =
    elim (Bool-cases (env.fails begin_tx)) [
      | inl e ↦ absurd (ground (arith, e, h))
      | inr e ↦ elim (Bool-cases (env.fails find_checkout)) [
        | inl f ↦ absurd (ground (arith, e, f, h))
        | inr f ↦ elim (Option-cases (checkout_row draft.order.checkout_id db)) [
          | inl n ↦
              place_new-Recorded env again draft (between db) {r = r} {db' = db'} fresh belong
                (ground (arith, e, f, n, h))
          | inr (row, found) ↦ replay_in_transaction-Recorded env draft row db found (
              finish-ok env db (replay_in_transaction env draft row db) {a = r} {after = db'}
                (ground (arith, e, f, found, h)))
        ]
      ]
    ]
