-- ===== src/Ordering/Store/Place/Whole.antt =====
-- Store.PlaceOrder leaves a whole order behind or none of it.
use b46_ordering_app_backend.Base.{
  ◌≢◌, refl, sym, true, false, not, ◌||◌, Result, ok, err, bind_ok, ok-injective, fail_if, arith,
  Bool-cases, Option-cases, ◌=s=◌, ◌≡◌, ◌⊎◌, inl, inr, ap, none, some, [], ◌∷◌, ◌++◌, map,
}
use b46_ordering_app_backend.Base.Keys.{Absent}
use b46_ordering_app_backend.Ordering.Domain.{
  Order, PlaceOrderResult, OrderError, checkout_conflict, begin_tx, insert_order, find_checkout,
  OrderDraft, OrderLine, submitted,
}
use b46_ordering_app_backend.Ordering.Store.Tables.{finish, Db, Env, OrderRow, order_placed}
use b46_ordering_app_backend.Ordering.Store.Place.{
  place_order, place_new, replay, replay_in_transaction, checkout_after_conflict, insert_rows,
  order_collides,
}
use b46_ordering_app_backend.Ordering.Store.Load.{load_order_row, find_checkout_row, checkout_row}
use b46_ordering_app_backend.Ordering.Store.Transaction.{finish-ok}
use b46_ordering_app_backend.Ordering.Store.Place.Outcome.{
  IsPlaced, place_order-Leaves, insert_rows-IsPlaced,
}
use b46_ordering_app_backend.Ordering.Store.Place.Invariant.{new_checkout_id}

-- The tables have everything of the order in addition, and nothing else: a submitted order under a new
-- checkout id, all its lines with their names and prices, a pending operation, an unpublished message
-- that asks for each line's product and quantity, and the audit record.
pub record HasWhole (draft : OrderDraft) (db after : Db) : Type 0 where
  pub fresh : Absent OrderRow.checkout_id draft.order.checkout_id db.orders
  pub orders :
      after.orders
      ≡ db.orders
        ++ record {
          id = draft.order.id;
          checkout_id = draft.order.checkout_id;
          checkout_fingerprint = draft.checkout_fingerprint;
          customer_id = draft.order.customer_id;
          status = submitted;
          rejection_code = none;
          subtotal_centavos = draft.order.subtotal_centavos;
          delivery_fee_centavos = draft.order.delivery_fee_centavos;
          total_centavos = draft.order.total_centavos;
          delivery_address = draft.order.delivery_address;
          delivery_notes = draft.order.delivery_notes;
          created_at = draft.occurred_at;
          updated_at = draft.occurred_at;
        }
          ∷ []
  pub lines :
      after.lines
      ≡ db.lines
        ++ map
            (λ (l : OrderLine). record {
              id = l.id;
              order_id = draft.order.id;
              product_id = l.product_id;
              product_name = l.product_name;
              unit_price_centavos = l.unit_price_centavos;
              quantity = l.quantity;
              line_total_centavos = l.line_total_centavos;
              created_at = draft.occurred_at;
            })
            draft.order.lines
  pub operations :
      after.operations
      ≡ db.operations
        ++ record {
          operation_id = draft.operation_id;
          order_id = draft.order.id;
          result_status = none;
          result_event_id = none;
          unavailable_items = none;
          created_at = draft.occurred_at;
          completed_at = none;
        }
          ∷ []
  pub outbox :
      after.outbox
      ≡ db.outbox
        ++ record {
          event_id = draft.event_id;
          operation_id = draft.operation_id;
          order_id = draft.order.id;
          payload = record {
            schema_version = "1.0";
            event_id = draft.event_id;
            operation_id = draft.operation_id;
            order_id = draft.order.id;
            occurred_at = draft.occurred_at;
            items =
                map
                  (λ (l : OrderLine). record {
                    order_line_id = l.id;
                    product_id = l.product_id;
                    quantity = l.quantity;
                  })
                  draft.order.lines;
          };
          occurred_at = draft.occurred_at;
          published_at = none;
          attempt_count = 0;
          next_attempt_at = draft.occurred_at;
          locked_at = none;
          claim_token = none;
          last_error_code = none;
        }
          ∷ []
  pub audit :
      after.audit
      ≡ db.audit
        ++ record {
          actor_user_id = some draft.order.customer_id;
          action = order_placed draft.order.checkout_id;
          target_id = draft.order.id;
          occurred_at = draft.occurred_at;
        }
          ∷ []
  pub users : after.users ≡ db.users
  pub fulfillments : after.fulfillments ≡ db.fulfillments

IsPlaced-HasWhole :
    (draft : OrderDraft) (db after : Db) → IsPlaced draft db after → HasWhole draft db after
IsPlaced-HasWhole draft db after (free, op, box, same) = record {
  fresh = new_checkout_id draft db free;
  orders = ap Db.orders same;
  lines = ap Db.lines same;
  operations = ap Db.operations same;
  outbox = ap Db.outbox same;
  audit = ap Db.audit same;
  users = ap Db.users same;
  fulfillments = ap Db.fulfillments same;
}

replay-marked :
    (env : Env) (draft : OrderDraft) (row : OrderRow) (db : Db) {r : PlaceOrderResult}
    → replay env draft row db ≡ ok r
    → r.replayed ≡ true
unfolding replay
replay-marked env draft row db h0 =
    bind_ok
      (fail_if
        (not (row.checkout_fingerprint =s= draft.checkout_fingerprint)
          || not (row.customer_id =s= draft.order.customer_id))
        checkout_conflict)
      h0
      λ u1 e1 h1.
        bind_ok (load_order_row env row.id draft.order.customer_id false db) h1
          λ order e2 h2. sym (ap (λ (x : PlaceOrderResult). x.replayed) (ok-injective h2))

after_conflict-marked :
    (env : Env) (draft : OrderDraft) (db : Db) {r : PlaceOrderResult}
    → checkout_after_conflict env draft db ≡ ok r
    → r.replayed ≡ true
unfolding checkout_after_conflict find_checkout_row
after_conflict-marked env draft db {r} h = elim (Bool-cases (env.fails find_checkout)) [
  | inl e ↦ absurd (ground (arith, e, h))
  | inr e ↦ elim (Option-cases (checkout_row draft.order.checkout_id db)) [
    | inl n ↦ absurd (ground (arith, e, n, h))
    | inr (row, found) ↦ replay-marked env draft row db {r = r} (ground (arith, e, found, h))
  ]
]

-- An answer that is not marked as replayed is the end of the inserts.
place_new-IsPlaced :
    (env again : Env) (draft : OrderDraft) (db : Db) {r : PlaceOrderResult} {db' : Db}
    → place_new env again draft db ≡ (ok r, db')
    → r.replayed ≡ false
    → IsPlaced draft db db'
unfolding place_new
place_new-IsPlaced env again draft db {r} {db'} h new = elim (Bool-cases (env.fails insert_order)) [
  | inl e ↦ absurd (ground (arith, e, h))
  | inr e ↦ elim (Bool-cases (order_collides draft db)) [
    | inl c ↦
        let both : ◌≡◌ {A = Result OrderError PlaceOrderResult × Db}
            (checkout_after_conflict again draft db, db) (ok r, db') =
          ground (arith, e, c, h) in
        absurd (cc (after_conflict-marked again draft db (ap (λ p. p.0) both), new))
    | inr c ↦
        let done : finish env db (insert_rows env draft db) ≡ (ok r, db') =
          ground (arith, e, c, h) in
        (insert_rows-IsPlaced env draft db c (finish-ok env db (insert_rows env draft db) done)).0
  ]
]

place_order-IsPlaced :
    (env again : Env) (between : Db → Db) (draft : OrderDraft) (db : Db) {r : PlaceOrderResult}
    {db' : Db}
    → place_order env again between draft db ≡ (ok r, db')
    → r.replayed ≡ false
    → IsPlaced draft (between db) db'
unfolding place_order find_checkout_row replay_in_transaction
place_order-IsPlaced env again between draft db {r} {db'} h new =
    elim (Bool-cases (env.fails begin_tx)) [
      | inl e ↦ absurd (ground (arith, e, h))
      | inr e ↦ elim (Bool-cases (env.fails find_checkout)) [
        | inl f ↦ absurd (ground (arith, e, f, h))
        | inr f ↦ elim (Option-cases (checkout_row draft.order.checkout_id db)) [
          | inl n ↦
              place_new-IsPlaced env again draft (between db) {r = r} {db' = db'}
                (ground (arith, e, f, n, h)) new
          | inr (row, found) ↦
              let done =
                finish-ok env db (replay_in_transaction env draft row db) {a = r} {after = db'}
                  (ground (arith, e, f, found, h)) in
              bind_ok (replay env draft row db) done λ a e1 h1.
                let same = ap (λ p. p.0) (ok-injective h1) in
                absurd (
                  cc (
                    replay-marked env draft row db e1,
                    ap (λ (x : PlaceOrderResult). x.replayed) same,
                    new,
                  ))
        ]
      ]
    ]

-- Whatever the environment does, a call leaves the database as it found it or as other transactions
-- made it, or it adds the whole order to the latter: no part of an order is ever left behind. In the
-- first case its answer is no newly placed order.
pub place_order-HasWhole :
    (env again : Env) (between : Db → Db) (draft : OrderDraft) (db : Db) (order : Order)
    → (((place_order env again between draft db).0
          ≢ ok (record { order = order; replayed = false }))
        × (((place_order env again between draft db).1 ≡ db)
            ⊎ ((place_order env again between draft db).1 ≡ between db)))
      ⊎ HasWhole draft (between db) (place_order env again between draft db).1
place_order-HasWhole env again between draft db order =
    let run = place_order env again between draft db in
    elim (is_new run.0) [
      | inl (r, answered, new) ↦ inr (
          IsPlaced-HasWhole draft (between db) run.1 (
            place_order-IsPlaced env again between draft db {r = r} {db' = run.1}
              (ap (λ a. (a, run.1)) answered) new))
      | inr other ↦ elim (place_order-Leaves env again between draft db) [
        | inl same ↦ inl (other order, inl same)
        | inr (inl same) ↦ inl (other order, inr same)
        | inr (inr whole) ↦ inr (IsPlaced-HasWhole draft (between db) run.1 whole)
      ]
    ]
  where
    is_new :
        (a : Result OrderError PlaceOrderResult)
        → ((r : PlaceOrderResult) × (a ≡ ok r) × (r.replayed ≡ false))
          ⊎ ((o : Order) → a ≢ ok (record { order = o; replayed = false }))
    is_new (err e) = inr (λ o h. absurd (cc h))
    is_new (ok r) = elim (Bool-cases r.replayed) [
      | inr new ↦ inl (r, refl, new)
      | inl old ↦
          inr (λ o h. absurd (cc (old, ap (λ (x : PlaceOrderResult). x.replayed) (ok-injective h))))
    ]
