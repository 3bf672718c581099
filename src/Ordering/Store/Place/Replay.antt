-- ===== src/Ordering/Store/Place/Replay.antt =====
-- Store.PlaceOrder records a checkout once, and answers it again from what is recorded.
use b46_ordering_app_backend.Base.{
  ◌≡◌, ◌≢◌, ◌⊎◌, inl, inr, refl, sym, ◌∙◌, subst, String, true, false, Option, some, ok, err, arith,
  eq_iff, ◌=s=◌, find_first,
}
use b46_ordering_app_backend.Base.Keys.{find_key, found_by_key}
use b46_ordering_app_backend.Ordering.Domain.{
  Order, OrderDraft, PlaceOrderResult, begin_tx, commit_tx, checkout_conflict, load_order,
  load_lines, find_checkout, Call,
}
use b46_ordering_app_backend.Ordering.Store.Tables.{
  Db, Env, OrderRow, FulfillmentRow, UserRow, attempt, finish,
}
use b46_ordering_app_backend.Ordering.Store.Load.{
  find_checkout_row, load_order_row, checkout_row, order_row, visible, fulfillment_row, assemble,
}
use b46_ordering_app_backend.Ordering.Store.Place.{place_order, replay, replay_in_transaction}
use b46_ordering_app_backend.Ordering.Store.WellFormed.{IsWellFormed}
use b46_ordering_app_backend.Ordering.Store.Place.Recorded.{Recorded, place_order-Recorded}
use b46_ordering_app_backend.Ordering.Store.Place.Stored.{
  Stored, SameOrder, LinesBelong, assembled-SameOrder,
}
use b46_ordering_app_backend.Ordering.Domain.{submitted}

owner_sees :
    (o : OrderRow) (f : Option FulfillmentRow) (customer : String)
    → o.customer_id ≡ customer
    → visible o f customer false ≡ true
unfolding visible
owner_sees o f customer same = ground (arith, same, eq_iff o.customer_id customer)

-- What a call needs to answer from the tables: none of these steps fails.
pub record Works (env : Env) : Type 0 where
  pub begins : env.fails begin_tx ≡ false
  pub finds : env.fails find_checkout ≡ false
  pub loads : env.fails load_order ≡ false
  pub reads : env.fails load_lines ≡ false
  pub commits : env.fails commit_tx ≡ false

module _ (env : Env) (w : Works env) (draft : OrderDraft) (placed : Order) (db : Db) (u : UserRow)
    (known : find_first (λ x. x.id =s= draft.order.customer_id) db.users ≡ some u) where
  attempted : (c : Call) → env.fails c ≡ false → attempt env c ≡ ok tt
  attempted c e = rw e refl

  abbrev stored : OrderRow → Order
  stored row = assemble db row u (fulfillment_row row.id db)

  load_order_row-stored :
      (row : OrderRow)
      → order_row row.id db ≡ some row
      → row.customer_id ≡ draft.order.customer_id
      → load_order_row env row.id draft.order.customer_id false db ≡ ok (stored row)
  unfolding load_order_row
  load_order_row-stored row found owned =
      rw
        (
          attempted load_order w.loads,
          found,
          subst (λ k. find_first (λ x. x.id =s= k) db.users ≡ some u) (sym owned) known,
          owner_sees row (fulfillment_row row.id db) draft.order.customer_id owned,
          attempted load_lines w.reads,
        )
        refl

  replay-stored :
      (row : OrderRow)
      → order_row row.id db ≡ some row
      → row.checkout_fingerprint ≡ draft.checkout_fingerprint
      → row.customer_id ≡ draft.order.customer_id
      → replay env draft row db ≡ ok (record { order = stored row; replayed = true })
  unfolding replay
  replay-stored row found printed owned =
      rw
        (
          (eq_iff row.checkout_fingerprint draft.checkout_fingerprint).1 printed,
          (eq_iff row.customer_id draft.order.customer_id).1 owned,
          load_order_row-stored row found owned,
        )
        refl

  -- A recorded checkout is answered with the order recorded for it, and nothing changes, when the
  -- tables are well formed, the customer is known and none of the steps of the answer fails.
  pub place_order-replay :
      (again : Env) (between : Db → Db)
      → Recorded draft placed db
      → IsWellFormed db
      → (order : Order) × (place_order env again between draft db
          ≡ (ok (record { order = order; replayed = true }), db))
        × SameOrder order placed
  unfolding place_order find_checkout_row replay_in_transaction finish order_row checkout_row
  place_order-replay again between r wf =
      let at =
        found_by_key (λ o. o.id) (λ o. o.checkout_id =s= draft.order.checkout_id) db.orders r.row
          wf.order_ids r.found in
      let one : r.kept ≡ r.row = cc (at, r.loaded) in
      (
        stored r.row,
        rw (w.begins, w.finds, r.found, replay-stored r.row at r.printed r.owned, w.commits) refl,
        assembled-SameOrder db r.row u (fulfillment_row r.row.id db) placed
            (subst (λ o. Stored placed o db) one r.stored),
      )

-- A draft that repeats a checkout of a customer, under the same fingerprint; its other ids are new.
pub record Repeats (draft first : OrderDraft) : Type 0 where
  pub checkout : draft.order.checkout_id ≡ first.order.checkout_id
  pub printed : draft.checkout_fingerprint ≡ first.checkout_fingerprint
  pub customer : draft.order.customer_id ≡ first.order.customer_id

Recorded-repeated :
    (draft first : OrderDraft) (order : Order) (db : Db)
    → Repeats draft first
    → Recorded first order db
    → Recorded draft order db
unfolding checkout_row
Recorded-repeated draft first order db same r = record {
  row = r.row;
  found =
      subst (λ k. find_key (λ o. o.checkout_id) k db.orders ≡ some r.row) (sym same.checkout)
        r.found;
  printed = r.printed ∙ sym same.printed;
  owned = r.owned ∙ sym same.customer;
  kept = r.kept;
  loaded = r.loaded;
  stored = r.stored;
}

-- A checkout is placed once: after PlaceOrder has returned an order, a draft that repeats the
-- checkout gets the same order again, marked as replayed: with its ids, customer, status, amounts,
-- address, notes and lines. Nothing changes. The first draft was a submitted order, and the lines in
-- the tables that it met belong to orders; the tables are well formed after it, the customer is known,
-- and none of the steps of the second answer fails.
pub place_order-again :
    (env env' again again' : Env) (between between' : Db → Db) (first draft : OrderDraft)
    (db db' : Db) (r : PlaceOrderResult) (u : UserRow)
    → first.order.status ≡ submitted
    → LinesBelong (between db)
    → place_order env again between first db ≡ (ok r, db')
    → Repeats draft first
    → Works env'
    → IsWellFormed db'
    → find_first (λ x. x.id =s= draft.order.customer_id) db'.users ≡ some u
    → (order : Order) × (place_order env' again' between' draft db'
        ≡ (ok (record { order = order; replayed = true }), db'))
      × SameOrder order r.order
place_order-again env env' again again' between between' first draft db db' r u fresh belong done
      same w wf known =
    place_order-replay env' w draft r.order db' u known again' between'
      (Recorded-repeated draft first r.order db' same
        (place_order-Recorded env again between first db fresh belong done))
      wf

replay-conflict :
    (env : Env) (draft : OrderDraft) (row : OrderRow) (db : Db)
    → (row.checkout_fingerprint ≢ draft.checkout_fingerprint)
      ⊎ (row.customer_id ≢ draft.order.customer_id)
    → replay env draft row db ≡ err checkout_conflict
unfolding replay
replay-conflict env draft row db (inl other) =
    ground (arith, other, eq_iff row.checkout_fingerprint draft.checkout_fingerprint)
replay-conflict env draft row db (inr other) =
    ground (arith, other, eq_iff row.customer_id draft.order.customer_id)

-- The draft is for another customer or has another fingerprint.
abbrev pub Differs : OrderDraft → OrderDraft → Type 0
Differs draft first =
    (draft.checkout_fingerprint ≢ first.checkout_fingerprint)
    ⊎ (draft.order.customer_id ≢ first.order.customer_id)

other_row :
    (draft first : OrderDraft) (order : Order) (db : Db) (r : Recorded first order db)
    → Differs draft first
    → (r.row.checkout_fingerprint ≢ draft.checkout_fingerprint)
      ⊎ (r.row.customer_id ≢ draft.order.customer_id)
other_row draft first order db r (inl other) = inl (λ e. other (sym e ∙ r.printed))
other_row draft first order db r (inr other) = inr (λ e. other (sym e ∙ r.owned))

-- A checkout id is used once: after PlaceOrder has returned an order, a draft with the same checkout id
-- that is for another customer or has another fingerprint is answered with a conflict, and nothing
-- changes, when the second transaction begins and can read the checkout. The first draft was a
-- submitted order, and the lines in the tables that it met belong to orders.
pub place_order-conflict :
    (env env' again again' : Env) (between between' : Db → Db) (first draft : OrderDraft)
    (db db' : Db) (r : PlaceOrderResult)
    → first.order.status ≡ submitted
    → LinesBelong (between db)
    → place_order env again between first db ≡ (ok r, db')
    → draft.order.checkout_id ≡ first.order.checkout_id
    → Differs draft first
    → env'.fails begin_tx ≡ false
    → env'.fails find_checkout ≡ false
    → place_order env' again' between' draft db' ≡ (err checkout_conflict, db')
unfolding place_order find_checkout_row replay_in_transaction finish checkout_row
place_order-conflict env env' again again' between between' first draft db db' r fresh belong done
      same differs begins finds =
    let recorded = place_order-Recorded env again between first db fresh belong done in
    let found : find_first (λ o. o.checkout_id =s= draft.order.checkout_id) db'.orders
        ≡ some recorded.row =
      subst (λ k. find_key (λ o. o.checkout_id) k db'.orders ≡ some recorded.row) (sym same)
        recorded.found in
    let other = other_row draft first r.order db' recorded differs in
    rw (begins, finds, found, replay-conflict env' draft recorded.row db' other) refl
