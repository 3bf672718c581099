-- ===== src/Tests/OrderStore.antt =====
-- An order placed, claimed and confirmed, and the theorems about the store of orders applied to it.
use b46_ordering_app_backend.Base.{
  ◌≢◌, ◌=s=◌, inl, err, ◌≡◌, ◌⊎◌, refl, sym, ap, ◌∙◌, String, true, false, Option, none, some, [],
  ◌∷◌, ok, find_first, keep, update_where,
}
use b46_ordering_app_backend.Base.Keys.{find_key, apart}
use b46_ordering_app_backend.Base.Sort.{sort_by}
use b46_ordering_app_backend.Ordering.Domain.{
  delivering, Order, OrderDraft, checkout_conflict, InventoryResult, inventory_committed,
  ClaimedInventoryWork,
}
use b46_ordering_app_backend.Ordering.Store.Tables.{FulfillmentRow, Db, Env, OutboxRow, finish}
use b46_ordering_app_backend.Ordering.Store.WellFormed.{IsWellFormed}
use b46_ordering_app_backend.Ordering.Store.Load.{find_checkout_row, checkout_row}
use b46_ordering_app_backend.Ordering.Store.Place.{place_order, payload_of, outbox_row_of}
use b46_ordering_app_backend.Ordering.Store.Place.Whole.{HasWhole, place_order-HasWhole}
use b46_ordering_app_backend.Ordering.Store.Place.Stored.{SameOrder}
use b46_ordering_app_backend.Ordering.Store.Place.Replay.{
  Works, place_order-again, place_order-conflict,
}
use b46_ordering_app_backend.Ordering.Store.Place.Invariant.{place_order-IsWellFormed}
use b46_ordering_app_backend.Ordering.Store.Outbox.{
  claim_inventory_work, claim_rows, candidates, commit_of, apply_inventory_result,
  retry_inventory_work,
}
use b46_ordering_app_backend.Ordering.Store.Outbox.Leases.{Leases}
use b46_ordering_app_backend.Ordering.Store.Outbox.Settles.{
  Settles, Already, Held, messages_changed, apply_inventory_result-Settles,
  retry_inventory_work-Held,
}
use b46_ordering_app_backend.Ordering.Store.Outbox.Target.{IsGenuine}
use b46_ordering_app_backend.Ordering.Store.Outbox.Invariant.{apply_inventory_result-IsWellFormed}
use b46_ordering_app_backend.Ordering.Store.Outbox.Claims.{claim_inventory_work-IsWellFormed}
use b46_ordering_app_backend.Ordering.Store.Fulfil.{advance_fulfillment, mark_cashier_read}
use b46_ordering_app_backend.Ordering.Store.Reach.{
  Reaches, stays, places, claims, applies, marks, advances, Reaches-IsWellFormed,
}
use b46_ordering_app_backend.Ordering.Store.Fulfil.Advances.{Advances, advance_fulfillment-Advances}
use b46_ordering_app_backend.Tests.Checkout.{customer, cart_draft}

abbrev quiet : Env
quiet = record {
  fails = λ c. false;
  commit_applied = true;
  now = 150;
  token = λ k. "token-1";
  locked_elsewhere = λ id. false;
}

abbrev empty_db : Db
empty_db = record {
  users = record { id = customer; name = "Ana" } ∷ [];
  orders = [];
  lines = [];
  fulfillments = [];
  operations = [];
  outbox = [];
  audit = [];
}

empty_db-IsWellFormed : IsWellFormed empty_db
unfolding find_first
empty_db-IsWellFormed = record {
  order_ids = tt;
  checkout_ids = tt;
  fulfillment_ids = tt;
  operation_ids = tt;
  operation_orders = tt;
  event_ids = tt;
  box_operations = tt;
  box_orders = tt;
  shapes = λ id. (refl, refl, refl);
}

abbrev placed_db : Db
placed_db = (place_order quiet quiet (λ db. db) cart_draft empty_db).1

place_order-IsWellFormed_example : IsWellFormed placed_db
place_order-IsWellFormed_example =
    place_order-IsWellFormed quiet quiet (λ db. db) cart_draft empty_db empty_db-IsWellFormed
      empty_db-IsWellFormed

place_order-HasWhole_example :
    (((place_order quiet quiet (λ db. db) cart_draft empty_db).0
        ≢ ok (record { order = cart_draft.order; replayed = false }))
      × ((placed_db ≡ empty_db) ⊎ (placed_db ≡ empty_db)))
    ⊎ HasWhole cart_draft empty_db placed_db
place_order-HasWhole_example =
    place_order-HasWhole quiet quiet (λ db. db) cart_draft empty_db cart_draft.order

placed_db-IsWellFormed : IsWellFormed placed_db
placed_db-IsWellFormed =
    place_order-IsWellFormed quiet quiet (λ db. db) cart_draft empty_db empty_db-IsWellFormed
      empty_db-IsWellFormed

abbrev claimed_db : Db
claimed_db = (claim_inventory_work quiet 200 60 10 placed_db).1

claimed_db-IsWellFormed : IsWellFormed claimed_db
claimed_db-IsWellFormed =
    claim_inventory_work-IsWellFormed quiet 200 60 10 placed_db placed_db-IsWellFormed

abbrev work : ClaimedInventoryWork
work = record {
  commit = commit_of (payload_of cart_draft);
  claim_token = "token-1";
  attempt_count = 1;
}

abbrev answer : InventoryResult
answer = record {
  event_id = "result-1";
  operation_id = "operation-1";
  order_id = "order-1";
  status = inventory_committed;
  occurred_at = 210;
  unavailable_items = [];
}

abbrev box : OutboxRow
box = record (outbox_row_of cart_draft) {
  locked_at = some 200;
  claim_token = some "token-1";
  attempt_count = 1;
}

claimed_box : find_key (λ r. r.event_id) "event-1" claimed_db.outbox ≡ some box
unfolding claim_inventory_work claim_rows candidates place_order finish sort_by keep
    find_checkout_row checkout_row find_first update_where
claimed_box = refl

work-IsGenuine : IsGenuine work claimed_db
work-IsGenuine r e =
    let same : ◌≡◌ {A = Option OutboxRow} (some box) (some r) = sym claimed_box ∙ e in
    (sym (ap operation_id_of same), sym (ap order_id_of same))
  where
    operation_id_of : Option OutboxRow → String
    operation_id_of none = ""
    operation_id_of (some x) = x.operation_id

    order_id_of : Option OutboxRow → String
    order_id_of none = ""
    order_id_of (some x) = x.order_id

apply_inventory_result-IsWellFormed_example :
    IsWellFormed (apply_inventory_result quiet work answer 220 claimed_db).1
apply_inventory_result-IsWellFormed_example =
    apply_inventory_result-IsWellFormed quiet work answer 220 claimed_db claimed_db-IsWellFormed
      work-IsGenuine

apply_inventory_result-Settles_example :
    (((apply_inventory_result quiet work answer 220 claimed_db).1 ≡ claimed_db)
      × (((apply_inventory_result quiet work answer 220 claimed_db).0 ≢ ok tt)
          ⊎ Already answer claimed_db))
    ⊎ Settles quiet work answer 220 claimed_db
        (apply_inventory_result quiet work answer 220 claimed_db).1
apply_inventory_result-Settles_example =
    apply_inventory_result-Settles quiet work answer 220 claimed_db

retry_inventory_work-Held_example :
    (((retry_inventory_work quiet work 500 "INVENTORY_TIMEOUT" claimed_db).1 ≡ claimed_db)
      × ((retry_inventory_work quiet work 500 "INVENTORY_TIMEOUT" claimed_db).0 ≢ ok tt))
    ⊎ (Held work claimed_db
        × ((retry_inventory_work quiet work 500 "INVENTORY_TIMEOUT" claimed_db).1
            ≡ record claimed_db {
              outbox =
                  messages_changed work
                    (λ r. record r {
                      locked_at = none;
                      claim_token = none;
                      next_attempt_at = 500;
                      last_error_code = some "INVENTORY_TIMEOUT";
                    })
                    claimed_db.outbox;
            }))
retry_inventory_work-Held_example =
    retry_inventory_work-Held quiet work 500 "INVENTORY_TIMEOUT" claimed_db

first_result :
    (place_order quiet quiet (λ db. db) cart_draft empty_db).0
    ≡ ok (record { order = cart_draft.order; replayed = false })
unfolding place_order finish find_checkout_row checkout_row find_first
first_result = refl

-- The customer sends the checkout again; the service has drawn new ids.
abbrev second_draft : OrderDraft
second_draft = record cart_draft { event_id = "event-2"; operation_id = "operation-2" }

quiet-Works : Works quiet
quiet-Works = record { begins = refl; finds = refl; loads = refl; reads = refl; commits = refl }

customer_known :
    find_first (λ x. x.id =s= customer) placed_db.users
    ≡ some (record { id = customer; name = "Ana" })
unfolding place_order finish find_checkout_row checkout_row find_first
customer_known = refl

place_order-again_example :
    (order : Order) × (place_order quiet quiet (λ db. db) second_draft placed_db
      ≡ (ok (record { order = order; replayed = true }), placed_db))
    × SameOrder order cart_draft.order
place_order-again_example =
    place_order-again quiet quiet quiet quiet (λ db. db) (λ db. db) cart_draft second_draft empty_db
      placed_db (record { order = cart_draft.order; replayed = false })
      (record { id = customer; name = "Ana" }) refl tt (ap (λ r. (r, placed_db)) first_result)
      (record { checkout = refl; printed = refl; customer = refl }) quiet-Works
      placed_db-IsWellFormed customer_known

place_order-conflict_example :
    place_order quiet quiet
      (λ db. db)
      (record cart_draft { checkout_fingerprint = "other" })
      placed_db
    ≡ (err checkout_conflict, placed_db)
place_order-conflict_example =
    place_order-conflict quiet quiet quiet quiet (λ db. db) (λ db. db) cart_draft
      (record cart_draft { checkout_fingerprint = "other" }) empty_db placed_db
      (record { order = cart_draft.order; replayed = false }) refl tt
      (ap (λ r. (r, placed_db)) first_result) refl (inl (apart refl)) refl refl

abbrev confirmed_db : Db
confirmed_db = (apply_inventory_result quiet work answer 220 claimed_db).1

advance_fulfillment-Advances_example :
    (((advance_fulfillment quiet "cashier-1" "order-1" delivering 300 confirmed_db).1
        ≡ confirmed_db)
      × (((advance_fulfillment quiet "cashier-1" "order-1" delivering 300 confirmed_db).0
            ≢ ok cart_draft.order)
          ⊎ ((row : FulfillmentRow) × (find_first
                  (λ f. f.order_id =s= "order-1")
                  confirmed_db.fulfillments
                ≡ some row)
              × (row.status ≡ delivering))))
    ⊎ Advances "cashier-1" "order-1" delivering 300 confirmed_db
        (advance_fulfillment quiet "cashier-1" "order-1" delivering 300 confirmed_db).1
advance_fulfillment-Advances_example =
    advance_fulfillment-Advances quiet "cashier-1" "order-1" delivering 300 confirmed_db
      cart_draft.order

-- The order is placed, claimed, confirmed, read and sent on its way.
abbrev sent_db : Db
sent_db =
    (advance_fulfillment quiet "cashier-1" "order-1" delivering 300
      (mark_cashier_read quiet "cashier-1" "order-1" 250 confirmed_db).1).1

placed_db-Reaches : Reaches empty_db placed_db
unfolding place_order
placed_db-Reaches = places {mid = empty_db} quiet quiet cart_draft (stays refl) (stays refl) refl

claimed_db-Reaches : Reaches empty_db claimed_db
claimed_db-Reaches = claims quiet 200 60 10 placed_db-Reaches refl

confirmed_db-Reaches : Reaches empty_db confirmed_db
confirmed_db-Reaches = applies quiet work answer 220 claimed_db-Reaches work-IsGenuine refl

sent_db-Reaches : Reaches empty_db sent_db
sent_db-Reaches =
    advances quiet "cashier-1" "order-1" delivering 300
      (marks quiet "cashier-1" "order-1" 250 confirmed_db-Reaches refl) refl

Reaches-IsWellFormed_example : IsWellFormed sent_db
Reaches-IsWellFormed_example = Reaches-IsWellFormed sent_db-Reaches empty_db-IsWellFormed
