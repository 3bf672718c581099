-- ===== src/Ordering/Domain/Lifecycle.antt =====
-- The rules of order.go: who sees which state, and which fulfilment steps are allowed.
use b46_ordering_app_backend.Base.{
  ℕ, ◌+◌, ◌≤◌, ◌≡◌, ◌⊎◌, ◌≢◌, ◌↔◌, Option, none, some, ok, err, arith,
}
use b46_ordering_app_backend.Ordering.Domain.{
  Order, submitted, confirmed, rejected, other_status, Fulfillment, FulfillmentStatus, preparing,
  delivering, delivered, other, OrderError, customer_state, next_action,
  validate_fulfillment_target,
}

-- How far a fulfilment has come.
abbrev pub rank : FulfillmentStatus → ℕ
rank preparing = 1
rank delivering = 2
rank delivered = 3
rank (other s) = 0

abbrev pub IsKnown : FulfillmentStatus → Type 0
IsKnown s = 1 ≤ rank s

-- From a known state, a target is allowed exactly when it is the next state, or repeats a state
-- past the first.
pub validate_fulfillment_target_iff :
    (current target : FulfillmentStatus)
    → IsKnown current
    → (validate_fulfillment_target current target ≡ ok tt)
      ↔ ((rank target ≡ rank current + 1) ⊎ ((target ≡ current) × (2 ≤ rank current)))
unfolding validate_fulfillment_target
validate_fulfillment_target_iff preparing preparing h = ground arith
validate_fulfillment_target_iff preparing delivering h = ground arith
validate_fulfillment_target_iff preparing delivered h = ground arith
validate_fulfillment_target_iff preparing (other s) h = ground arith
validate_fulfillment_target_iff delivering preparing h = ground arith
validate_fulfillment_target_iff delivering delivering h = ground arith
validate_fulfillment_target_iff delivering delivered h = ground arith
validate_fulfillment_target_iff delivering (other s) h = ground arith
validate_fulfillment_target_iff delivered preparing h = ground arith
validate_fulfillment_target_iff delivered delivering h = ground arith
validate_fulfillment_target_iff delivered delivered h = ground arith
validate_fulfillment_target_iff delivered (other s) h = ground arith
validate_fulfillment_target_iff (other t) target h = absurd (omega arith)

-- The action offered to the cashier for a fulfilment in a known state before the last is one that
-- is allowed, and moves the order to the next state.
pub next_action_allowed :
    (f : Fulfillment)
    → IsKnown f.status
    → f.status ≢ delivered
    → (validate_fulfillment_target f.status (next_action f) ≡ ok tt)
      × (rank (next_action f) ≡ rank f.status + 1)
unfolding next_action validate_fulfillment_target
next_action_allowed f h n = ground arith

-- An order that the store can hold: its status is known, and it has a fulfilment in a known state
-- exactly when it is confirmed.
abbrev pub HasKnownFulfillment : Option Fulfillment → Type 0
HasKnownFulfillment none = ⊥
HasKnownFulfillment (some f) = IsKnown f.status

abbrev pub IsConsistent : Order → Type 0
IsConsistent order = elim order.status [
  | submitted ↦ order.fulfillment ≡ none
  | rejected ↦ order.fulfillment ≡ none
  | confirmed ↦ HasKnownFulfillment order.fulfillment
  | other_status s ↦ ⊥
]

-- A consistent order always has a state to show.
pub customer_state_total :
    (order : Order) {e : OrderError} → IsConsistent order → customer_state order ≢ err e
unfolding customer_state
customer_state_total order h = ground arith
