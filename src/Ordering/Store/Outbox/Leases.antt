-- ===== src/Ordering/Store/Outbox/Leases.antt =====
-- What Store.ClaimInventoryWork hands out.
use b46_ordering_app_backend.Base.{
  ℕ, ◌+◌, ◌-◌, ◌≤◌, ◌≡◌, ◌⊎◌, String, false, none, some, List, length, All,
}
use b46_ordering_app_backend.Base.Keys.{find_key}
use b46_ordering_app_backend.Ordering.Domain.{Time, ClaimedInventoryWork}
use b46_ordering_app_backend.Ordering.Store.Tables.{Env, OutboxRow}

-- A message may be handed out: it is unpublished, due, not under a claim whose lease still runs, and
-- no other transaction holds its row.
pub record Ready (env : Env) (now lease_timeout : Time) (r : OutboxRow) : Type 0 where
  pub waiting : r.published_at ≡ none
  pub due : r.next_attempt_at ≤ now
  pub free :
      (r.locked_at ≡ none) ⊎ ((t : Time) × (r.locked_at ≡ some t) × (t ≤ now - lease_timeout))
  pub not_held : env.locked_elsewhere r.event_id ≡ false

-- The row under a new claim.
abbrev pub leased : Time → String → OutboxRow → OutboxRow
leased now token r = record r {
  locked_at = some now;
  claim_token = some token;
  attempt_count = r.attempt_count + 1;
  last_error_code = none;
}

module _ (env : Env) (now : Time) where
  module _ (R : OutboxRow → Type 0) where
    -- A row of the outbox before, and the row in the outbox after.
    abbrev Taken : List OutboxRow → ClaimedInventoryWork → Type 0
    Taken after w =
        (c : OutboxRow) × R c
        × (w.commit ≡ record {
          event_id = c.payload.event_id;
          operation_id = c.payload.operation_id;
          order_id = c.payload.order_id;
          occurred_at = c.payload.occurred_at;
          items = c.payload.items;
        })
        × (w.attempt_count ≡ c.attempt_count + 1)
        × (find_key OutboxRow.event_id c.event_id after ≡ some (leased now w.claim_token c))

-- The outbox before and after a claim, and the work that was handed out: at most a batch of it, each
-- piece for a message that was ready, with the contents of that message, and the row of the message is
-- now under the claim of the piece. A row of the outbox is either as it was, or it was ready and is
-- under a new claim.
pub record Leases (env : Env) (now lease_timeout : Time) (batch_size : ℕ)
    (before after : List OutboxRow) (work : List ClaimedInventoryWork) : Type 0 where
  pub batch : length work ≤ batch_size
  pub taken : All (Taken env now (Ready env now lease_timeout) after) work
  pub rows :
      (id : String)
      → (find_key OutboxRow.event_id id after ≡ find_key OutboxRow.event_id id before)
        ⊎ ((c : OutboxRow) × (token : String) × Ready env now lease_timeout c
            × (find_key OutboxRow.event_id id before ≡ some c)
            × (find_key OutboxRow.event_id id after ≡ some (leased now token c)))
