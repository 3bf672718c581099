-- ===== src/Tests/Checkout.antt =====
-- A checkout of two lines, and the theorems about the service applied to it.
use b46_ordering_app_backend.Base.{
  ℕ, zero, suc, ◌≤◌, ◌≡◌, ◌↔◌, ◌⊎◌, refl, String, true, false, none, some, List, [], ◌∷◌, ◌++◌, ok,
  pos, All, map, bytes, keep, all_of, rune_count, trim_space, byte_len, find_first, text_lt, div64,
  sub64, wrap64, mul64, add64, arith,
}
use b46_ordering_app_backend.Base.Keys.{Distinct}
use b46_ordering_app_backend.Ordering.Domain.{
  OrderDraft, CheckoutLine, PlaceOrderCommand, ProductSnapshot, submitted, delivering, delivered,
  validate_fulfillment_target, Fulfillment, next_action,
}
use b46_ordering_app_backend.Ordering.Domain.Lifecycle.{
  rank, validate_fulfillment_target_iff, next_action_allowed,
}
use b46_ordering_app_backend.Base.Sort.{sort_by}
use b46_ordering_app_backend.Ordering.Checkout.{
  Ports, valid_uuid, make_draft, collect_lines, trimmed_line,
}
use b46_ordering_app_backend.Ordering.Checkout.Pricing.{IsValidLine}
use b46_ordering_app_backend.Ordering.Checkout.Lines.{line_key, collect_lines-ok}
use b46_ordering_app_backend.Ordering.Checkout.Draft.{IsSound, make_draft-IsSound}
use b46_ordering_app_backend.Ordering.Worker.{WorkerConfig, retry_delay}
use b46_ordering_app_backend.Ordering.Worker.Retry.{retry_delay_lem}

abbrev pub customer : String
customer = "11111111-1111-4111-8111-111111111111"

abbrev pub checkout : String
checkout = "22222222-2222-4222-8222-222222222222"

abbrev cart : List CheckoutLine
cart =
    record { product_id = " tea "; quantity = pos 2; expected_unit_price_centavos = pos 1500 }
    ∷ record { product_id = "bun"; quantity = pos 3; expected_unit_price_centavos = pos 900 }
    ∷ []

abbrev pub cart_command : PlaceOrderCommand
cart_command = record {
  customer_id = customer;
  checkout_id = checkout;
  lines = cart;
  delivery_address = " 5 Main Street ";
  delivery_notes = "";
}

abbrev catalog : List ProductSnapshot
catalog =
    record { product_id = "bun"; name = "Bun"; unit_price_centavos = pos 900; orderable = true }
    ∷ record {
      product_id = "tea";
      name = " Tea ";
      unit_price_centavos = pos 1500;
      orderable = true;
    }
    ∷ []

abbrev id_text : ℕ → String
id_text zero = "order-1"
id_text (suc zero) = "event-1"
id_text (suc (suc zero)) = "operation-1"
id_text (suc (suc (suc zero))) = "line-1"
id_text (suc (suc (suc (suc k)))) = "line-2"

abbrev pub shop : Ports
shop = record {
  resolve = λ ids. ok catalog;
  ids = λ k. some (id_text k);
  now = 100;
  digest = λ payload. payload.delivery_address;
}

abbrev pub cart_draft : OrderDraft
cart_draft = record {
  order = record {
    id = "order-1";
    checkout_id = checkout;
    customer_id = customer;
    customer_name = "";
    status = submitted;
    rejection_code = "";
    subtotal_centavos = pos 5700;
    delivery_fee_centavos = pos 0;
    total_centavos = pos 5700;
    delivery_address = "5 Main Street";
    delivery_notes = "";
    lines =
        record {
          id = "line-1";
          product_id = "bun";
          product_name = "Bun";
          unit_price_centavos = pos 900;
          quantity = pos 3;
          line_total_centavos = pos 2700;
        }
        ∷ record {
          id = "line-2";
          product_id = "tea";
          product_name = "Tea";
          unit_price_centavos = pos 1500;
          quantity = pos 2;
          line_total_centavos = pos 3000;
        }
        ∷ [];
    fulfillment = none;
    unavailable_items = [];
    created_at = 100;
    updated_at = 100;
  };
  checkout_fingerprint = "5 Main Street";
  event_id = "event-1";
  operation_id = "operation-1";
  occurred_at = 100;
}

cart_draft_run : make_draft shop cart_command ≡ ok cart_draft
unfolding make_draft valid_uuid bytes keep all_of rune_count trim_space byte_len find_first sort_by
    text_lt div64 sub64 wrap64 mul64 add64
cart_draft_run = refl

make_draft-IsSound_example : IsSound cart_draft.order
make_draft-IsSound_example = make_draft-IsSound shop cart_command cart_draft cart_draft_run

cart_run : collect_lines cart [] ≡ ok (map trimmed_line cart)
unfolding collect_lines trimmed_line trim_space byte_len find_first
cart_run = refl

collect_lines-ok_example :
    All IsValidLine (map trimmed_line cart)
    × Distinct line_key (map trimmed_line cart)
    × (map trimmed_line cart ≡ [] ++ map trimmed_line cart)
collect_lines-ok_example = collect_lines-ok cart [] tt tt cart_run

validate_fulfillment_target_iff_example :
    (validate_fulfillment_target delivering delivered ≡ ok tt)
    ↔ ((rank delivered ≡ 3) ⊎ ((delivered ≡ delivering) × (2 ≤ rank delivering)))
validate_fulfillment_target_iff_example =
    validate_fulfillment_target_iff delivering delivered (omega arith)

abbrev on_its_way : Fulfillment
on_its_way = record {
  status = delivering;
  version = 2;
  unread = false;
  preparing_at = 100;
  delivering_at = some 200;
  delivered_at = none;
  cashier_read_at = some 150;
  cashier_read_by = "cashier";
  updated_by = "cashier";
}

next_action_allowed_example :
    (validate_fulfillment_target delivering (next_action on_its_way) ≡ ok tt)
    × (rank (next_action on_its_way) ≡ 3)
next_action_allowed_example = next_action_allowed on_its_way (omega arith) (λ e. cc e)

abbrev worker_config : WorkerConfig
worker_config = record {
  batch_size = 10;
  lease_timeout = 60;
  retry_base = pos 5;
  retry_max = pos 300;
}

retry_delay_lem_example : retry_delay worker_config 4 ≡ pos 40
retry_delay_lem_example = retry_delay_lem worker_config 5 300 4 refl refl (omega arith)
