-- ===== src/Ordering/Checkout.antt =====
-- services/ordering/internal/ordering/application/service.go: Service.PlaceOrder and its helpers.
-- The clock, the id generator, the catalog, the digest of the canonical JSON and the store are
-- arguments.
pub mod Pricing
pub mod Lines
pub mod Draft
use b46_ordering_app_backend.Base.{
  ℕ, zero, suc, ◌+◌, String, Bool, true, false, not, ◌&&◌, ◌||◌, Option, none, some, List, [], ◌∷◌,
  ◌++◌, Result, ok, err, ◌>>=◌, ◌>>◌, fail_if, or_fail, if◌then◌else◌, ◌=s=◌, ltb, leb, ◌==◌, ℤ,
  pos, negsuc, int_lt, int_eq, add64, sub64, mul64, div64, max_int64, rune_count, byte_len, bytes,
  trim_space, text_lt, length, get_elem?, keep, all_of, find_first, map,
}
use b46_ordering_app_backend.Ordering.Domain.{
  Time, Order, OrderLine, OrderDraft, submitted, CheckoutLine, PlaceOrderCommand, ProductSnapshot,
  PlaceOrderResult, OrderError, invalid_input, cart_changed, technical, wrapped, new_order_id,
  new_event_id, new_operation_id, new_line_id, resolve_products,
}
use b46_ordering_app_backend.Base.Sort.{sort_by}

abbrev pub maximum_checkout_lines : ℕ
maximum_checkout_lines = 100

abbrev pub maximum_line_quantity : ℤ
maximum_line_quantity = pos 100

abbrev dash : ℕ
dash = 45

-- hex.DecodeString accepts a byte.
is_hex : ℕ → Bool
is_hex c = (leb 48 c && leb c 57) || (leb 97 c && leb c 102) || (leb 65 c && leb c 70)

abbrev byte_is : List ℕ → ℕ → ℕ → Bool
byte_is s i b = elim (get_elem? s i) [ none ↦ false | some c ↦ c == b ]

abbrev compact : List ℕ → List ℕ
compact s = keep (λ c. not (c == dash)) s

valid_uuid_bytes : List ℕ → Bool
valid_uuid_bytes s =
    length s == 36
    && byte_is s 8 dash
    && byte_is s 13 dash
    && byte_is s 18 dash
    && byte_is s 23 dash
    && length (compact s) == 32
    && all_of is_hex (compact s)

unfoldable pub valid_uuid : String → Bool
unfolding valid_uuid_bytes is_hex
valid_uuid value = valid_uuid_bytes (bytes value)

-- The line as the map `requested` holds it, with its product id trimmed.
unfoldable pub trimmed_line : CheckoutLine → CheckoutLine
trimmed_line line = record line { product_id = trim_space line.product_id }

-- The range checks on a line whose product id is trimmed.
unfoldable pub line_is_valid : CheckoutLine → Bool
line_is_valid line =
    not (line.product_id =s= "")
    && leb (byte_len line.product_id) 100
    && not (int_lt line.quantity (pos 1))
    && not (int_lt maximum_line_quantity line.quantity)
    && not (int_lt line.expected_unit_price_centavos (pos 0))

unfoldable pub requested_line : String → List CheckoutLine → Option CheckoutLine
requested_line id requested = find_first (λ l. l.product_id =s= id) requested

abbrev is_requested : String → List CheckoutLine → Bool
is_requested id requested = elim (requested_line id requested) [ none ↦ false | some l ↦ true ]

-- The first loop of PlaceOrder; `requested` is the map so far, in the order of insertion.
unfoldable pub collect_lines :
    List CheckoutLine → List CheckoutLine → Result OrderError (List CheckoutLine)
unfolding line_is_valid trimmed_line requested_line
collect_lines [] requested = ok requested
collect_lines (line ∷ lines) requested = do
  let l = trimmed_line line
  fail_if (not (line_is_valid l)) invalid_input
  fail_if (is_requested l.product_id requested) invalid_input
  collect_lines lines (requested ++ l ∷ [])

-- sort.Strings(productIDs), with each id's entry of `requested`.
abbrev by_product_id : CheckoutLine → CheckoutLine → Bool
by_product_id a b = text_lt a.product_id b.product_id

-- `byID`: a later product of the same id replaces an earlier one.
unfoldable pub product_by_id : String → List ProductSnapshot → Option ProductSnapshot
product_by_id id [] = none
product_by_id id (p ∷ ps) = elim (product_by_id id ps) [
  | some q ↦ some q
  | none ↦ if p.product_id =s= id then some p else none
]

-- The cart still shows what the catalog says.
unfoldable pub product_matches : CheckoutLine → ProductSnapshot → Bool
product_matches request product =
    product.orderable
    && int_eq product.unit_price_centavos request.expected_unit_price_centavos
    && not (trim_space product.name =s= "")
    && not (int_lt product.unit_price_centavos (pos 0))

-- One round of the pricing loop: the subtotal after the line.
unfoldable pub price_line : CheckoutLine → ProductSnapshot → ℤ → Result OrderError ℤ
unfolding product_matches
price_line request product subtotal = do
  fail_if (not (product_matches request product)) cart_changed
  fail_if (int_lt (div64 (pos max_int64) request.quantity) product.unit_price_centavos)
      invalid_input
  let line_total = mul64 product.unit_price_centavos request.quantity
  fail_if (int_lt (sub64 (pos max_int64) line_total) subtotal) invalid_input
  ok (add64 subtotal line_total)

unfoldable pub price_lines : List ProductSnapshot → List CheckoutLine → ℤ → Result OrderError ℤ
unfolding price_line product_by_id
price_lines products [] subtotal = ok subtotal
price_lines products (request ∷ requests) subtotal = do
  product ← or_fail (product_by_id request.product_id products) cart_changed
  subtotal' ← price_line request product subtotal
  price_lines products requests subtotal'

-- The k-th call of ids.New().
abbrev pub IdGenerator : Type 0
IdGenerator = ℕ → Option String

abbrev order_line : String → CheckoutLine → ProductSnapshot → OrderLine
order_line line_id request product = record {
  id = line_id;
  product_id = request.product_id;
  product_name = trim_space product.name;
  unit_price_centavos = product.unit_price_centavos;
  quantity = request.quantity;
  line_total_centavos = mul64 product.unit_price_centavos request.quantity;
}

-- `byID[productID]`: the zero value stands for a product that is missing.
unfoldable pub product_or_zero : String → List ProductSnapshot → ProductSnapshot
unfolding product_by_id
product_or_zero id products = elim (product_by_id id products) [
  | some p ↦ p
  | none ↦ record { product_id = ""; name = ""; unit_price_centavos = pos 0; orderable = false }
]

-- The loop that builds the order's lines; the first three ids are the order's own.
unfoldable pub build_lines :
    IdGenerator → ℕ → List ProductSnapshot → List CheckoutLine → Result OrderError (List OrderLine)
unfolding product_or_zero
build_lines ids k products [] = ok []
build_lines ids k products (request ∷ requests) = do
  line_id ← or_fail (ids (3 + k)) (technical (new_line_id k))
  let product = product_or_zero request.product_id products
  lines ← build_lines ids (suc k) products requests
  ok (order_line line_id request product ∷ lines)

-- What checkoutFingerprint encodes as JSON and digests.
pub record CheckoutPayload : Type 0 where
  pub customer_id : String
  pub delivery_address : String
  pub delivery_notes : String
  pub lines : List CheckoutLine

unfoldable pub checkout_payload : PlaceOrderCommand → List CheckoutLine → CheckoutPayload
checkout_payload command sorted = record {
  customer_id = command.customer_id;
  delivery_address = command.delivery_address;
  delivery_notes = command.delivery_notes;
  lines = sorted;
}

-- The guard at the head of PlaceOrder, on a command with trimmed texts.
unfoldable pub command_is_valid : PlaceOrderCommand → Bool
command_is_valid command =
    valid_uuid command.customer_id
    && valid_uuid command.checkout_id
    && not (length command.lines == 0)
    && leb (length command.lines) maximum_checkout_lines
    && not (rune_count command.delivery_address == 0)
    && leb (rune_count command.delivery_address) 500
    && leb (rune_count command.delivery_notes) 500

unfoldable pub trimmed_command : PlaceOrderCommand → PlaceOrderCommand
trimmed_command command = record command {
  delivery_address = trim_space command.delivery_address;
  delivery_notes = trim_space command.delivery_notes;
}

-- Everything that PlaceOrder takes from outside but the store.
pub record Ports : Type 0 where
  pub resolve : List String → Result OrderError (List ProductSnapshot)
  pub ids : IdGenerator
  pub now : Time
  pub digest : CheckoutPayload → String

abbrev draft_order : PlaceOrderCommand → String → ℤ → List OrderLine → Time → Order
draft_order command order_id subtotal lines now = record {
  id = order_id;
  checkout_id = command.checkout_id;
  customer_id = command.customer_id;
  customer_name = "";
  status = submitted;
  rejection_code = "";
  subtotal_centavos = subtotal;
  delivery_fee_centavos = pos 0;
  total_centavos = subtotal;
  delivery_address = command.delivery_address;
  delivery_notes = command.delivery_notes;
  lines = lines;
  fulfillment = none;
  unavailable_items = [];
  created_at = now;
  updated_at = now;
}

abbrev wrap_resolve :
    Result OrderError (List ProductSnapshot) → Result OrderError (List ProductSnapshot)
wrap_resolve (ok products) = ok products
wrap_resolve (err e) = err (wrapped resolve_products e)

-- PlaceOrder up to the call of the store, on a trimmed command.
draft_of_trimmed : Ports → PlaceOrderCommand → Result OrderError OrderDraft
unfolding command_is_valid collect_lines price_lines build_lines checkout_payload
draft_of_trimmed ports command = do
  fail_if (not (command_is_valid command)) invalid_input
  requested ← collect_lines command.lines []
  let sorted = sort_by by_product_id requested
  products ← wrap_resolve (ports.resolve (map (λ l. l.product_id) sorted))
  subtotal ← price_lines products sorted (pos 0)
  order_id ← or_fail (ports.ids 0) (technical new_order_id)
  event_id ← or_fail (ports.ids 1) (technical new_event_id)
  operation_id ← or_fail (ports.ids 2) (technical new_operation_id)
  lines ← build_lines ports.ids 0 products sorted
  ok (record {
    order = draft_order command order_id subtotal lines ports.now;
    checkout_fingerprint = ports.digest (checkout_payload command sorted);
    event_id = event_id;
    operation_id = operation_id;
    occurred_at = ports.now;
  })

unfoldable pub make_draft : Ports → PlaceOrderCommand → Result OrderError OrderDraft
unfolding draft_of_trimmed trimmed_command
make_draft ports command = draft_of_trimmed ports (trimmed_command command)

-- Service.PlaceOrder over any store.
unfoldable pub place_checkout {ℓ} :
    {S : Type ℓ}
    → Ports
    → (OrderDraft → S → Result OrderError PlaceOrderResult × S)
    → PlaceOrderCommand
    → S
    → Result OrderError PlaceOrderResult × S
unfolding make_draft
place_checkout ports store command s = elim (make_draft ports command) [
  | err e ↦ (err e, s)
  | ok draft ↦ store draft s
]
