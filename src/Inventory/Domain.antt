-- ===== src/Inventory/Domain.antt =====
-- services/inventory-adapter/internal/inventory/domain/commit.go and catalog.go.
-- A `uuid.UUID` is its canonical text, which `String` of the uuid package returns, so that
-- `uuid.Nil` is the text of zeros.
pub mod Validity
use b46_ordering_app_backend.Base.{
  ℕ, String, Bool, true, false, not, ◌&&◌, ◌||◌, Option, none, some, List, [], ◌∷◌, Result, ok, err,
  ◌>>=◌, ◌>>◌, fail_if, if◌then◌else◌, ◌=s=◌, ltb, ◌==◌, ℤ, pos, int_lt, trim_space, text_lt,
  concat, length, find_first, all_of,
}
use b46_ordering_app_backend.Base.Sort.{sort_by}

-- Nanoseconds since the zero time of `time.Time`.
abbrev pub Time : Type 0
Time = ℕ

abbrev pub nil_uuid : String
nil_uuid = "00000000-0000-0000-0000-000000000000"

abbrev pub schema_version_1 : String
schema_version_1 = "1.0"

pub data InventoryError : Type 0 where
  invalid_input operation_conflict store_unavailable invalid_catalog_query : InventoryError

pub data ResultStatus : Type 0 where
  committed items_unavailable : ResultStatus
  other_status : String → ResultStatus

pub record Line : Type 0 where
  pub order_line_id : String
  pub product_id : String
  pub quantity : ℤ

pub record CommitCommand : Type 0 where
  pub schema_version : String
  pub event_id : String
  pub operation_id : String
  pub order_id : String
  pub occurred_at : Time
  pub lines : List Line

pub record UnavailableItem : Type 0 where
  pub order_line_id : String
  pub product_id : String
  pub requested_quantity : ℤ
  pub available_quantity : ℤ

pub record CommitResult : Type 0 where
  pub schema_version : String
  pub event_id : String
  pub operation_id : String
  pub order_id : String
  pub status : ResultStatus
  pub occurred_at : Time
  pub unavailable_items : List UnavailableItem

abbrev pub is_nil : String → Bool
is_nil id = id =s= nil_uuid

-- The map `lineIDs` or `productIDs` as the list of its keys.
unfoldable pub member : String → List String → Bool
member id [] = false
member id (k ∷ ks) = k =s= id || member id ks

abbrev pub quantity_is_valid : ℤ → Bool
quantity_is_valid q = not (int_lt q (pos 1)) && not (int_lt (pos 100) q)

-- The loop of CommitCommand.Validate.
unfoldable pub validate_lines :
    List Line → List String → List String → Result InventoryError (Unit {0})
unfolding member
validate_lines [] line_ids product_ids = ok tt
validate_lines (line ∷ lines) line_ids product_ids = do
  fail_if (is_nil line.order_line_id || is_nil line.product_id) invalid_input
  fail_if (not (quantity_is_valid line.quantity)) invalid_input
  fail_if (member line.order_line_id line_ids) invalid_input
  fail_if (member line.product_id product_ids) invalid_input
  validate_lines lines (line.order_line_id ∷ line_ids) (line.product_id ∷ product_ids)

-- CommitCommand.Validate.
unfoldable pub validate_command : CommitCommand → Result InventoryError (Unit {0})
unfolding validate_lines
validate_command command = do
  fail_if (not (command.schema_version =s= schema_version_1)) invalid_input
  fail_if (is_nil command.event_id || is_nil command.operation_id || is_nil command.order_id)
      invalid_input
  fail_if (command.occurred_at == 0) invalid_input
  fail_if (ltb (length command.lines) 1 || ltb 100 (length command.lines)) invalid_input
  validate_lines command.lines [] []

-- What the fingerprint takes from other packages: the hexadecimal sha256 of a text, RFC 3339 times
-- and decimal numbers.
pub record Digest : Type 0 where
  pub sha256_hex : String → String
  pub time_text : Time → String
  pub decimal : ℤ → String

abbrev by_order_line_id : Line → Line → Bool
by_order_line_id a b = text_lt a.order_line_id b.order_line_id

line_texts : Digest → List Line → String
line_texts d [] = ""
line_texts d (line ∷ lines) = concat "|" (
    concat line.order_line_id (
      concat ":" (
        concat line.product_id
          (concat ":" (concat (d.decimal line.quantity) (line_texts d lines))))))

canonical_text : Digest → CommitCommand → String
unfolding line_texts
canonical_text d command = concat command.schema_version (
    concat "|" (
      concat command.event_id (
        concat "|" (
          concat command.operation_id (
            concat "|" (
              concat command.order_id (
                concat "|" (
                  concat (d.time_text command.occurred_at)
                    (line_texts d (sort_by by_order_line_id command.lines))))))))))

-- CommitCommand.Fingerprint.
unfoldable pub fingerprint : Digest → CommitCommand → Result InventoryError String
unfolding validate_command canonical_text
fingerprint d command = do validate_command command; ok (d.sha256_hex (canonical_text d command))

abbrev unavailable_is_valid : UnavailableItem → Bool
unavailable_is_valid item = not (
    is_nil item.order_line_id
    || is_nil item.product_id
    || int_lt item.requested_quantity (pos 1)
    || int_lt item.available_quantity (pos 0))

-- The loop of CommitResult.Validate.
unfoldable pub validate_unavailable :
    List UnavailableItem → List String → Result InventoryError (Unit {0})
unfolding member
validate_unavailable [] line_ids = ok tt
validate_unavailable (item ∷ items) line_ids = do
  fail_if (not (unavailable_is_valid item)) invalid_input
  fail_if (member item.order_line_id line_ids) invalid_input
  validate_unavailable items (item.order_line_id ∷ line_ids)

validate_status : ResultStatus → List UnavailableItem → Result InventoryError (Unit {0})
unfolding validate_unavailable
validate_status committed items = fail_if (not (length items == 0)) invalid_input
validate_status items_unavailable items = do
  fail_if (length items == 0) invalid_input
  validate_unavailable items []
validate_status (other_status s) items = err invalid_input

-- CommitResult.Validate.
unfoldable pub validate_result : CommitResult → Result InventoryError (Unit {0})
unfolding validate_status
validate_result result = do
  fail_if
      (not (result.schema_version =s= schema_version_1)
        || is_nil result.event_id
        || is_nil result.operation_id
        || is_nil result.order_id
        || result.occurred_at == 0)
      invalid_input
  validate_status result.status result.unavailable_items

pub record CatalogQuery : Type 0 where
  pub limit : ℤ
  pub after_id : String

pub record CatalogProduct : Type 0 where
  pub product_id : String
  pub name : String
  pub description : String
  pub price_centavos : ℤ
  pub category_id : String
  pub category_name : String
  pub available : Bool
  pub source_updated_at : Time

-- `next_after_id` is `uuid.Nil` on the last page.
pub record CatalogPage : Type 0 where
  pub products : List CatalogProduct
  pub next_after_id : String

-- CatalogQuery.Validate.
unfoldable pub validate_query : CatalogQuery → Result InventoryError (Unit {0})
validate_query query =
    fail_if (int_lt query.limit (pos 1) || int_lt (pos 100) query.limit) invalid_catalog_query

abbrev product_is_valid : CatalogProduct → Bool
product_is_valid product = not (
    is_nil product.product_id
    || is_nil product.category_id
    || trim_space product.name =s= ""
    || trim_space product.category_name =s= ""
    || int_lt product.price_centavos (pos 0)
    || product.source_updated_at == 0)

-- CatalogPage.Validate.
unfoldable pub validate_page : CatalogPage → Result InventoryError (Unit {0})
validate_page page = do
  fail_if (ltb 100 (length page.products)) invalid_catalog_query
  fail_if (not (all_of product_is_valid page.products)) invalid_catalog_query
  ok tt
