-- ===== src/Catalog/Domain.antt =====
-- services/ordering/internal/catalog/domain/product.go. uuid.Parse is the argument `parses_uuid`.
use b46_ordering_app_backend.Base.{
  ℕ, ℤ, pos, String, Bool, ◌||◌, not, List, Result, fail_if, int_lt, ◌==◌, ◌=s=◌, trim_space,
}

abbrev pub Time : Type 0
Time = ℕ

pub data Step : Type 0 where
  begin_tx commit_tx reserve_revision retain_missing prune complete : Step
  read_revision check_snapshot list_rows resolve_rows read_source publish : Step
  insert_product : String → Step

pub data CatalogError : Type 0 where
  invalid_input unavailable snapshot_expired : CatalogError
  technical : Step → CatalogError
  wrapped : Step → CatalogError → CatalogError

pub record Product : Type 0 where
  pub id : String
  pub name : String
  pub description : String
  pub price_centavos : ℤ
  pub category_id : String
  pub category_name : String
  pub image_url : String
  pub available : Bool
  pub source_updated_at : Time
  pub revision : ℕ

pub record Page : Type 0 where
  pub products : List Product
  pub snapshot_revision : ℕ
  pub next_after_id : String

abbrev is_blank : String → Bool
is_blank s = trim_space s =s= ""

unfoldable pub validate_product : (String → Bool) → Product → Result CatalogError (Unit {0})
validate_product parses_uuid p =
    fail_if
      (is_blank p.id
        || is_blank p.name
        || is_blank p.category_id
        || is_blank p.category_name
        || int_lt p.price_centavos (pos 0)
        || p.source_updated_at == 0
        || not (parses_uuid p.id)
        || not (parses_uuid p.category_id))
      invalid_input
