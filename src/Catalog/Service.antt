-- ===== src/Catalog/Service.antt =====
-- services/ordering/internal/catalog/application/service.go. The answers of the source are a list, one
-- for each page that is asked for; a none is an error. Run calls Sync at every tick.
pub mod Synced
pub mod Ends
use b46_ordering_app_backend.Base.{
  ℕ, ℤ, pos, pos_part, String, Bool, true, false, not, ◌&&◌, ◌||◌, Option, none, some, List, [],
  ◌∷◌, ◌++◌, Result, ok, err, ◌>>=◌, ◌>>◌, fail_if, if◌then◌else◌, int_lt, ◌=s=◌,
}
use b46_ordering_app_backend.Catalog.Domain.{
  Time, CatalogError, technical, wrapped, invalid_input, unavailable, read_source, publish, Product,
  Page, validate_product,
}
use b46_ordering_app_backend.Catalog.Store as Store
use b46_ordering_app_backend.Catalog.Store.{Db, Env, is_among}

-- What the loop has read.
pub record Progress : Type 0 where
  pub after_id : String
  pub seen_cursors : List String
  pub seen_products : List String
  pub products : List Product

abbrev pub nothing_read : Progress
nothing_read = record { after_id = ""; seen_cursors = []; seen_products = []; products = [] }

abbrev pub accept : Product → Progress → Progress
accept p read = record read {
  seen_products = p.id ∷ read.seen_products;
  products = read.products ++ p ∷ [];
}

abbrev pub validated : Result CatalogError (Unit {0}) → Result CatalogError (Unit {0})
validated (ok u) = ok tt
validated (err e) = err (wrapped read_source e)

-- The loop over the products of a page.
unfoldable pub read_products :
    (String → Bool) → List Product → Progress → Result CatalogError Progress
read_products parses [] read = ok read
read_products parses (p ∷ products) read = do
  validated (validate_product parses p)
  fail_if (is_among read.seen_products p.id) unavailable
  read_products parses products (accept p read)

abbrev pub follow : String → Progress → Progress
follow cursor read = record read { after_id = cursor; seen_cursors = cursor ∷ read.seen_cursors }

abbrev pub repeats : String → Progress → Bool
repeats cursor read = is_among read.seen_cursors cursor || cursor =s= read.after_id

-- The loop over the pages; a none is a source that is still to answer.
unfoldable pub read_pages :
    (String → Bool) → List (Option Page) → Progress → Option (Result CatalogError (List Product))
read_pages parses [] read = none
read_pages parses (none ∷ answers) read = some (err (technical read_source))
read_pages parses (some page ∷ answers) read = elim (read_products parses page.products read) [
  | err e ↦ some (err e)
  | ok more ↦
      if page.next_after_id =s= ""
      then some (ok more.products)
      else if repeats page.next_after_id more
      then some (err unavailable)
      else read_pages parses answers (follow page.next_after_id more)
]

abbrev pub publishing : Result CatalogError (Unit {0}) × Db → Result CatalogError (Unit {0}) × Db
publishing (ok u, db) = (ok tt, db)
publishing (err e, db) = (err (wrapped publish e), db)

abbrev pub published :
    (String → Bool)
    → Env
    → Time
    → Db
    → Option (Result CatalogError (List Product))
    → Option (Result CatalogError (Unit {0}) × Db)
published parses env now db none = none
published parses env now db (some (err e)) = some (err e, db)
published parses env now db (some (ok products)) =
    some (publishing (Store.replace_snapshot parses env products now db))

unfoldable pub sync :
    (String → Bool)
    → List (Option Page)
    → Env
    → Time
    → Db
    → Option (Result CatalogError (Unit {0}) × Db)
unfolding read_pages
sync parses answers env now db =
    published parses env now db (read_pages parses answers nothing_read)

unfoldable pub list_products : Env → ℤ → String → ℤ → Db → Result CatalogError Page
list_products env limit after_id revision db = do
  fail_if (int_lt limit (pos 1) || int_lt (pos 100) limit || int_lt revision (pos 0)) invalid_input
  Store.products env (pos_part limit) after_id (pos_part revision) db
