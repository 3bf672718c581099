-- ===== src/Catalog/Store.antt =====
-- services/ordering/internal/catalog/adapters/postgres/store.go. Ids are canonical texts of uuids, whose
-- order is the order of the uuids. The columns that no statement reads back are left out.
pub mod Published
pub mod Lookup
use b46_ordering_app_backend.Base.{
  ℕ, suc, ◌+◌, ◌-◌, String, Bool, true, false, not, ◌&&◌, ◌||◌, Option, none, some, List, [], ◌∷◌,
  ◌++◌, Result, ok, err, ◌>>=◌, ◌>>◌, fail_if, if◌then◌else◌, ltb, leb, ◌==◌, ◌=s=◌, ℤ, map, length,
  take, keep, find_first, text_lt,
}
use b46_ordering_app_backend.Base.Sort.{sort_by}
use b46_ordering_app_backend.Catalog.Domain.{
  Time, Step, CatalogError, technical, snapshot_expired, begin_tx, commit_tx, reserve_revision,
  retain_missing, prune, complete, read_revision, check_snapshot, list_rows, resolve_rows,
  insert_product, Product, Page, validate_product,
}

pub record ProductRow : Type 0 where
  pub product_id : String
  pub name : String
  pub description : String
  pub price_centavos : ℤ
  pub category_id : String
  pub category_name : String
  pub image_url : Option String
  pub available : Bool
  pub source_updated_at : Time
  pub catalog_revision : ℕ

-- The products, and the one row of `catalog_sync_state`.
pub record Db : Type 0 where
  pub products : List ProductRow
  pub current_revision : ℕ
  pub last_completed_at : Option Time

-- Which steps fail for a technical reason, and whether a commit that reported an error took effect.
pub record Env : Type 0 where
  pub fails : Step → Bool
  pub commit_applied : Bool

abbrev pub attempt : Env → Step → Result CatalogError (Unit {0})
attempt env s = if env.fails s then err (technical s) else ok tt

abbrev pub is_some {ℓ} : {A : Type ℓ} → Option A → Bool
is_some none = false
is_some (some a) = true

-- `ORDER BY catalog_revision DESC LIMIT 1`.
abbrev pub newest : List ProductRow → Option ProductRow
newest rows =
    find_first (λ r. true) (sort_by (λ a b. ltb b.catalog_revision a.catalog_revision) rows)

abbrev pub image_of : Option ProductRow → Option String
image_of none = none
image_of (some r) = r.image_url

abbrev pub row_of : ℕ → Option String → Product → ProductRow
row_of revision image p = record {
  product_id = p.id;
  name = p.name;
  description = p.description;
  price_centavos = p.price_centavos;
  category_id = p.category_id;
  category_name = p.category_name;
  image_url = image;
  available = p.available;
  source_updated_at = p.source_updated_at;
  catalog_revision = revision;
}

-- The image that a product had in the newest snapshot.
unfoldable pub last_image : String → List ProductRow → Option String
last_image id rows = image_of (newest (keep (λ r. r.product_id =s= id) rows))

abbrev pub has_row : ℕ → String → List ProductRow → Bool
has_row revision id rows =
    is_some (find_first (λ r. r.catalog_revision == revision && r.product_id =s= id) rows)

-- The loop over the products; `PRIMARY KEY (catalog_revision, product_id)`.
unfoldable pub insert_products :
    (String → Bool)
    → Env
    → ℕ
    → List Product
    → List ProductRow
    → Result CatalogError (List ProductRow)
unfolding last_image
insert_products parses env revision [] rows = ok rows
insert_products parses env revision (p ∷ products) rows = do
  validate_product parses p
  attempt env (insert_product p.id)
  fail_if (has_row revision p.id rows) (technical (insert_product p.id))
  insert_products parses env revision products
      (rows ++ row_of revision (last_image p.id rows) p ∷ [])

abbrev pub retired : ℕ → ProductRow → ProductRow
retired revision r = record r { available = false; catalog_revision = revision }

-- `previous.catalog_revision = $1 - 1 AND NOT EXISTS (...)`.
abbrev pub is_missing : ℕ → List ProductRow → ProductRow → Bool
is_missing revision rows r =
    (r.catalog_revision + 1 == revision) && not (has_row revision r.product_id rows)

unfoldable pub replace_body :
    (String → Bool) → Env → List Product → Time → Db → Result CatalogError Db
unfolding insert_products
replace_body parses env products now db = do
  attempt env reserve_revision
  let revision = suc db.current_revision
  rows ← insert_products parses env revision products db.products
  attempt env retain_missing
  let retained = rows ++ map (retired revision) (keep (is_missing revision rows) rows)
  attempt env prune
  let kept = keep (λ r. not (ltb r.catalog_revision (revision - 1))) retained
  attempt env complete
  ok (record { products = kept; current_revision = revision; last_completed_at = some now })

unfoldable pub finish : Env → Db → Result CatalogError Db → Result CatalogError (Unit {0}) × Db
finish env before (err e) = (err e, before)
finish env before (ok after) =
    if env.fails commit_tx
    then (err (technical commit_tx), if env.commit_applied then after else before)
    else (ok tt, after)

unfoldable pub replace_snapshot :
    (String → Bool) → Env → List Product → Time → Db → Result CatalogError (Unit {0}) × Db
unfolding replace_body finish
replace_snapshot parses env products now db =
    if env.fails begin_tx
    then (err (technical begin_tx), db)
    else finish env db (replace_body parses env products now db)

abbrev pub text_or_empty : Option String → String
text_or_empty none = ""
text_or_empty (some s) = s

-- scanProducts.
abbrev pub product_of : ProductRow → Product
product_of r = record {
  id = r.product_id;
  name = r.name;
  description = r.description;
  price_centavos = r.price_centavos;
  category_id = r.category_id;
  category_name = r.category_name;
  image_url = text_or_empty r.image_url;
  available = r.available;
  source_updated_at = r.source_updated_at;
  revision = r.catalog_revision;
}

abbrev pub in_snapshot : ℕ → ProductRow → Bool
in_snapshot revision r = r.catalog_revision == revision

abbrev pub by_id : ProductRow → ProductRow → Bool
by_id a b = text_lt a.product_id b.product_id

-- `catalog_revision = $1 AND ($2 = '' OR product_id > $2::uuid) ORDER BY product_id`.
unfoldable pub rows_after : ℕ → String → Db → List Product
rows_after snapshot after_id db = map product_of (
    sort_by by_id (
      keep (λ r. in_snapshot snapshot r && (after_id =s= "" || text_lt after_id r.product_id))
        db.products))

abbrev pub last_id : List Product → String
last_id [] = ""
last_id (p ∷ []) = p.id
last_id (p ∷ q ∷ products) = last_id (q ∷ products)

-- The end of Products, with up to `limit + 1` rows at hand.
unfoldable pub page_of : ℕ → ℕ → List Product → Page
page_of limit snapshot products =
    if ltb limit (length products)
    then record {
      products = take limit products;
      snapshot_revision = snapshot;
      next_after_id = last_id (take limit products);
    }
    else record { products = products; snapshot_revision = snapshot; next_after_id = "" }

unfoldable pub products_of : Env → ℕ → String → ℕ → Db → Result CatalogError Page
unfolding rows_after page_of
products_of env limit after_id snapshot db = do
  attempt env check_snapshot
  fail_if (not (is_some (find_first (in_snapshot snapshot) db.products))) snapshot_expired
  attempt env list_rows
  ok (page_of limit snapshot (take (limit + 1) (rows_after snapshot after_id db)))

-- Products; the revision 0 is the current one.
unfoldable pub products : Env → ℕ → String → ℕ → Db → Result CatalogError Page
unfolding products_of
products env limit after_id snapshot db =
    if snapshot == 0
    then attempt env read_revision >> products_of env limit after_id db.current_revision db
    else products_of env limit after_id snapshot db

abbrev pub is_among : List String → String → Bool
is_among ids id = is_some (find_first (λ i. i =s= id) ids)

unfoldable pub resolve : Env → List String → Db → Result CatalogError (List Product)
resolve env [] db = ok []
resolve env (id ∷ ids) db = do
  attempt env resolve_rows
  ok (
      map product_of (
        sort_by by_id (
          keep (λ r. in_snapshot db.current_revision r && is_among (id ∷ ids) r.product_id)
            db.products)))
