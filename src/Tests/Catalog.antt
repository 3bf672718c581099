-- ===== src/Tests/Catalog.antt =====
-- A catalog read from its source and published, and the theorems about it applied there.
use b46_ordering_app_backend.Base.{
  ◌≡◌, ◌≢◌, refl, pos, String, Bool, true, false, Option, none, some, List, [], ◌∷◌, ok, All,
  find_first, trim_space, arith, ◌=s=◌, ◌==◌, ◌&&◌,
}
use b46_ordering_app_backend.Base.Keys.{Distinct}
use b46_ordering_app_backend.Catalog.Domain.{Product, Page, validate_product}
use b46_ordering_app_backend.Catalog.Store.{Db, Env, row_of, has_row, replace_snapshot}
use b46_ordering_app_backend.Catalog.Store.Lookup.{WasImage, replace_snapshot-lists}
use b46_ordering_app_backend.Catalog.Store.Published.{Between, replace_snapshot-retains}
use b46_ordering_app_backend.Catalog.Service.{read_pages, nothing_read}
use b46_ordering_app_backend.Catalog.Service.Synced.{Valid, read_pages-IsSound}
use b46_ordering_app_backend.Catalog.Service.Ends.{FromPool, read_pages-ends}

abbrev coffee : Product
coffee = record {
  id = "p1";
  name = "Coffee";
  description = "";
  price_centavos = pos 9000;
  category_id = "c1";
  category_name = "Drinks";
  image_url = "";
  available = true;
  source_updated_at = 5;
  revision = 0;
}

abbrev tea : Product
tea = record coffee { id = "p2"; name = "Tea" }

abbrev parses : String → Bool
parses id = true

abbrev answers : List (Option Page)
answers =
    some (record { products = coffee ∷ []; snapshot_revision = 0; next_after_id = "p1" })
    ∷ some (record { products = tea ∷ []; snapshot_revision = 0; next_after_id = "" })
    ∷ []

all_read : read_pages parses answers nothing_read ≡ some (ok (coffee ∷ tea ∷ []))
unfolding read_pages b46_ordering_app_backend.Catalog.Service.read_products validate_product
    trim_space find_first
all_read = refl

read_pages-IsSound_example :
    All (Valid parses) (coffee ∷ tea ∷ []) × Distinct Product.id (coffee ∷ tea ∷ [])
read_pages-IsSound_example = read_pages-IsSound parses answers (coffee ∷ tea ∷ []) all_read

pooled : All (FromPool ("p1" ∷ [])) answers
unfolding find_first
pooled = (refl, (refl, tt))

read_pages-ends_example : read_pages parses answers nothing_read ≢ none
read_pages-ends_example = read_pages-ends parses answers ("p1" ∷ []) pooled (omega arith)

abbrev steady : Env
steady = record { fails = λ s. false; commit_applied = true }

abbrev with_coffee : Db
with_coffee = record {
  products = row_of 3 (some "coffee.png") coffee ∷ [];
  current_revision = 3;
  last_completed_at = some 10;
}

published : (replace_snapshot parses steady (tea ∷ []) 20 with_coffee).0 ≡ ok tt
unfolding replace_snapshot validate_product trim_space find_first
published = refl

coffee_there : has_row 3 "p1" with_coffee.products ≡ true
unfolding find_first
coffee_there = refl

replace_snapshot-retains_example :
    ((replace_snapshot parses steady (tea ∷ []) 20 with_coffee).1.current_revision ≡ 4)
    × (has_row 4 "p1" (replace_snapshot parses steady (tea ∷ []) 20 with_coffee).1.products ≡ true)
    × All (Between 3 4) (replace_snapshot parses steady (tea ∷ []) 20 with_coffee).1.products
replace_snapshot-retains_example =
    replace_snapshot-retains parses steady (tea ∷ []) 20 "p1" with_coffee published coffee_there
      (omega arith, tt)

abbrev large_coffee : Product
large_coffee = record coffee { name = "Large coffee"; price_centavos = pos 12000 }

both_published : (replace_snapshot parses steady (tea ∷ large_coffee ∷ []) 20 with_coffee).0 ≡ ok tt
unfolding replace_snapshot validate_product trim_space find_first
both_published = refl

named_coffee : find_first (λ q. q.id =s= "p1") (tea ∷ large_coffee ∷ []) ≡ some large_coffee
unfolding find_first
named_coffee = refl

replace_snapshot-lists_example :
    (image : Option String) × WasImage "p1" with_coffee.products image
    × (find_first
          (λ r. r.catalog_revision == 4 && r.product_id =s= "p1")
          (replace_snapshot parses steady (tea ∷ large_coffee ∷ []) 20 with_coffee).1.products
        ≡ some (row_of 4 image large_coffee))
replace_snapshot-lists_example =
    replace_snapshot-lists parses steady (tea ∷ large_coffee ∷ []) 20 "p1" large_coffee with_coffee
      both_published named_coffee
