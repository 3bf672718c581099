-- ===== src/Catalog/Store/Lookup.antt =====
-- What the tables say of a product after its snapshot was published.
use b46_ordering_app_backend.Base.{
  ℕ, suc, ◌-◌, ◌≡◌, inl, inr, refl, sym, ◌∙◌, ap, subst, String, Bool, true, false, not, ◌&&◌, List,
  [], ◌∷◌, ◌++◌, Option, none, some, ok, bind_ok, ok-injective, arith, eq_iff, Bool-cases, ltb,
  ◌==◌, ◌=s=◌, map, keep, find_first, fail_if, passed, eq_refl,
}
use b46_ordering_app_backend.Base.{◌≤◌, ◌⊎◌, refl, All}
use b46_ordering_app_backend.Base.Sort.{sort_by}
use b46_ordering_app_backend.Base.Newest.{
  Among, descending, HasFirst, sort_by-HasFirst, sort_by-All_back, sort_by-Among, keep-Among,
  keep-All_back,
}
use b46_ordering_app_backend.Base.Rows.{find_first-snoc, All-weaker}
use b46_ordering_app_backend.Catalog.Domain.{
  Time, Product, technical, reserve_revision, retain_missing, prune, complete, insert_product,
  validate_product,
}
use b46_ordering_app_backend.Catalog.Store.{
  ProductRow, Db, Env, attempt, is_some, has_row, row_of, last_image, image_of, newest,
  insert_products, retired, is_missing, replace_body, replace_snapshot,
}
use b46_ordering_app_backend.Catalog.Store.Published.{replaced}

module _ {ℓ} {A : Type ℓ} where
  same_value : {a b : A} → some a ≡ some b → a ≡ b
  same_value h = cc

  still_found :
      (p : A → Bool) (xs ys : List A) (a : A)
      → find_first p xs ≡ some a
      → find_first p (xs ++ ys) ≡ some a
  unfolding find_first
  still_found p [] ys a h = absurd (cc)
  still_found p (x ∷ xs) ys a h = elim (Bool-cases (p x)) [
    | inl e ↦ rw e (rw e at h)
    | inr e ↦ rw e (still_found p xs ys a (rw e at h))
  ]

  not_found :
      (p : A → Bool) (xs : List A) → is_some (find_first p xs) ≡ false → find_first p xs ≡ none
  not_found p xs h = none_of (find_first p xs) h
    where
      none_of : (o : Option A) → is_some o ≡ false → o ≡ none
      none_of none h = refl
      none_of (some a) h = absurd (cc)

  found_among_kept :
      (p q : A → Bool) (xs : List A) (a : A)
      → ((x : A) → p x ≡ true → q x ≡ true)
      → find_first p xs ≡ some a
      → find_first p (keep q xs) ≡ some a
  unfolding find_first keep
  found_among_kept p q [] a passes h = h
  found_among_kept p q (x ∷ xs) a passes h = elim (Bool-cases (p x)) [
    | inl e ↦ rw (passes x e, e) (rw e at h)
    | inr e ↦ elim (Bool-cases (q x)) [
      | inl t ↦ rw (t, e) (found_among_kept p q xs a passes (rw e at h))
      | inr t ↦ rw t (found_among_kept p q xs a passes (rw e at h))
    ]
  ]

  keep_passed_over :
      (q : A → Bool) (xs : List A) (a : A) → q a ≡ false → keep q (xs ++ a ∷ []) ≡ keep q xs
  unfolding keep
  keep_passed_over q [] a e = rw e
  keep_passed_over q (x ∷ xs) a e = rw (keep_passed_over q xs a e)

-- The test for the row of a product in a revision.
abbrev pub is_row : ℕ → String → ProductRow → Bool
is_row revision id r = r.catalog_revision == revision && r.product_id =s= id

-- The loop leaves the rows that are there already the first ones.
insert_products_after :
    (parses : String → Bool) (env : Env) (revision : ℕ) (products : List Product)
    (rows : List ProductRow) (p : ProductRow → Bool) (r : ProductRow) {after : List ProductRow}
    → insert_products parses env revision products rows ≡ ok after
    → find_first p rows ≡ some r
    → find_first p after ≡ some r
unfolding insert_products
insert_products_after parses env revision [] rows p r h found =
    subst (λ l. find_first p l ≡ some r) (ok-injective h) found
insert_products_after parses env revision (x ∷ products) rows p r h found =
    bind_ok (validate_product parses x) h λ u1 e1 h1.
      bind_ok (attempt env (insert_product x.id)) h1 λ u2 e2 h2.
        bind_ok (fail_if (has_row revision x.id rows) (technical (insert_product x.id))) h2
          λ u3 e3 h3.
            insert_products_after parses env revision products
              (rows ++ row_of revision (last_image x.id rows) x ∷ []) p r h3
              (still_found p rows (row_of revision (last_image x.id rows) x ∷ []) r found)

-- The loop adds each product with its values, and with the image that it had before.
insert_products_lists :
    (parses : String → Bool) (env : Env) (revision : ℕ) (products : List Product)
    (rows : List ProductRow) (id : String) (p : Product) {after : List ProductRow}
    → insert_products parses env revision products rows ≡ ok after
    → find_first (λ q. q.id =s= id) products ≡ some p
    → find_first (is_row revision id) after ≡ some (row_of revision (last_image id rows) p)
unfolding insert_products find_first last_image
insert_products_lists parses env revision [] rows id p {after} h named = absurd (cc)
insert_products_lists parses env revision (x ∷ products) rows id p {after} h named =
    let row = row_of revision (last_image x.id rows) x in
    bind_ok (validate_product parses x) h λ u1 e1 h1.
      bind_ok (attempt env (insert_product x.id)) h1 λ u2 e2 h2.
        bind_ok (fail_if (has_row revision x.id rows) (technical (insert_product x.id))) h2
          λ u3 e3 h3. elim (Bool-cases (x.id =s= id)) [
            | inl same ↦
                let fresh = not_found (is_row revision x.id) rows (passed _ _ e3) in
                let first =
                  find_first-snoc (is_row revision x.id) rows row fresh
                    (ground (arith, eq_refl x.id)) in
                let found =
                  insert_products_after parses env revision products (rows ++ row ∷ [])
                    (is_row revision x.id) row h3 first in
                let one : x ≡ p = same_value (rw same at named) in
                let named_so = (eq_iff x.id id).0 same in
                subst
                  (λ i.
                    find_first (is_row revision i) after
                    ≡ some (row_of revision (last_image i rows) p))
                  named_so
                  (subst
                    (λ q.
                      find_first (is_row revision x.id) after
                      ≡ some (row_of revision (last_image x.id rows) q))
                    one found)
            | inr other ↦
                let skipped =
                  ap (λ l. image_of (newest l))
                    (keep_passed_over (λ r. r.product_id =s= id) rows row other) in
                insert_products_lists parses env revision products (rows ++ row ∷ []) id p h3
                  (rw other at named)
                ∙ ap (λ i. some (row_of revision i p)) skipped
          ]

-- The rows that a snapshot takes over from the one before, and the old ones that it drops, are not in
-- the way.
retained_lists :
    (revision : ℕ) (id : String) (rows : List ProductRow) (r : ProductRow)
    → find_first (is_row (suc revision) id) rows ≡ some r
    → find_first (is_row (suc revision) id) (
        keep
          (λ x. not (ltb x.catalog_revision (suc revision - 1)))
          (rows ++ map (retired (suc revision)) (keep (is_missing (suc revision) rows) rows)))
      ≡ some r
retained_lists revision id rows r h =
    found_among_kept (is_row (suc revision) id)
      (λ x. not (ltb x.catalog_revision (suc revision - 1)))
      (rows ++ map (retired (suc revision)) (keep (is_missing (suc revision) rows) rows)) r
      (λ x e. ground (arith, e)) (still_found (is_row (suc revision) id) rows _ r h)

-- The image of a product in its newest row, if it has one.
abbrev pub WasImage : String → List ProductRow → Option String → Type 0
WasImage id rows image =
    ((image ≡ none) × All (λ x. (x.product_id =s= id) ≡ false) rows)
    ⊎ ((r : ProductRow) × Among r rows
        × (r.product_id ≡ id)
        × (image ≡ r.image_url)
        × All (λ x. ((x.product_id =s= id) ≡ false) ⊎ (x.catalog_revision ≤ r.catalog_revision))
            rows)

module _ (id : String) (rows : List ProductRow) where
  abbrev of_product : ProductRow → Bool
  of_product r = r.product_id =s= id

  abbrev sorted : List ProductRow
  sorted = sort_by (descending ProductRow.catalog_revision) (keep of_product rows)

  image_found :
      (l : List ProductRow) → sorted ≡ l → WasImage id rows (image_of (find_first (λ r. true) l))
  unfolding find_first
  image_found [] e =
      let nothing : All (λ x. ⊥) (keep of_product rows) =
        sort_by-All_back (descending ProductRow.catalog_revision) (λ x. ⊥) (keep of_product rows)
          (subst (All (λ x. ⊥)) (sym e) tt) in
      inl (
        refl,
        All-weaker (λ x. (of_product x ≡ false) ⊎ ⊥) (λ x. of_product x ≡ false)
            (λ x h. elim h [ inl skipped ↦ skipped | inr bad ↦ absurd bad ]) rows
            (keep-All_back of_product (λ x. ⊥) rows nothing),
      )
  image_found (r ∷ rest) e =
      let first : HasFirst ProductRow.catalog_revision (r ∷ rest) =
        subst (HasFirst ProductRow.catalog_revision) e
          (sort_by-HasFirst ProductRow.catalog_revision (keep of_product rows)) in
      let most : ProductRow → Type 0 = λ x. x.catalog_revision ≤ r.catalog_revision in
      let all_kept =
        sort_by-All_back (descending ProductRow.catalog_revision) most (keep of_product rows)
          (subst (All most) (sym e) first) in
      let there =
        sort_by-Among (descending ProductRow.catalog_revision) r (keep of_product rows)
          (subst (Among r) (sym e) (inl refl)) in
      let (named, among) = keep-Among of_product r rows there in
      inr (
        r,
        among,
        (eq_iff r.product_id id).0 named,
        refl,
        keep-All_back of_product most rows all_kept,
      )

  last_image-WasImage : WasImage id rows (last_image id rows)
  unfolding last_image
  last_image-WasImage = image_found sorted refl

-- Publishing a snapshot and looking a product of it up in the new revision gives that product: its
-- values as they were published, and the image that its newest row had before, or none if it had no
-- row.
pub replace_snapshot-lists :
    (parses : String → Bool) (env : Env) (products : List Product) (now : Time) (id : String)
    (p : Product) (db : Db)
    → (replace_snapshot parses env products now db).0 ≡ ok tt
    → find_first (λ q. q.id =s= id) products ≡ some p
    → (image : Option String) × WasImage id db.products image
      × (find_first
            (λ r. r.catalog_revision == suc db.current_revision && r.product_id =s= id)
            (replace_snapshot parses env products now db).1.products
          ≡ some (record {
            product_id = p.id;
            name = p.name;
            description = p.description;
            price_centavos = p.price_centavos;
            category_id = p.category_id;
            category_name = p.category_name;
            image_url = image;
            available = p.available;
            source_updated_at = p.source_updated_at;
            catalog_revision = suc db.current_revision;
          }))
unfolding replace_body
replace_snapshot-lists parses env products now id p db h0 named =
    let (after, h, end) = replaced parses env products now db h0 in
    let revision = suc db.current_revision in
    bind_ok (attempt env reserve_revision) h λ u1 e1 h1.
      bind_ok (insert_products parses env revision products db.products) h1 λ rows e2 h2.
        bind_ok (attempt env retain_missing) h2 λ u3 e3 h3.
          bind_ok (attempt env prune) h3 λ u4 e4 h4. bind_ok (attempt env complete) h4 λ u5 e5 h5.
            let row = row_of revision (last_image id db.products) p in
            let added =
              insert_products_lists parses env revision products db.products id p e2 named in
            (
              last_image id db.products,
              last_image-WasImage id db.products,
              ap (λ d. find_first (is_row revision id) d.products) (end ∙ sym (ok-injective h5))
                  ∙ retained_lists db.current_revision id rows row added,
            )
