-- ===== src/Catalog/Store/Published.antt =====
-- What a published snapshot keeps of the one before.
use b46_ordering_app_backend.Base.{
  ℕ, suc, ◌+◌, ◌-◌, ◌≤◌, ◌≡◌, inl, inr, refl, sym, ◌∙◌, ap, subst, String, Bool, true, false, not,
  ◌&&◌, List, [], ◌∷◌, ◌++◌, Result, ok, err, bind_ok, ok-injective, arith, and-eq-true, ==_iff,
  eq_iff, Bool-cases, ltb, ◌==◌, ◌=s=◌, map, keep, find_first, fail_if, All,
}
use b46_ordering_app_backend.Base.Rows.{All-append, All-weaker}
use b46_ordering_app_backend.Catalog.Domain.{
  Time, Product, CatalogError, technical, begin_tx, commit_tx, reserve_revision, retain_missing,
  prune, complete, insert_product, validate_product,
}
use b46_ordering_app_backend.Catalog.Store.{
  ProductRow, Db, Env, attempt, is_some, has_row, row_of, last_image, insert_products, retired,
  is_missing, replace_body, finish, replace_snapshot,
}

module _ {ℓ} {A : Type ℓ} where
  found_left :
      (p : A → Bool) (xs ys : List A)
      → is_some (find_first p xs) ≡ true
      → is_some (find_first p (xs ++ ys)) ≡ true
  unfolding find_first
  found_left p [] ys h = cc
  found_left p (x ∷ xs) ys h = elim (Bool-cases (p x)) [
    | inl e ↦ rw e
    | inr e ↦ rw e (found_left p xs ys (rw e at h))
  ]

  found_right :
      (p : A → Bool) (xs ys : List A)
      → is_some (find_first p ys) ≡ true
      → is_some (find_first p (xs ++ ys)) ≡ true
  unfolding find_first
  found_right p [] ys h = h
  found_right p (x ∷ xs) ys h = elim (Bool-cases (p x)) [
    | inl e ↦ rw e
    | inr e ↦ rw e (found_right p xs ys h)
  ]

  found_kept :
      (p q : A → Bool) (xs : List A)
      → ((a : A) → p a ≡ true → q a ≡ true)
      → is_some (find_first p xs) ≡ true
      → is_some (find_first p (keep q xs)) ≡ true
  unfolding find_first keep
  found_kept p q [] passes h = h
  found_kept p q (x ∷ xs) passes h = elim (Bool-cases (p x)) [
    | inl e ↦ rw (passes x e, e)
    | inr e ↦ elim (Bool-cases (q x)) [
      | inl t ↦ rw (t, e) (found_kept p q xs passes (rw e at h))
      | inr t ↦ rw t (found_kept p q xs passes (rw e at h))
    ]
  ]

  found_mapped :
      (p q : A → Bool) (f : A → A) (xs : List A)
      → ((a : A) → p a ≡ true → q (f a) ≡ true)
      → is_some (find_first p xs) ≡ true
      → is_some (find_first q (map f xs)) ≡ true
  unfolding find_first
  found_mapped p q f [] moves h = cc
  found_mapped p q f (x ∷ xs) moves h = elim (Bool-cases (p x)) [
    | inl e ↦ rw (moves x e)
    | inr e ↦ elim (Bool-cases (q (f x))) [
      | inl t ↦ rw t
      | inr t ↦ rw t (found_mapped p q f xs moves (rw e at h))
    ]
  ]

  -- What a filter keeps has what held before and what the test says.
  kept-All :
      (P Q : A → Type 0) (q : A → Bool) (xs : List A)
      → ((a : A) → q a ≡ true → P a → Q a)
      → All P xs
      → All Q (keep q xs)
  unfolding keep
  kept-All P Q q [] passes h = tt
  kept-All P Q q (x ∷ xs) passes h = elim (Bool-cases (q x)) [
    | inl e ↦ rw e (passes x e h.0, kept-All P Q q xs passes h.1)
    | inr e ↦ rw e (kept-All P Q q xs passes h.1)
  ]

-- The loop only adds rows.
insert_products_keeps :
    (parses : String → Bool) (env : Env) (revision : ℕ) (products : List Product)
    (rows : List ProductRow) (p : ProductRow → Bool) {after : List ProductRow}
    → insert_products parses env revision products rows ≡ ok after
    → is_some (find_first p rows) ≡ true
    → is_some (find_first p after) ≡ true
unfolding insert_products
insert_products_keeps parses env revision [] rows p h found =
    subst (λ l. is_some (find_first p l) ≡ true) (ok-injective h) found
insert_products_keeps parses env revision (x ∷ products) rows p h found =
    bind_ok (validate_product parses x) h λ u1 e1 h1.
      bind_ok (attempt env (insert_product x.id)) h1 λ u2 e2 h2.
        bind_ok (fail_if (has_row revision x.id rows) (technical (insert_product x.id))) h2
          λ u3 e3 h3.
            insert_products_keeps parses env revision products
              (rows ++ row_of revision (last_image x.id rows) x ∷ []) p h3
              (found_left p rows (row_of revision (last_image x.id rows) x ∷ []) found)

-- A product of the revision before is in the rows with those that are retained as unavailable.
retained_found :
    (revision : ℕ) (id : String) (rows : List ProductRow)
    → has_row revision id rows ≡ true
    → has_row
        (suc revision)
        id
        (rows ++ map (retired (suc revision)) (keep (is_missing (suc revision) rows) rows))
      ≡ true
retained_found revision id rows h = elim (Bool-cases (has_row (suc revision) id rows)) [
  | inl e ↦ found_left _ rows _ e
  | inr e ↦
      let before : ProductRow → Bool = λ r. r.catalog_revision == revision && r.product_id =s= id in
      let now : ProductRow → Bool =
        λ r. r.catalog_revision == suc revision && r.product_id =s= id in
      let missing = is_missing (suc revision) rows in
      let kept = found_kept before missing rows (missed e) h in
      found_right now rows (map (retired (suc revision)) (keep missing rows)) (
        found_mapped before now (retired (suc revision)) (keep missing rows)
          (λ r q. ground (arith, q)) kept)
]
  where
    missed :
        has_row (suc revision) id rows ≡ false
        → (r : ProductRow) → (r.catalog_revision == revision && r.product_id =s= id) ≡ true
        → is_missing (suc revision) rows r ≡ true
    missed e r q =
        let parts = and-eq-true (r.catalog_revision == revision) (r.product_id =s= id) q in
        let same = (eq_iff r.product_id id).0 parts.1 in
        let gone : has_row (suc revision) r.product_id rows ≡ false =
          subst (λ i. has_row (suc revision) i rows ≡ false) (sym same) e in
        let before = (==_iff r.catalog_revision revision).0 parts.0 in
        let next : (r.catalog_revision + 1 == suc revision) ≡ true = ground (arith, before) in
        rw (next, gone)

finished :
    (env : Env) (before : Db) (r : Result CatalogError Db)
    → (finish env before r).0 ≡ ok tt
    → (after : Db) × (r ≡ ok after) × ((finish env before r).1 ≡ after)
unfolding finish
finished env before (err e) h = absurd (cc)
finished env before (ok after) h = elim (Bool-cases (env.fails commit_tx)) [
  | inl e ↦ absurd (ground (arith, e, h))
  | inr e ↦ (after, refl, rw e)
]

pub replaced :
    (parses : String → Bool) (env : Env) (products : List Product) (now : Time) (db : Db)
    → (replace_snapshot parses env products now db).0 ≡ ok tt
    → (after : Db) × (replace_body parses env products now db ≡ ok after)
      × ((replace_snapshot parses env products now db).1 ≡ after)
unfolding replace_snapshot
replaced parses env products now db h = elim (Bool-cases (env.fails begin_tx)) [
  | inl e ↦ absurd (ground (arith, e, h))
  | inr e ↦ rw e (finished env db (replace_body parses env products now db) (rw e at h))
]

-- The rows that a publication leaves lie between the revision before and its own.
abbrev pub Between : ℕ → ℕ → ProductRow → Type 0
Between low high r = (low ≤ r.catalog_revision) × (r.catalog_revision ≤ high)

insert_products-All :
    (parses : String → Bool) (env : Env) (revision : ℕ) (products : List Product)
    (rows : List ProductRow) {after : List ProductRow}
    → insert_products parses env revision products rows ≡ ok after
    → All (λ r. r.catalog_revision ≤ revision) rows
    → All (λ r. r.catalog_revision ≤ revision) after
unfolding insert_products
insert_products-All parses env revision [] rows h old =
    subst (All (λ r. r.catalog_revision ≤ revision)) (ok-injective h) old
insert_products-All parses env revision (x ∷ products) rows h old =
    bind_ok (validate_product parses x) h λ u1 e1 h1.
      bind_ok (attempt env (insert_product x.id)) h1 λ u2 e2 h2.
        bind_ok (fail_if (has_row revision x.id rows) (technical (insert_product x.id))) h2
          λ u3 e3 h3.
            insert_products-All parses env revision products
              (rows ++ row_of revision (last_image x.id rows) x ∷ []) h3
              (All-append _ rows (row_of revision (last_image x.id rows) x ∷ []) old
                (omega arith, tt))

retired-All :
    (revision : ℕ) (rows : List ProductRow)
    → All (λ r. r.catalog_revision ≤ revision) (map (retired revision) rows)
retired-All revision [] = tt
retired-All revision (r ∷ rows) = (omega arith, retired-All revision rows)

-- Publishing a snapshot starts the next revision and loses no product: every product of the current
-- revision is in the next one, and only rows of these two revisions are left, when no row was of a
-- revision past the current one.
pub replace_snapshot-retains :
    (parses : String → Bool) (env : Env) (products : List Product) (now : Time) (id : String)
    (db : Db)
    → (replace_snapshot parses env products now db).0 ≡ ok tt
    → has_row db.current_revision id db.products ≡ true
    → All (λ r. r.catalog_revision ≤ db.current_revision) db.products
    → ((replace_snapshot parses env products now db).1.current_revision ≡ suc db.current_revision)
      × (has_row
            (suc db.current_revision)
            id
            (replace_snapshot parses env products now db).1.products
          ≡ true)
      × All
          (Between db.current_revision (suc db.current_revision))
          (replace_snapshot parses env products now db).1.products
unfolding replace_snapshot replace_body
replace_snapshot-retains parses env products now id db h0 here old_rows =
    let (after, h, end) = replaced parses env products now db h0 in
    let revision = suc db.current_revision in
    bind_ok (attempt env reserve_revision) h λ u1 e1 h1.
      bind_ok (insert_products parses env revision products db.products) h1 λ rows e2 h2.
        bind_ok (attempt env retain_missing) h2 λ u3 e3 h3.
          bind_ok (attempt env prune) h3 λ u4 e4 h4. bind_ok (attempt env complete) h4 λ u5 e5 h5.
            let was : ProductRow → Bool =
              λ r. r.catalog_revision == db.current_revision && r.product_id =s= id in
            let now_there : ProductRow → Bool =
              λ r. r.catalog_revision == revision && r.product_id =s= id in
            let recent : ProductRow → Bool = λ r. not (ltb r.catalog_revision (revision - 1)) in
            let old = insert_products_keeps parses env revision products db.products was e2 here in
            let missing = keep (is_missing revision rows) rows in
            let all_rows = rows ++ map (retired revision) missing in
            let found = retained_found db.current_revision id rows old in
            let kept = found_kept now_there recent all_rows (λ r q. ground (arith, q)) found in
            let before : All (λ r. r.catalog_revision ≤ revision) db.products =
              All-weaker (λ r. r.catalog_revision ≤ db.current_revision)
                (λ r. r.catalog_revision ≤ revision) (λ r q. omega arith) db.products old_rows in
            let bounded : All (λ r. r.catalog_revision ≤ revision) all_rows =
              All-append (λ r. r.catalog_revision ≤ revision) rows (map (retired revision) missing)
                (insert_products-All parses env revision products db.products e2 before)
                (retired-All revision missing) in
            let end' = end ∙ sym (ok-injective h5) in
            (
              ap Db.current_revision end',
              ap (λ d. has_row revision id d.products) end' ∙ kept,
              subst (λ d. All (Between db.current_revision revision) d.products) (sym end')
                  (kept-All (λ r. r.catalog_revision ≤ revision)
                    (Between db.current_revision revision) recent all_rows
                    (λ r q b. (ground (arith, q), b)) bounded),
            )
