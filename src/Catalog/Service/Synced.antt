-- ===== src/Catalog/Service/Synced.antt =====
-- What a synchronisation publishes.
use b46_ordering_app_backend.Base.{
  ◌≡◌, inl, inr, refl, subst, String, Bool, false, Option, none, some, List, [], ◌∷◌, Result, ok,
  err, bind_ok, passed, ok-injective, arith, eq_iff, Bool-cases, Result-cases, ◌=s=◌, find_first,
  fail_if, All,
}
use b46_ordering_app_backend.Base.Keys.{Absent, Distinct, Distinct-snoc, Absent-snoc}
use b46_ordering_app_backend.Base.Rows.{All-snoc}
use b46_ordering_app_backend.Catalog.Domain.{
  CatalogError, unavailable, Product, Page, validate_product,
}
use b46_ordering_app_backend.Catalog.Store.{is_among}
use b46_ordering_app_backend.Catalog.Service.{
  Progress, nothing_read, accept, validated, read_products, follow, repeats, read_pages,
}

-- A product that Validate accepts.
abbrev pub Valid : (String → Bool) → Product → Type 0
Valid parses p = validate_product parses p ≡ ok tt

-- The products read are valid and distinct, and their ids are among those seen.
record IsSound (parses : String → Bool) (read : Progress) : Type 0 where
  valid : All (Valid parses) read.products
  distinct : Distinct Product.id read.products
  seen : (id : String) → is_among read.seen_products id ≡ false → Absent Product.id id read.products

accept-IsSound :
    (parses : String → Bool) (p : Product) (read : Progress)
    → IsSound parses read
    → Valid parses p
    → is_among read.seen_products p.id ≡ false
    → IsSound parses (accept p read)
unfolding find_first
accept-IsSound parses p read s valid new = record {
  valid = All-snoc (Valid parses) read.products p s.valid valid;
  distinct = Distinct-snoc Product.id read.products p s.distinct (s.seen p.id new);
  seen = λ id e. elim (Bool-cases (p.id =s= id)) [
    | inl q ↦ absurd (ground (arith, e, q))
    | inr q ↦
        Absent-snoc Product.id id read.products p (s.seen id (ground (arith, e, q)))
          (λ r. ground (arith, q, eq_iff p.id id, r))
  ];
}

validated_ok : (r : Result CatalogError (Unit {0})) {u : Unit {0}} → validated r ≡ ok u → r ≡ ok tt
validated_ok (ok u) h = refl
validated_ok (err e) h = cc

read_products-IsSound :
    (parses : String → Bool) (products : List Product) (read : Progress) {more : Progress}
    → IsSound parses read
    → read_products parses products read ≡ ok more
    → IsSound parses more
unfolding read_products
read_products-IsSound parses [] read s h = subst (IsSound parses) (ok-injective h) s
read_products-IsSound parses (p ∷ products) read s h =
    bind_ok (validated (validate_product parses p)) h λ u1 e1 h1.
      bind_ok (fail_if (is_among read.seen_products p.id) unavailable) h1 λ u2 e2 h2.
        read_products-IsSound parses products (accept p read)
          (accept-IsSound parses p read s (validated_ok (validate_product parses p) e1)
            (passed _ unavailable e2))
          h2

follow-IsSound :
    (parses : String → Bool) (cursor : String) (read : Progress)
    → IsSound parses read
    → IsSound parses (follow cursor read)
follow-IsSound parses cursor read s = record {
  valid = s.valid;
  distinct = s.distinct;
  seen = s.seen;
}

sound_pages :
    (parses : String → Bool) (answers : List (Option Page)) (read : Progress)
    (products : List Product)
    → IsSound parses read
    → read_pages parses answers read ≡ some (ok products)
    → All (Valid parses) products × Distinct Product.id products
unfolding read_pages
sound_pages parses [] read products s h = absurd (cc)
sound_pages parses (none ∷ answers) read products s h = absurd (cc)
sound_pages parses (some page ∷ answers) read products s h =
    elim (Result-cases (read_products parses page.products read)) [
      | inr (e, failed) ↦ absurd (ground (arith, failed, h))
      | inl (more, done) ↦
          let sound = read_products-IsSound parses page.products read s done in
          elim (Bool-cases (page.next_after_id =s= "")) [
            | inl last ↦
                let same : more.products ≡ products = ground (arith, done, last, h) in
                subst (λ l. All (Valid parses) l × Distinct Product.id l) same
                  (sound.valid, sound.distinct)
            | inr going ↦ elim (Bool-cases (repeats page.next_after_id more)) [
              | inl again ↦ absurd (ground (arith, done, going, again, h))
              | inr fresh ↦
                  sound_pages parses answers (follow page.next_after_id more) products
                    (follow-IsSound parses page.next_after_id more sound)
                    (ground (arith, done, going, fresh, h))
            ]
          ]
    ]

-- A synchronisation that reads the source to its end has products that are valid and whose ids are
-- distinct, whatever the pages say.
pub read_pages-IsSound :
    (parses : String → Bool) (answers : List (Option Page)) (products : List Product)
    → read_pages parses answers nothing_read ≡ some (ok products)
    → All (Valid parses) products × Distinct Product.id products
read_pages-IsSound parses answers products h =
    sound_pages parses answers nothing_read products
      (record { valid = tt; distinct = tt; seen = λ id e. tt }) h
