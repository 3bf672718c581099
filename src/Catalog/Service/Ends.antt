-- ===== src/Catalog/Service/Ends.antt =====
-- The synchronisation ends: a source with finitely many cursors cannot keep it going.
use b46_ordering_app_backend.Base.{
  ℕ, suc, ◌≤◌, ◌<◌, ◌≡◌, ◌≢◌, inl, inr, refl, sym, ap, subst, String, Bool, true, false, not, ◌||◌,
  Option, none, some, List, [], ◌∷◌, ok, bind_ok, ok-injective, fail_if, arith, eq_iff, eq_refl,
  Bool-cases, Result-cases, ◌=s=◌, find_first, keep, length, All,
}
use b46_ordering_app_backend.Catalog.Domain.{Page, Product, unavailable, validate_product}
use b46_ordering_app_backend.Catalog.Store.{is_among}
use b46_ordering_app_backend.Catalog.Service.{
  Progress, nothing_read, read_products, follow, repeats, read_pages, accept, validated,
}

-- A page whose cursor is empty or one of the pool's.
abbrev pub FromPool : List String → Option Page → Type 0
FromPool pool none = Unit
FromPool pool (some page) = (page.next_after_id =s= "" || is_among pool page.next_after_id) ≡ true

module _ (p q : String → Bool) (implies : (c : String) → p c ≡ true → q c ≡ true) where
  fewer-le : (xs : List String) → length (keep p xs) ≤ length (keep q xs)
  unfolding keep
  fewer-le [] = omega arith
  fewer-le (x ∷ xs) =
      let rest = fewer-le xs in
      elim (Bool-cases (p x)) [
        | inl e ↦ rw (e, implies x e) (omega (arith, rest))
        | inr e ↦ elim (Bool-cases (q x)) [
          | inl t ↦ rw (e, t) (omega (arith, rest))
          | inr t ↦ rw (e, t) rest
        ]
      ]

  -- Where a text of the list passes only the second test, fewer pass the first.
  fewer-lt :
      (c : String) (xs : List String)
      → p c ≡ false
      → q c ≡ true
      → is_among xs c ≡ true
      → length (keep p xs) < length (keep q xs)
  unfolding keep find_first
  fewer-lt c [] out into among = absurd (cc)
  fewer-lt c (x ∷ xs) out into among = elim (Bool-cases (x =s= c)) [
    | inl e ↦
        let same = (eq_iff x c).0 e in
        let out' : p x ≡ false = subst (λ y. p y ≡ false) (sym same) out in
        let into' : q x ≡ true = subst (λ y. q y ≡ true) (sym same) into in
        let rest = fewer-le xs in rw (out', into') (omega (arith, rest))
    | inr e ↦
        let rest = fewer-lt c xs out into (rw e at among) in
        elim (Bool-cases (p x)) [
          | inl t ↦ rw (t, implies x t) (omega (arith, rest))
          | inr t ↦ elim (Bool-cases (q x)) [
            | inl t' ↦ rw (t, t') (omega (arith, rest))
            | inr t' ↦ rw (t, t') rest
          ]
        ]
  ]

-- The cursors of the pool that were not seen.
unseen : List String → List String → ℕ
unseen pool seen = length (keep (λ c. not (is_among seen c)) pool)

-- A new cursor of the pool leaves fewer.
unseen-lt :
    (pool seen : List String) (cursor : String)
    → is_among pool cursor ≡ true
    → is_among seen cursor ≡ false
    → unseen pool (cursor ∷ seen) < unseen pool seen
unfolding unseen find_first
unseen-lt pool seen cursor among new =
    fewer-lt (λ c. not (is_among (cursor ∷ seen) c)) (λ c. not (is_among seen c))
      (λ c e. elim (Bool-cases (cursor =s= c)) [
        | inl t ↦ absurd (ground (arith, e, t))
        | inr t ↦ ground (arith, e, t)
      ])
      cursor pool (rw (eq_refl cursor)) (rw new) among

read_products_cursors :
    (parses : String → Bool) (products : List Product) (read : Progress) {more : Progress}
    → read_products parses products read ≡ ok more
    → more.seen_cursors ≡ read.seen_cursors
unfolding read_products
read_products_cursors parses [] read h = sym (ap Progress.seen_cursors (ok-injective h))
read_products_cursors parses (p ∷ products) read h =
    bind_ok (validated (validate_product parses p)) h λ u1 e1 h1.
      bind_ok (fail_if (is_among read.seen_products p.id) unavailable) h1
        λ u2 e2 h2. read_products_cursors parses products (accept p read) h2

ends :
    (parses : String → Bool) (answers : List (Option Page)) (pool : List String) (read : Progress)
    → All (FromPool pool) answers
    → unseen pool read.seen_cursors < length answers
    → read_pages parses answers read ≢ none
unfolding read_pages
ends parses [] pool read from room h = absurd (omega (arith, room))
ends parses (none ∷ answers) pool read from room h = absurd (cc)
ends parses (some page ∷ answers) pool read (here, from) room h =
    elim (Result-cases (read_products parses page.products read)) [
      | inr (e, failed) ↦ absurd (ground (arith, failed, h))
      | inl (more, done) ↦ elim (Bool-cases (page.next_after_id =s= "")) [
        | inl last ↦ absurd (ground (arith, done, last, h))
        | inr going ↦ elim (Bool-cases (repeats page.next_after_id more)) [
          | inl again ↦ absurd (ground (arith, done, going, again, h))
          | inr fresh ↦
              let same = read_products_cursors parses page.products read done in
              let fewer =
                unseen-lt pool more.seen_cursors page.next_after_id (ground (arith, here, going))
                  (ground (arith, fresh)) in
              let before : unseen pool more.seen_cursors ≡ unseen pool read.seen_cursors =
                ap (unseen pool) same in
              ends parses answers pool (follow page.next_after_id more) from
                (omega (arith, fewer, before, room)) (ground (arith, done, going, fresh, h))
        ]
      ]
    ]

unseen_all : (pool : List String) → unseen pool [] ≡ length pool
unfolding unseen keep find_first
unseen_all [] = refl
unseen_all (c ∷ pool) = ap suc (unseen_all pool)

-- The loop over the pages ends, with products or with an error: it needs at most one answer more than
-- there are cursors, when every page that the source answers with is the last or has one of these
-- cursors.
pub read_pages-ends :
    (parses : String → Bool) (answers : List (Option Page)) (pool : List String)
    → All (FromPool pool) answers
    → length pool < length answers
    → read_pages parses answers nothing_read ≢ none
read_pages-ends parses answers pool from enough =
    let all_new = unseen_all pool in
    ends parses answers pool nothing_read from (omega (arith, all_new, enough))
