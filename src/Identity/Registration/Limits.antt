-- ===== src/Identity/Registration/Limits.antt =====
-- The rate limits of registration: the table of buckets as a map of counters.
use b46_ordering_app_backend.Base.{
  ℕ, suc, ◌≤◌, ◌≡◌, ◌≢◌, refl, sym, ◌∙◌, ap, subst, inl, inr, String, Bool, true, false, ◌&&◌,
  Option, none, some, List, [], ◌∷◌, ◌++◌, ok, bind_ok, passed, ok-injective, arith, eq_iff,
  eq_refl, Bool-cases, if◌then◌else◌, ◌=s=◌, ◌==◌, ==_iff, ltb, fail_if, find_first, update_where,
  or_fail,
}
use b46_ordering_app_backend.Identity.Domain.{
  Time, PendingRegistration, registration_rate_limited, count_rate, technical, check_owner,
  store_pending,
}
use b46_ordering_app_backend.Identity.Tables.{Db, Env, BucketRow, attempt, is_set}
use b46_ordering_app_backend.Identity.Transaction.{transaction_ok}
use b46_ordering_app_backend.Identity.OAuth.{find_email_owner}
use b46_ordering_app_backend.Identity.Registration.{
  in_bucket, count_one, bump, bump_found, count_request, window_of, registration_limits, begin_body,
  begin_registration, registration_email_hourly_limit, registration_ip_hourly_limit, put_pending,
  pending_row,
}

abbrev counted : Option BucketRow → ℕ
counted none = 0
counted (some b) = b.request_count

-- How often a key was counted in a window.
unfoldable pub count_of : String → Time → List BucketRow → ℕ
count_of key window rows = counted (find_first (in_bucket key window) rows)

abbrev is_it : String → Time → String → Time → Bool
is_it key window k w = key =s= k && window == w

-- A row of one bucket is a row of another if they are the same bucket.
same_bucket :
    (key k : String) (window w : Time) (b : BucketRow)
    → in_bucket key window b ≡ true
    → in_bucket k w b ≡ is_it key window k w
same_bucket key k window w b e =
    ground (arith, eq_iff b.bucket_key key, eq_iff b.bucket_key k, eq_iff key k, e)

other_bucket :
    (key k : String) (window w : Time) (b : BucketRow)
    → in_bucket key window b ≡ false
    → in_bucket k w b ≡ true
    → is_it key window k w ≡ false
other_bucket key k window w b e q =
    ground (arith, eq_iff b.bucket_key key, eq_iff b.bucket_key k, eq_iff key k, e, q)

abbrev counted_up : Option BucketRow → ℕ
counted_up none = 0
counted_up (some b) = suc b.request_count

-- The rows of a bucket are counted up; every other bucket keeps its count.
count-update :
    (key k : String) (window w : Time) (rows : List BucketRow)
    → counted (find_first (in_bucket k w) (update_where (in_bucket key window) count_one rows)) ≡ (
        if is_it key window k w
        then counted_up (find_first (in_bucket k w) rows)
        else counted (find_first (in_bucket k w) rows))
unfolding find_first update_where
count-update key k window w [] = ground arith
count-update key k window w (x ∷ rows) =
    let rest = count-update key k window w rows in
    elim (Bool-cases (in_bucket key window x)) [
      | inl e ↦ elim (Bool-cases (is_it key window k w)) [
        | inl i ↦ rw (e, same_bucket key k window w x e, i) (ground arith)
        | inr i ↦ rw (e, same_bucket key k window w x e, i) (rw i at rest)
      ]
      | inr e ↦ elim (Bool-cases (in_bucket k w x)) [
        | inl q ↦ rw (e, q, other_bucket key k window w x e q)
        | inr q ↦ rw (e, q) rest
      ]
    ]

count-snoc :
    (key k : String) (window w : Time) (rows : List BucketRow)
    → find_first (in_bucket key window) rows ≡ none
    → counted (
        find_first
          (in_bucket k w)
          (rows ++ record { bucket_key = key; window_started_at = window; request_count = 1 } ∷ []))
      ≡ (if is_it key window k w then 1 else counted (find_first (in_bucket k w) rows))
unfolding find_first
count-snoc key k window w [] h = ground arith
count-snoc key k window w (x ∷ rows) h = elim (Bool-cases (in_bucket key window x)) [
  | inl e ↦ absurd (ground (arith, e, h))
  | inr e ↦
      let rest = count-snoc key k window w rows (ground (arith, e, h)) in
      elim (Bool-cases (in_bucket k w x)) [
        | inl q ↦ rw (q, other_bucket key k window w x e q)
        | inr q ↦ rw q rest
      ]
]

is_it_refl : (key : String) (window : Time) → is_it key window key window ≡ true
is_it_refl key window = ground (arith, eq_refl key, ==_iff window window)

bump_found-own :
    (key : String) (window : Time) (rows : List BucketRow) (o : Option BucketRow)
    → find_first (in_bucket key window) rows ≡ o
    → ((bump_found key window rows o).0 ≡ suc (counted o))
      × (counted (find_first (in_bucket key window) (bump_found key window rows o).1)
          ≡ suc (counted o))
bump_found-own key window rows none e =
    (refl, rw (is_it_refl key window) at (count-snoc key key window window rows e))
bump_found-own key window rows (some b) e =
    let updated = rw (is_it_refl key window) at (count-update key key window window rows) in
    (ground arith, updated ∙ (rw e))

bump-own :
    (key : String) (window : Time) (rows : List BucketRow)
    → ((bump key window rows).0 ≡ suc (count_of key window rows))
      × (count_of key window (bump key window rows).1 ≡ suc (count_of key window rows))
unfolding bump count_of
bump-own key window rows =
    bump_found-own key window rows (find_first (in_bucket key window) rows) refl

bump_found-other :
    (key k : String) (window w : Time) (rows : List BucketRow) (o : Option BucketRow)
    → is_it key window k w ≡ false
    → find_first (in_bucket key window) rows ≡ o
    → counted (find_first (in_bucket k w) (bump_found key window rows o).1)
      ≡ counted (find_first (in_bucket k w) rows)
bump_found-other key k window w rows none other e = rw other at (count-snoc key k window w rows e)
bump_found-other key k window w rows (some b) other e =
    rw other at (count-update key k window w rows)

bump-other :
    (key k : String) (window w : Time) (rows : List BucketRow)
    → is_it key window k w ≡ false
    → count_of k w (bump key window rows).1 ≡ count_of k w rows
unfolding bump count_of
bump-other key k window w rows other =
    bump_found-other key k window w rows (find_first (in_bucket key window) rows) other refl

-- What a round of the loop that goes on says.
count_request_ok :
    (env : Env) (key : String) (maximum : ℕ) (window : Time) (rows : List BucketRow)
    {after : List BucketRow}
    → count_request env key maximum window rows ≡ ok after
    → (suc (count_of key window rows) ≤ maximum) × (after ≡ (bump key window rows).1)
unfolding count_request
count_request_ok env key maximum window rows h = bind_ok (attempt env count_rate) h λ u1 e1 h1.
    bind_ok (fail_if (ltb maximum (bump key window rows).0) registration_rate_limited) h1
      λ u2 e2 h2. (
        below (bump-own key window rows).0 (passed _ registration_rate_limited e2),
        sym (ok-injective h2),
      )
  where
    below :
        {n : ℕ}
        → n ≡ suc (count_of key window rows)
        → ltb maximum n ≡ false
        → suc (count_of key window rows) ≤ maximum
    below {n} same e = ground (arith, same, e)

-- The two counters after a registration that was let through.
pub record Counts (email_key ip_key : String) (window : Time) (before after : List BucketRow)
    : Type 0 where
  pub by_email : count_of email_key window after ≡ suc (count_of email_key window before)
  pub by_ip : count_of ip_key window after ≡ suc (count_of ip_key window before)
  pub email_limit : count_of email_key window after ≤ registration_email_hourly_limit
  pub ip_limit : count_of ip_key window after ≤ registration_ip_hourly_limit

pub registration_limits-Counts :
    (env : Env) (email_key ip_key : String) (now : Time) (db : Db) {after : Db}
    → email_key ≢ ip_key
    → registration_limits env email_key ip_key now db ≡ ok after
    → Counts email_key ip_key (window_of now) db.buckets after.buckets
unfolding registration_limits
registration_limits-Counts env email_key ip_key now db apart h =
    let window = window_of now in
    let by_email = count_request env email_key registration_email_hourly_limit window db.buckets in
    bind_ok by_email h λ mid e1 h1.
      bind_ok (count_request env ip_key registration_ip_hourly_limit window mid) h1 λ last e2 h2.
        let (email_room, mid_is) =
          count_request_ok env email_key registration_email_hourly_limit window db.buckets e1 in
        let (ip_room, last_is) =
          count_request_ok env ip_key registration_ip_hourly_limit window mid e2 in
        let distinct : is_it email_key window ip_key window ≡ false =
          ground (arith, eq_iff email_key ip_key, apart) in
        let distinct' : is_it ip_key window email_key window ≡ false =
          ground (arith, eq_iff ip_key email_key, apart) in
        let after_email : count_of email_key window mid
            ≡ suc (count_of email_key window db.buckets) =
          ap (count_of email_key window) mid_is ∙ (bump-own email_key window db.buckets).1 in
        let still_email : count_of email_key window last ≡ count_of email_key window mid =
          ap (count_of email_key window) last_is
          ∙ bump-other ip_key email_key window window mid distinct' in
        let before_ip : count_of ip_key window mid ≡ count_of ip_key window db.buckets =
          ap (count_of ip_key window) mid_is
          ∙ bump-other email_key ip_key window window db.buckets distinct in
        let after_ip : count_of ip_key window last ≡ suc (count_of ip_key window mid) =
          ap (count_of ip_key window) last_is ∙ (bump-own ip_key window mid).1 in
        let kept : Counts email_key ip_key window db.buckets last = record {
          by_email = still_email ∙ after_email;
          by_ip = after_ip ∙ ap suc before_ip;
          email_limit = omega (arith, still_email, after_email, email_room);
          ip_limit = omega (arith, after_ip, ip_room);
        } in
        subst (Counts email_key ip_key window db.buckets) (ap Db.buckets (ok-injective h2)) kept

-- A registration that is let through counts once for its address and once for the client, which then
-- stand at no more than five and a hundred in the hour. The two keys are different texts.
pub begin_registration-Counts :
    (env : Env) (value : PendingRegistration) (ip_key : String) (now : Time) (db : Db)
    (eligible : Bool)
    → value.email_rate_key ≢ ip_key
    → (begin_registration env value ip_key now db).0 ≡ ok eligible
    → Counts value.email_rate_key ip_key
        (window_of now)
        db.buckets
        (begin_registration env value ip_key now db).1.buckets
unfolding begin_registration begin_body
begin_registration-Counts env value ip_key now db eligible apart h0 =
    let (after, h, end) = transaction_ok env (begin_body env value ip_key now) db eligible h0 in
    let row = pending_row value in
    bind_ok (registration_limits env value.email_rate_key ip_key now db) h λ limited e1 h1.
      let owned = is_set (find_email_owner value.email limited) in
      bind_ok (attempt env check_owner) h1 λ u2 e2 h2.
        bind_ok (attempt env store_pending) h2 λ u3 e3 h3.
          bind_ok (or_fail (put_pending (row owned now) limited.pending) (technical store_pending))
            h3
            λ rows e4 h4.
              let kept =
                registration_limits-Counts env value.email_rate_key ip_key now db apart e1 in
              subst (λ d. Counts value.email_rate_key ip_key (window_of now) db.buckets d.buckets)
                (sym (end ∙ sym (ap (λ p. p.1) (ok-injective h4)))) kept
