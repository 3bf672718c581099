-- ===== src/Identity/Registration/Attempts.antt =====
-- Verification codes: how often one can be tried.
use b46_ordering_app_backend.Base.{
  ℕ, suc, ◌+◌, ◌≤◌, ◌≡◌, ◌≢◌, ◌⊎◌, refl, sym, ◌∙◌, ap, subst, inl, inr, String, true, false, Option,
  none, some, List, [], ◌∷◌, ok, err, arith, eq_iff, Bool-cases, ◌=s=◌, ltb, length, All,
}
use b46_ordering_app_backend.Base.Keys.{find_key_sound}
use b46_ordering_app_backend.Identity.Domain.{
  Time, User, invalid_registration, load_pending, count_attempt,
}
use b46_ordering_app_backend.Identity.Tables.{Db, Env, PendingRow, is_set}
use b46_ordering_app_backend.Identity.Transaction.{transaction-Works, Works}
use b46_ordering_app_backend.Identity.Registration.{
  find_pending, set_pending, one_attempt, refuse_code, check_code, verify_body, verify_registration,
}
use b46_ordering_app_backend.Identity.Registration.Codes.{
  is_closed, set_pending_found, closed_refuses, closed_never,
}

check_code-wrong :
    (env : Env) (r : PendingRow) (code_hash : String) (now : Time) (db : Db) (o : Option String)
    → r.code_hash ≢ code_hash
    → check_code env r code_hash now db o ≡ refuse_code env r.id db
unfolding check_code
check_code-wrong env r code_hash now db none wrong = refl
check_code-wrong env r code_hash now db (some hash) wrong =
    let differs : (r.code_hash =s= code_hash) ≡ false =
      ground (arith, eq_iff r.code_hash code_hash, wrong) in
    rw differs

-- A wrong code for an open challenge: the attempt is counted, and nothing else changes.
pub wrong_code :
    (env : Env) (id code_hash : String) (now : Time) (db : Db) (r : PendingRow)
    → Works env
    → find_pending id db ≡ some r
    → is_closed now r ≡ false
    → r.code_hash ≢ code_hash
    → verify_registration env id code_hash now db
      ≡ (err invalid_registration, set_pending id one_attempt db)
unfolding verify_registration verify_body refuse_code
wrong_code env id code_hash now db r works here open_row wrong =
    let key = find_key_sound PendingRow.id id db.pending here in
    let refused : refuse_code env r.id db
        ≡ ok (err invalid_registration, set_pending id one_attempt db) =
      rw (works count_attempt, key) in
    let run : verify_body env id code_hash now db
        ≡ ok (err invalid_registration, set_pending id one_attempt db) =
      rw (works load_pending, here, open_row)
        (check_code-wrong env r code_hash now db r.password_hash wrong ∙ refused) in
    transaction-Works env (verify_body env id code_hash now) db (err invalid_registration)
      (set_pending id one_attempt db) works run

-- One verification of a challenge: the environment of the call, the code and the time.
pub record Guess : Type 0 where
  pub env : Env
  pub code_hash : String
  pub now : Time

-- The tables after verifications one after another.
unfoldable pub guess_all : List Guess → String → Db → Db
guess_all [] id db = db
guess_all (g ∷ guesses) id db =
    guess_all guesses id (verify_registration g.env id g.code_hash g.now db).1

-- A guess that runs before a challenge expires, without technical failures, with a wrong code.
pub record IsWrong (code_hash : String) (expires : Time) (g : Guess) : Type 0 where
  pub works : Works g.env
  pub wrong : code_hash ≢ g.code_hash
  pub timely : ltb g.now expires ≡ true

-- A challenge that is used, or that has at most `n` attempts left of its five.
Left : ℕ → PendingRow → Type 0
Left n r = (is_set r.consumed_at ≡ true) ⊎ (5 ≤ r.attempt_count + n)

still-Left :
    (r : PendingRow) (g : Guess) (n : ℕ)
    → is_closed g.now r ≡ true
    → ltb g.now r.expires_at ≡ true
    → Left (suc n) r
    → Left n r
unfolding Left
still-Left r g n closed timely (inl used) = inl used
still-Left r g n closed timely (inr left) = elim (Bool-cases (is_set r.consumed_at)) [
  | inl used ↦ inl used
  | inr unused ↦ inr (ground (arith, closed, timely, unused))
]

one_less : (r : PendingRow) (n : ℕ) → Left (suc n) r → Left n (one_attempt r)
unfolding Left
one_less r n (inl used) = inl used
one_less r n (inr left) = inr (omega (arith, left))

enough-Left : (r : PendingRow) (n : ℕ) → 5 ≤ n → Left n r
unfolding Left
enough-Left r n enough = inr (omega (arith, enough))

none-Left : (now : Time) (r : PendingRow) → Left 0 r → is_closed now r ≡ true
unfolding Left
none-Left now r (inl used) = ground (arith, used)
none-Left now r (inr left) = ground (arith, left)

guessed :
    (guesses : List Guess) (id : String) (db : Db) (r : PendingRow)
    → find_pending id db ≡ some r
    → All (IsWrong r.code_hash r.expires_at) guesses
    → Left (length guesses) r
    → (last : PendingRow) × (find_pending id (guess_all guesses id db) ≡ some last)
      × Left 0 last
      × ((guess_all guesses id db).users ≡ db.users)
unfolding guess_all Left
guessed [] id db r here wrong left = (r, here, left, refl)
guessed (g ∷ guesses) id db r here (w, ws) left = elim (Bool-cases (is_closed g.now r)) [
  | inl e ↦
      let same = closed_refuses g.env id g.code_hash g.now db r here e in
      let rest =
        guessed guesses id db r here ws (still-Left r g (length guesses) e w.timely left) in
      subst
        (λ d.
          (last : PendingRow) × (find_pending id (guess_all guesses id d) ≡ some last)
          × Left 0 last
          × ((guess_all guesses id d).users ≡ db.users))
        (sym same) rest
  | inr e ↦
      let tried = wrong_code g.env id g.code_hash g.now db r w.works here e w.wrong in
      let found = set_pending_found id one_attempt db r (λ x. refl) here in
      let rest =
        guessed guesses id (set_pending id one_attempt db) (one_attempt r) found ws
          (one_less r (length guesses) left) in
      subst
        (λ d.
          (last : PendingRow) × (find_pending id (guess_all guesses id d) ≡ some last)
          × Left 0 last
          × ((guess_all guesses id d).users ≡ db.users))
        (sym (ap (λ p. p.1) tried)) rest
]

-- Five wrong codes lock a challenge: when they are presented before it expires and no step fails for a
-- technical reason, no user is created, and no code, the right one included, is accepted afterwards.
pub verify_registration-locks :
    (guesses : List Guess) (env : Env) (id code_hash : String) (now : Time) (db : Db)
    (r : PendingRow) (user : User)
    → find_pending id db ≡ some r
    → All (IsWrong r.code_hash r.expires_at) guesses
    → 5 ≤ length guesses
    → ((guess_all guesses id db).users ≡ db.users)
      × ((verify_registration env id code_hash now (guess_all guesses id db)).0 ≢ ok user)
verify_registration-locks guesses env id code_hash now db r user here wrong enough =
    let (last, found, left, users) =
      guessed guesses id db r here wrong (enough-Left r (length guesses) enough) in
    (
      users,
      closed_never env id code_hash now (guess_all guesses id db) last user found
          (none-Left now last left),
    )
