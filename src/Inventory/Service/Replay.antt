-- ===== src/Inventory/Service/Replay.antt =====
-- Service.Commit over Store.Commit: sending a command again.
use b46_ordering_app_backend.Base.{
  ℕ, ◌≡◌, refl, ◌∙◌, ap, subst, String, not, ◌||◌, Result, ok, err, bind_ok, ok-injective, fail_if,
  ◌=s=◌,
}
use b46_ordering_app_backend.Inventory.Domain.{
  CommitCommand, CommitResult, Digest, InventoryError, store_unavailable, fingerprint,
  validate_result,
}
use b46_ordering_app_backend.Inventory.Tables.{Db, Env}
use b46_ordering_app_backend.Inventory.Store.{receipt_of, commit}
use b46_ordering_app_backend.Inventory.Store.Received.{Received}
use b46_ordering_app_backend.Inventory.Store.Receipts.{Works, commit-Received, commit-replay}
use b46_ordering_app_backend.Inventory.Service.{
  checked_result, commit_printed, or_unavailable, service_commit,
}

-- Service.Commit with the PostgreSQL store.
abbrev pub commit_with :
    Digest
    → (ℕ → Env)
    → (ℕ → Db → Db)
    → String
    → CommitCommand
    → Db
    → Result InventoryError CommitResult × Db
commit_with digest envs between actor =
    service_commit digest (λ command print db. commit envs between actor command print db)

or_unavailable-ok :
    (r : Result InventoryError (Unit {0})) {u : Unit {0}} → or_unavailable r ≡ ok u → r ≡ ok tt
or_unavailable-ok (ok u) h = refl
or_unavailable-ok (err e) h = absurd (cc h)

checked_result-ok :
    (command : CommitCommand) (a : CommitResult) {r : CommitResult}
    → checked_result command a ≡ ok r
    → (a ≡ r) × (validate_result r ≡ ok tt)
unfolding checked_result
checked_result-ok command a h0 = bind_ok (or_unavailable (validate_result a)) h0 λ u1 e1 h1.
    bind_ok
      (fail_if
        (not (a.operation_id =s= command.operation_id) || not (a.order_id =s= command.order_id))
        store_unavailable)
      h1
      λ u2 e2 h2.
        let same = ok-injective h2 in
        (
          same,
          subst (λ x. validate_result x ≡ ok tt) same (or_unavailable-ok (validate_result a) e1),
        )

-- What a result of Service.Commit says of the store's call.
commit_printed-ok :
    {S : Type 0} (store : CommitCommand → String → S → Result InventoryError CommitResult × S)
    (command : CommitCommand) (s : S) (p : Result InventoryError String) {r : CommitResult} {s' : S}
    → commit_printed store command s p ≡ (ok r, s')
    → (print : String) × (p ≡ ok print)
      × (store command print s ≡ (ok r, s'))
      × (validate_result r ≡ ok tt)
      × (checked_result command r ≡ ok r)
unfolding commit_printed
commit_printed-ok store command s (err e) h = absurd (cc h)
commit_printed-ok store command s (ok print) {r} {s'} h =
    bind_ok (store command print s).0 (ap (λ p. p.0) h) λ a e checked.
      let (same, valid) = checked_result-ok command a checked in
      let first = e ∙ ap ok same in
      let second = ap (λ p. p.1) h in
      (
        print,
        refl,
        ap (λ x. (x, (store command print s).1)) first ∙ ap (λ x. (ok r, x)) second,
        valid,
        subst (λ x. checked_result command x ≡ ok r) same checked,
      )

pub commit_printed-replay :
    {S : Type 0} (store : CommitCommand → String → S → Result InventoryError CommitResult × S)
    (command : CommitCommand) (s : S) (print : String) {r : CommitResult} {s' : S}
    → store command print s ≡ (ok r, s')
    → checked_result command r ≡ ok r
    → commit_printed store command s (ok print) ≡ (ok r, s')
unfolding commit_printed
commit_printed-replay store command s print {r} {s'} again checked =
    rw again (ap (λ x. (x, s')) checked)

-- A result that Service.Commit has returned is returned again: when the same command is sent once
-- more, it gets the same result, and the tables stay as the others left them. Others may have
-- committed in between, but left the receipt of the operation alone, and no step of the second
-- call's first attempt fails.
pub service_commit-again :
    (digest : Digest) (envs envs' : ℕ → Env) (between between' : ℕ → Db → Db)
    (actor actor' : String) (command : CommitCommand) (db db' : Db) (r : CommitResult)
    → commit_with digest envs between actor command db ≡ (ok r, db')
    → Works (envs' 0)
    → receipt_of command.operation_id (between' 0 db') ≡ receipt_of command.operation_id db'
    → commit_with digest envs' between' actor' command db' ≡ (ok r, between' 0 db')
unfolding service_commit
service_commit-again digest envs envs' between between' actor actor' command db db' r done w kept =
    let (print, printed, called, valid, checked) =
      commit_printed-ok (λ c p d. commit envs between actor c p d) command db
        (fingerprint digest command) done in
    let received = commit-Received envs between actor command print db called in
    let moved : Received command.operation_id print r (between' 0 db') = record {
      row = received.row;
      found = kept ∙ received.found;
      printed = received.printed;
      holds = received.holds;
    } in
    let again = commit-replay envs' between' actor' command print db' r w moved valid in
    let store : CommitCommand → String → Db → Result InventoryError CommitResult × Db =
      λ c p d. commit envs' between' actor' c p d in
    ap (commit_printed store command db') printed
    ∙ commit_printed-replay store command db' print again checked
