-- ===== src/Identity/Tables.antt =====
-- The tables that identity/adapters/postgres reads and writes, and its transactions. A transaction is
-- one step, since its statements lock the rows that they depend on. A table is a list of rows in
-- insertion order, and an id is in the canonical form of its uuid column.
use b46_ordering_app_backend.Base.{
  ℕ, String, Bool, true, false, Option, none, some, List, Result, ok, err, if◌then◌else◌,
  find_first, ltb,
}
use b46_ordering_app_backend.Identity.Domain.{
  Time, Role, AccountStatus, Provider, OAuthPurpose, Step, begin_tx, commit_tx, IdentityError,
  technical,
}

pub record UserRow : Type 0 where
  pub id : String
  pub name : String
  pub normalized_email : String
  pub role : Role
  pub account_status : AccountStatus
  pub must_change_password : Bool
  pub email_verified_at : Option Time

pub record IdentityRow : Type 0 where
  pub user_id : String
  pub provider : Provider
  pub provider_subject : String
  pub password_hash : Option String

pub record SessionRow : Type 0 where
  pub id : String
  pub user_id : String
  pub family_id : String
  pub parent_session_id : Option String
  pub access_token_hash : String
  pub refresh_token_hash : String
  pub access_expires_at : Time
  pub refresh_expires_at : Time
  pub created_at : Time
  pub refresh_consumed_at : Option Time
  pub revoked_at : Option Time
  pub revoked_reason : Option String
  pub replaced_by_session_id : Option String
  pub last_seen_at : Option Time

pub record IntentRow : Type 0 where
  pub id : String
  pub provider : Provider
  pub purpose : OAuthPurpose
  pub bound_user_id : Option String
  pub nonce_hash : String
  pub expires_at : Time
  pub consumed_at : Option Time
  pub created_at : Time

-- `outcome` is the text under "result" in the JSON column `details`.
pub record AuditRow : Type 0 where
  pub id : String
  pub actor_user_id : Option String
  pub action : String
  pub target_type : String
  pub target_id : String
  pub outcome : Option String
  pub occurred_at : Time

pub record PendingRow : Type 0 where
  pub id : String
  pub normalized_email : String
  pub display_name : String
  pub password_hash : Option String
  pub code_hash : String
  pub email_rate_key : String
  pub eligible : Bool
  pub attempt_count : ℕ
  pub created_at : Time
  pub expires_at : Time
  pub last_sent_at : Time
  pub consumed_at : Option Time

pub record CashierRow : Type 0 where
  pub id : String
  pub actor_user_id : String
  pub cashier_user_id : Option String
  pub created : Bool
  pub normalized_email : String
  pub display_name : String
  pub password_hash : String
  pub code_hash : String
  pub email_rate_key : String
  pub attempt_count : ℕ
  pub created_at : Time
  pub expires_at : Time
  pub last_sent_at : Time
  pub consumed_at : Option Time

pub record BucketRow : Type 0 where
  pub bucket_key : String
  pub window_started_at : Time
  pub request_count : ℕ

pub record Db : Type 0 where
  pub users : List UserRow
  pub identities : List IdentityRow
  pub sessions : List SessionRow
  pub intents : List IntentRow
  pub pending : List PendingRow
  pub pending_cashiers : List CashierRow
  pub buckets : List BucketRow
  pub audit : List AuditRow

-- What the database decides in one call of the store: which steps fail for a technical reason,
-- whether a write that reported an error took effect all the same, its clock, and the uuids it draws.
pub record Env : Type 0 where
  pub fails : Step → Bool
  pub applied : Bool
  pub now : Time
  pub new_id : Step → String

abbrev pub is_set {ℓ} : {A : Type ℓ} → Option A → Bool
is_set none = false
is_set (some a) = true

-- SQL's COALESCE and GREATEST.
abbrev pub coalesce {ℓ} : {A : Type ℓ} → Option A → A → A
coalesce none b = b
coalesce (some a) b = a

abbrev pub greatest : Time → Time → Time
greatest a b = if ltb a b then b else a

abbrev pub has {ℓ} : {A : Type ℓ} → (A → Bool) → List A → Bool
has p rows = is_set (find_first p rows)

-- `if err != nil { return fmt.Errorf(...) }` after a statement.
abbrev pub attempt : Env → Step → Result IdentityError (Unit {0})
attempt env s = if env.fails s then err (technical s) else ok tt

-- The end of a transaction: a body that failed is rolled back, the others are committed. The body
-- says what the call answers, which can be an error whose writes are to be kept.
unfoldable pub finish {ℓ} :
    {A : Type ℓ}
    → Env
    → Db
    → Result IdentityError (Result IdentityError A × Db)
    → Result IdentityError A × Db
finish env before (err e) = (err e, before)
finish env before (ok (answer, after)) =
    if env.fails commit_tx
    then (err (technical commit_tx), if env.applied then after else before)
    else (answer, after)

unfoldable pub transaction {ℓ} :
    {A : Type ℓ}
    → Env
    → (Db → Result IdentityError (Result IdentityError A × Db))
    → Db
    → Result IdentityError A × Db
unfolding finish
transaction env body db =
    if env.fails begin_tx then (err (technical begin_tx), db) else finish env db (body db)

-- One writing statement outside a transaction.
abbrev pub statement : Env → Step → (Db → Db) → Db → Result IdentityError (Unit {0}) × Db
statement env s write db =
    if env.fails s
    then (err (technical s), if env.applied then write db else db)
    else (ok tt, write db)
