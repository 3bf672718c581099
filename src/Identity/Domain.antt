-- ===== src/Identity/Domain.antt =====
-- services/ordering/internal/identity/domain/identity.go and registration.go. `time.Time` and
-- `time.Duration` are numbers of nanoseconds. A role is one of the three that the check constraint of
-- `users.role` admits; the other string types keep any other text as `unknown_...`.

pub mod Email
use Prim.Native.Char.{Char, code}
use b46_ordering_app_backend.Base.{
  ℕ, suc, zero, ◌<◌, String, Bool, true, false, not, ◌&&◌, ◌||◌, Option, List, [], ◌∷◌, Result, ok,
  err, ◌>>=◌, ◌>>◌, fail_if, if◌then◌else◌, ◌==◌, ltb, ◌=s=◌, rune_count, trim_space, map_runes,
}

abbrev pub Time : Type 0
Time = ℕ

pub data Role : Type 0 where
  role_customer role_cashier role_admin : Role

pub data AccountStatus : Type 0 where
  account_active account_disabled : AccountStatus
  unknown_status : String → AccountStatus

pub data Provider : Type 0 where
  provider_password provider_google provider_apple : Provider
  unknown_provider : String → Provider

pub data OAuthPurpose : Type 0 where
  oauth_login oauth_link : OAuthPurpose

abbrev pub role_eq : Role → Role → Bool
role_eq role_customer role_customer = true
role_eq role_cashier role_cashier = true
role_eq role_admin role_admin = true
role_eq a b = false

abbrev pub status_eq : AccountStatus → AccountStatus → Bool
status_eq account_active account_active = true
status_eq account_disabled account_disabled = true
status_eq (unknown_status a) (unknown_status b) = a =s= b
status_eq a b = false

abbrev pub is_active : AccountStatus → Bool
is_active account_active = true
is_active account_disabled = false
is_active (unknown_status s) = false

abbrev pub provider_eq : Provider → Provider → Bool
provider_eq provider_password provider_password = true
provider_eq provider_google provider_google = true
provider_eq provider_apple provider_apple = true
provider_eq (unknown_provider a) (unknown_provider b) = a =s= b
provider_eq a b = false

abbrev pub is_oauth : Provider → Bool
is_oauth p = provider_eq p provider_google || provider_eq p provider_apple

abbrev pub purpose_eq : OAuthPurpose → OAuthPurpose → Bool
purpose_eq oauth_login oauth_login = true
purpose_eq oauth_link oauth_link = true
purpose_eq a b = false

-- The steps that can fail for a technical reason, which the wrapped errors name.
pub data Step : Type 0 where
  begin_tx commit_tx query_password update_hash lock_user query_access touch_session : Step
  lock_refresh add_session draw_family consume_session revoke_family insert_audit : Step
  insert_intent query_intent find_subject find_email insert_user insert_identity : Step
  consume_intent query_user query_providers lock_bootstrap find_admin disable_account : Step
  revoke_sessions list_rows read_cashier read_audit update_status require_change : Step
  count_rate check_owner store_pending load_pending update_code count_attempt : Step
  consume_pending lock_cashier_email clean_pending clean_buckets clean_cashiers : Step
  hash_password verify_password new_token new_code create_session upgrade_hash rollback_tx : Step

pub data IdentityError : Type 0 where
  invalid_input invalid_credentials unauthenticated forbidden disabled_account : IdentityError
  refresh_reuse invalid_oauth_intent invalid_oauth_token identity_link_required : IdentityError
  identity_linked admin_already_exists admin_not_found cashier_not_found email_in_use :
      IdentityError
  password_change_required invalid_registration registration_rate_limited : IdentityError
  registration_cooldown email_unavailable invalid_registration_name : IdentityError
  invalid_registration_email invalid_registration_password : IdentityError
  technical : Step → IdentityError
  wrapped : Step → IdentityError → IdentityError

pub record User : Type 0 where
  pub id : String
  pub name : String
  pub normalized_email : String
  pub role : Role
  pub status : AccountStatus
  pub must_change_password : Bool

pub record Principal : Type 0 where
  pub user_id : String
  pub role : Role
  pub status : AccountStatus
  pub family_id : String
  pub must_change_password : Bool

pub record PasswordRecord : Type 0 where
  pub user : User
  pub password_hash : String

pub record NewSession : Type 0 where
  pub user_id : String
  pub family_id : String
  pub parent_session_id : String
  pub access_token_hash : String
  pub refresh_token_hash : String
  pub access_expires_at : Time
  pub refresh_expires_at : Time

pub record SessionTokens : Type 0 where
  pub access_token : String
  pub access_token_expires_at : Time
  pub refresh_token : String
  pub refresh_token_expires_at : Time
  pub user : Option User

pub record OAuthIntent : Type 0 where
  pub id : String
  pub provider : Provider
  pub purpose : OAuthPurpose
  pub bound_user_id : String
  pub nonce_hash : String
  pub expires_at : Time

pub record VerifiedIdentity : Type 0 where
  pub provider : Provider
  pub subject : String
  pub email : String
  pub email_verified : Bool
  pub suggested_name : String

pub record AuditEntry : Type 0 where
  pub action : String
  pub actor_user_id : String
  pub outcome : String
  pub occurred_at : Time

pub record UserView : Type 0 where
  pub user : User
  pub providers : List Provider
  pub audit : List AuditEntry
  pub created : Bool
  pub email_verified : Bool

pub record PendingRegistration : Type 0 where
  pub id : String
  pub email : String
  pub name : String
  pub password_hash : String
  pub code_hash : String
  pub email_rate_key : String
  pub eligible : Bool
  pub created_at : Time
  pub expires_at : Time

-- unicode.ToLower is the argument `lower`, and strings.ToLower applies it to each code point.
abbrev pub to_lower : (Char → Char) → String → String
to_lower lower s = map_runes lower s

-- strings.Split at one ASCII character.
unfoldable pub split_part : ℕ → Char → List String → List String
split_part mark c [] = []
split_part mark c (part ∷ parts) =
    if code c == mark then "" ∷ part ∷ parts else String.◌∷◌ c part ∷ parts

unfoldable pub split_at : ℕ → String → List String
unfolding split_part
split_at mark String.[] = "" ∷ []
split_at mark (String.◌∷◌ c s) = split_part mark c (split_at mark s)

-- strings.Contains for one ASCII character.
unfoldable pub contains_char : ℕ → String → Bool
contains_char mark String.[] = false
contains_char mark (String.◌∷◌ c s) = code c == mark || contains_char mark s

abbrev pub is_address : List String → Bool
is_address [] = false
is_address (whole ∷ []) = false
is_address (local ∷ domain ∷ []) = not (local =s= "") && contains_char 0x2E domain
is_address (local ∷ domain ∷ more ∷ rest) = false

unfoldable pub normalize_email : (Char → Char) → String → Result IdentityError String
unfolding split_at
normalize_email lower value =
    let normalized = to_lower lower (trim_space value) in
    if not (is_address (split_at 0x40 normalized))
    then err invalid_input
    else if ltb 254 (rune_count normalized)
    then err invalid_input
    else ok normalized

unfoldable pub validate_password : String → Result IdentityError (Unit {0})
validate_password value =
    fail_if (ltb (rune_count value) 8 || ltb 128 (rune_count value)) invalid_input

-- The first code points of a text.
unfoldable pub first_runes : ℕ → String → String
first_runes zero s = ""
first_runes (suc n) String.[] = ""
first_runes (suc n) (String.◌∷◌ c s) = String.◌∷◌ c (first_runes n s)

abbrev pub first_part : List String → String
first_part [] = ""
first_part (part ∷ parts) = part

unfoldable pub display_name : String → String → String
unfolding first_runes split_at
display_name value email =
    let name = trim_space value in
    if not (name =s= "")
    then (if ltb 120 (rune_count name) then first_runes 120 name else name)
    else first_part (split_at 0x40 email)
