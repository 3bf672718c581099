-- ===== src/Identity/Service/Registration.antt =====
-- services/ordering/internal/identity/application/registration.go. A call that sends a code answers
-- with the message as well, whether or not its delivery fails, which is only logged.
use Prim.Native.Char.{code}
use b46_ordering_app_backend.Base.{
  ◌+◌, String, Bool, true, false, not, ◌&&◌, ◌||◌, Option, none, some, Result, ok, err, fail_if,
  or_fail, if◌then◌else◌, ltb, leb, ◌==◌, trim_space, rune_count, byte_len, concat,
}
use b46_ordering_app_backend.Identity.Domain.{
  Time, role_admin, UserView, Principal, SessionTokens, PendingRegistration, IdentityError,
  technical, invalid_registration, invalid_registration_name, invalid_registration_email,
  invalid_registration_password, email_unavailable, hash_password, new_token, new_code,
  normalize_email, validate_password,
}
use b46_ordering_app_backend.Identity.Registration as Store
use b46_ordering_app_backend.Identity.CashierRegistration.{
  begin_cashier_registration, resend_cashier_registration, verify_cashier_registration,
}
use b46_ordering_app_backend.Identity.Service.{
  World, Call, ◌>>=◌, ◌>>◌, give, is_ok, is_blank, authorize, open_session,
}

abbrev pub registration_lifetime : Time
registration_lifetime = 600000000000

pub record RegistrationStart : Type 0 where
  pub id : String
  pub expires_at : Time

-- The address that a code is sent to, and the code.
abbrev pub Mail : Type 0
Mail = String × String

-- The checks that Begin and BeginCashier share: the trimmed name and the normalised address.
unfoldable pub valid_request :
    World → String → String → String → Result IdentityError (String × String)
valid_request w name email password =
    let trimmed = trim_space name in
    if ltb (rune_count trimmed) 1 || ltb 120 (rune_count trimmed)
    then err invalid_registration_name
    else elim (normalize_email w.lower email) [
      | err e ↦ err invalid_registration_email
      | ok normalized ↦
          if not (is_ok (validate_password password))
          then err invalid_registration_password
          else if not w.mailer_configured
          then err email_unavailable
          else ok (trimmed, normalized)
    ]

abbrev pub code_digest : World → String → String → String
code_digest w id code = w.digest (concat id (concat ":" code))

abbrev pub ip_key : World → String → String
ip_key w client_ip = concat "ip:" (w.digest client_ip)

abbrev pub pending_of :
    World → Bool → String → String → String → String → String → PendingRegistration
pending_of w eligible name email hash id code = record {
  id = id;
  email = email;
  name = name;
  password_hash = hash;
  code_hash = code_digest w id code;
  email_rate_key = concat "email:" (w.digest email);
  eligible = eligible;
  created_at = w.clock 0;
  expires_at = w.clock 0 + registration_lifetime;
}

abbrev pub mail_if : Bool → String → String → Option Mail
mail_if eligible email code = if eligible then some (email, code) else none

unfoldable pub begin :
    World → String → String → String → String → Call (RegistrationStart × Option Mail)
unfolding valid_request
begin w name email password client_ip = do
  valid ← give (valid_request w name email password)
  hash ← give (or_fail (w.hash password) (technical hash_password))
  id ← give (or_fail (w.token 0) (technical new_token))
  code ← give (or_fail w.new_code (technical new_code))
  eligible ←
      Store.begin_registration (w.store 0) (pending_of w true valid.0 valid.1 hash id code)
        (ip_key w client_ip) (w.clock 0)
  give (
      ok (
        record { id = id; expires_at = w.clock 0 + registration_lifetime },
        mail_if eligible valid.1 code,
      ))

unfoldable pub resend : World → String → String → Call (RegistrationStart × Option Mail)
resend w id client_ip = do
  give (fail_if (not w.mailer_configured) email_unavailable)
  give (fail_if (is_blank id) invalid_registration)
  code ← give (or_fail w.new_code (technical new_code))
  found ←
      Store.resend_registration (w.store 0) id (code_digest w id code) (ip_key w client_ip)
        (w.clock 0) (w.clock 0 + registration_lifetime)
  give (
      ok (
        record { id = id; expires_at = w.clock 0 + registration_lifetime },
        mail_if found.1 found.0 code,
      ))

-- The loop over the characters of a code.
all_digits : String → Bool
all_digits String.[] = true
all_digits (String.◌∷◌ c s) = leb 0x30 (code c) && leb (code c) 0x39 && all_digits s

unfoldable pub valid_registration_code : String → String → Bool
unfolding all_digits
valid_registration_code id code = not (is_blank id) && (byte_len code == 6) && all_digits code

unfoldable pub verify : World → String → String → Call SessionTokens
unfolding valid_registration_code
verify w id code = do
  give (fail_if (not (valid_registration_code id code)) invalid_registration)
  user ← Store.verify_registration (w.store 0) id (code_digest w id code) (w.clock 1)
  open_session w (w.store 1) user.id

unfoldable pub begin_cashier :
    World → Principal → String → String → String → String → Call (RegistrationStart × Option Mail)
unfolding valid_request
begin_cashier w actor name email temporary_password client_ip = do
  give (authorize actor role_admin)
  valid ← give (valid_request w name email temporary_password)
  hash ← give (or_fail (w.hash temporary_password) (technical hash_password))
  id ← give (or_fail (w.token 0) (technical new_token))
  code ← give (or_fail w.new_code (technical new_code))
  begin_cashier_registration (w.store 0) (pending_of w false valid.0 valid.1 hash id code)
      actor.user_id (ip_key w client_ip) (w.clock 0)
  give (
      ok (record { id = id; expires_at = w.clock 0 + registration_lifetime }, some (valid.1, code)))

unfoldable pub resend_cashier :
    World → Principal → String → String → Call (RegistrationStart × Option Mail)
resend_cashier w actor id client_ip = do
  give (authorize actor role_admin)
  give (fail_if (not w.mailer_configured) email_unavailable)
  give (fail_if (is_blank id) invalid_registration)
  code ← give (or_fail w.new_code (technical new_code))
  email ←
      resend_cashier_registration (w.store 0) actor.user_id id (code_digest w id code)
        (ip_key w client_ip) (w.clock 0) (w.clock 0 + registration_lifetime)
  give (ok (record { id = id; expires_at = w.clock 0 + registration_lifetime }, some (email, code)))

unfoldable pub verify_cashier : World → Principal → String → String → Call UserView
unfolding valid_registration_code
verify_cashier w actor id code = do
  give (authorize actor role_admin)
  give (fail_if (not (valid_registration_code id code)) invalid_registration)
  verify_cashier_registration (w.store 0) actor.user_id id (code_digest w id code) (w.clock 0)

abbrev pub cleanup : World → Call (Unit {0})
cleanup w = Store.delete_expired_registrations (w.store 0) (w.clock 0)
