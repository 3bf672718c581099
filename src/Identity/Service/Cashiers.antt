-- ===== src/Identity/Service/Cashiers.antt =====
-- services/ordering/internal/identity/application/cashiers.go.
use b46_ordering_app_backend.Base.{String, Bool, not, ◌&&◌, ◌||◌, List, fail_if, or_fail, ◌=s=◌}
use b46_ordering_app_backend.Identity.Domain.{
  role_admin, AccountStatus, account_active, account_disabled, unknown_status, status_eq, is_active,
  UserView, Principal, technical, invalid_input, unauthenticated, hash_password, validate_password,
}
use b46_ordering_app_backend.Identity.Sessions
use b46_ordering_app_backend.Identity.Accounts.{user_view}
use b46_ordering_app_backend.Identity.Cashiers as Store
use b46_ordering_app_backend.Identity.Service.{
  World, Call, ◌>>=◌, ◌>>◌, give, reading, on_error, is_ok, password_error, check_password,
  authorize,
}

unfoldable pub list_cashiers :
    (String → String → Bool) → World → Principal → AccountStatus → Call (List UserView)
list_cashiers before w actor status = do
  give (authorize actor role_admin)
  give (
      fail_if
        (not (status_eq status (unknown_status ""))
          && not (status_eq status account_active)
          && not (status_eq status account_disabled))
        invalid_input)
  reading (Store.list_cashiers before (w.store 0) status)

unfoldable pub cashier : World → Principal → String → Call UserView
cashier w actor id = do
  give (authorize actor role_admin)
  give (fail_if (not (w.parses_uuid id)) invalid_input)
  reading (Store.cashier_view (w.store 0) id)

unfoldable pub set_cashier_status : World → Principal → String → AccountStatus → Call UserView
set_cashier_status w actor id target = do
  give (authorize actor role_admin)
  give (fail_if (not (w.parses_uuid id)) invalid_input)
  give (
      fail_if (not (status_eq target account_active) && not (status_eq target account_disabled))
        invalid_input)
  Store.set_cashier_status (w.store 0) actor.user_id id target (w.clock 0)

unfoldable pub reset_cashier_password : World → Principal → String → String → Call UserView
reset_cashier_password w actor id temporary_password = do
  give (authorize actor role_admin)
  give (
      fail_if (not (w.parses_uuid id) || not (is_ok (validate_password temporary_password)))
        invalid_input)
  hash ← give (or_fail (w.hash temporary_password) (technical hash_password))
  Store.reset_cashier_password (w.store 0) actor.user_id id hash (w.clock 0)

unfoldable pub change_own_password : World → Principal → String → String → Call (Unit {0})
change_own_password w actor current_password new_password = do
  give (fail_if (not (is_active actor.status)) unauthenticated)
  give (
      fail_if (not (is_ok (validate_password new_password)) || current_password =s= new_password)
        invalid_input)
  view ← reading (user_view (w.store 0) actor.user_id)
  found ←
      on_error password_error
        (reading (Sessions.find_password (w.store 1) view.user.normalized_email))
  _ ← give (check_password w current_password found.password_hash)
  hash ← give (or_fail (w.hash new_password) (technical hash_password))
  Store.change_own_password (w.store 2) actor.user_id actor.family_id found.password_hash hash
      (w.clock 0)
