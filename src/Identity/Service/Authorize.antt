-- ===== src/Identity/Service/Authorize.antt =====
-- Authorizing a principal for a role.
use b46_ordering_app_backend.Base.{
  ◌≡◌, ◌↔◌, inl, inr, refl, sym, ◌∙◌, ap, true, false, ok, arith, Bool-cases,
}
use b46_ordering_app_backend.Identity.Domain.{
  Role, role_customer, role_cashier, role_admin, is_active, Principal, role_eq,
}
use b46_ordering_app_backend.Identity.Service.{authorize}

role_eq_sound : (a b : Role) → role_eq a b ≡ true → a ≡ b
role_eq_sound role_customer role_customer h = refl
role_eq_sound role_customer role_cashier h = cc
role_eq_sound role_customer role_admin h = cc
role_eq_sound role_cashier role_customer h = cc
role_eq_sound role_cashier role_cashier h = refl
role_eq_sound role_cashier role_admin h = cc
role_eq_sound role_admin role_customer h = cc
role_eq_sound role_admin role_cashier h = cc
role_eq_sound role_admin role_admin h = refl

role_eq_refl : (a : Role) → role_eq a a ≡ true
role_eq_refl role_customer = refl
role_eq_refl role_cashier = refl
role_eq_refl role_admin = refl

-- Authorize lets a principal through if the account is active, no password change is due, and the role
-- is the required one; and no other.
pub authorize_iff :
    (p : Principal) (required : Role)
    → (authorize p required ≡ ok tt)
      ↔ ((is_active p.status ≡ true) × (p.must_change_password ≡ false) × (p.role ≡ required))
unfolding authorize
authorize_iff p required = (
  (λ h. elim (Bool-cases (is_active p.status)) [
    | inr a ↦ absurd (ground (arith, a, h))
    | inl a ↦ elim (Bool-cases p.must_change_password) [
      | inl m ↦ absurd (ground (arith, a, m, h))
      | inr m ↦ elim (Bool-cases (role_eq p.role required)) [
        | inr r ↦ absurd (ground (arith, a, m, r, h))
        | inl r ↦ (a, m, role_eq_sound p.role required r)
      ]
    ]
  ]),
  (λ (active, settled, same).
      let matches : role_eq p.role required ≡ true =
        ap (role_eq p.role) (sym same) ∙ role_eq_refl p.role in
      rw (active, settled, matches)),
)
