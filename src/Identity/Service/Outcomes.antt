-- ===== src/Identity/Service/Outcomes.antt =====
-- What a call of the service that answers with a value says of its parts.
use b46_ordering_app_backend.Base.{◌≡◌, refl, Result, ok, err}
use b46_ordering_app_backend.Identity.Domain.{IdentityError}
use b46_ordering_app_backend.Identity.Tables.{Db}
use b46_ordering_app_backend.Identity.Service.{proceed, translated}

pub proceed_ok {ℓ κ μ} :
    {A : Type ℓ} {B : Type κ} {P : Type μ} (r : Result IdentityError A × Db)
    {rest : A → Db → Result IdentityError B × Db} {b : B}
    → (proceed rest r).0 ≡ ok b
    → ((a : A) (d : Db)
        → r ≡ (ok a, d)
        → (rest a d).0 ≡ ok b
        → (proceed rest r).1 ≡ (rest a d).1
        → P)
    → P
proceed_ok (ok a, d) h use_it = use_it a d refl h refl
proceed_ok (err e, d) h use_it = absurd (cc)

pub translated_ok {ℓ} :
    {A : Type ℓ} (f : IdentityError → IdentityError) (r : Result IdentityError A × Db) {a : A}
    {d : Db}
    → translated f r ≡ (ok a, d)
    → r ≡ (ok a, d)
translated_ok f (ok a, d) h = h
translated_ok f (err e, d) h = cc

-- Rewording an error leaves the tables and the values alone.
pub translated_tables {ℓ} :
    {A : Type ℓ} (f : IdentityError → IdentityError) (r : Result IdentityError A × Db)
    → (translated f r).1 ≡ r.1
translated_tables f (ok a, d) = refl
translated_tables f (err e, d) = refl

pub translated_value {ℓ} :
    {A : Type ℓ} (f : IdentityError → IdentityError) (r : Result IdentityError A × Db) {a : A}
    → r.0 ≡ ok a
    → (translated f r).0 ≡ ok a
translated_value f (ok a, d) h = h
translated_value f (err e, d) h = cc
