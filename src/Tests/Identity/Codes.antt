-- ===== src/Tests/Identity/Codes.antt =====
-- A registration begun, guessed at and finished.
use b46_ordering_app_backend.Base.{
  ◌≡◌, ◌≢◌, refl, true, false, some, List, [], ◌∷◌, ◌++◌, ok, find_first, arith,
}
use b46_ordering_app_backend.Base.Keys.{apart}
use b46_ordering_app_backend.Identity.Domain.{role_customer, PendingRegistration}
use b46_ordering_app_backend.Identity.Tables.{Db, Env, PendingRow}
use b46_ordering_app_backend.Identity.Sessions.{user_of}
use b46_ordering_app_backend.Identity.OAuth.{new_user}
use b46_ordering_app_backend.Identity.Registration.{
  begin_registration, verify_registration, pending_row, find_pending, window_of,
}
use b46_ordering_app_backend.Identity.Registration.Limits.{Counts, begin_registration-Counts}
use b46_ordering_app_backend.Identity.Registration.Codes.{verify_registration-once}
use b46_ordering_app_backend.Identity.Registration.Attempts.{
  Guess, IsWrong, guess_all, verify_registration-locks,
}
use b46_ordering_app_backend.Identity.Registration.Registers.{begin_registration-verifies}
use b46_ordering_app_backend.Tests.Identity.{drawing, works, start}

abbrev dora : PendingRegistration
dora = record {
  id = "reg-1";
  email = "dora@b46.ph";
  name = "Dora";
  password_hash = "h9";
  code_hash = "code-1";
  email_rate_key = "email:dora";
  eligible = true;
  created_at = 20;
  expires_at = 620;
}

begun : (begin_registration (drawing "b1") dora "ip:1" 20 start).0 ≡ ok true
unfolding begin_registration b46_ordering_app_backend.Identity.Tables.transaction find_first
begun = refl

begin_registration-Counts_example :
    Counts "email:dora" "ip:1"
      (window_of 20)
      start.buckets
      (begin_registration (drawing "b1") dora "ip:1" 20 start).1.buckets
begin_registration-Counts_example =
    begin_registration-Counts (drawing "b1") dora "ip:1" 20 start true
      (apart {a = "email:dora"} {b = "ip:1"} refl) begun

begin_registration-verifies_example :
    (verify_registration
      (drawing "u9")
      "reg-1"
      "code-1"
      30
      (begin_registration (drawing "b1") dora "ip:1" 20 start).1).0
    ≡ ok (user_of (new_user (drawing "u9") "Dora" "dora@b46.ph" role_customer))
unfolding find_first
begin_registration-verifies_example =
    begin_registration-verifies (drawing "b1") (drawing "u9") dora "ip:1" 20 30 start begun
      (works "u9") refl refl refl

abbrev pending : Db
pending = record start { pending = pending_row dora false 20 ∷ [] }

finished :
    (verify_registration (drawing "u9") "reg-1" "code-1" 30 pending).0
    ≡ ok (user_of (new_user (drawing "u9") "Dora" "dora@b46.ph" role_customer))
unfolding verify_registration b46_ordering_app_backend.Identity.Tables.transaction find_first
finished = refl

verify_registration-once_example :
    (r : PendingRow) × (find_pending "reg-1" pending ≡ some r)
    × (r.code_hash ≡ "code-1")
    × ((verify_registration (drawing "u9") "reg-1" "code-1" 30 pending).1.users
        ≡ pending.users
          ++ new_user (drawing "u9") r.display_name r.normalized_email role_customer ∷ [])
    × ((verify_registration
          (drawing "u8")
          "reg-1"
          "code-1"
          40
          (verify_registration (drawing "u9") "reg-1" "code-1" 30 pending).1).0
        ≢ ok (user_of (new_user (drawing "u8") "Dora" "dora@b46.ph" role_customer)))
verify_registration-once_example =
    verify_registration-once (drawing "u9") (drawing "u8") "reg-1" "code-1" "code-1" 30 40 pending
      (user_of (new_user (drawing "u9") "Dora" "dora@b46.ph" role_customer))
      (user_of (new_user (drawing "u8") "Dora" "dora@b46.ph" role_customer)) finished

abbrev guess : Guess
guess = record { env = drawing "g1"; code_hash = "code-2"; now = 30 }

abbrev guesses : List Guess
guesses = guess ∷ guess ∷ guess ∷ guess ∷ guess ∷ []

pending_here : find_pending "reg-1" pending ≡ some (pending_row dora false 20)
unfolding find_first
pending_here = refl

wrong : IsWrong "code-1" 620 guess
wrong = record {
  works = works "g1";
  wrong = apart {a = "code-1"} {b = "code-2"} refl;
  timely = refl;
}

verify_registration-locks_example :
    ((guess_all guesses "reg-1" pending).users ≡ pending.users)
    × ((verify_registration
          (drawing "u9")
          "reg-1"
          "code-1"
          40
          (guess_all guesses "reg-1" pending)).0
        ≢ ok (user_of (new_user (drawing "u9") "Dora" "dora@b46.ph" role_customer)))
verify_registration-locks_example =
    verify_registration-locks guesses (drawing "u9") "reg-1" "code-1" 40 pending
      (pending_row dora false 20)
      (user_of (new_user (drawing "u9") "Dora" "dora@b46.ph" role_customer)) pending_here
      (wrong, (wrong, (wrong, (wrong, (wrong, tt))))) (omega arith)
