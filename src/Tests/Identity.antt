-- ===== src/Tests/Identity.antt =====
-- Runs of core/internal/identity/service.go, with the simple functions of Tests/Crypto.antt in place of the
-- ciphers and digests.
use autosecrets.Prelude.{
  ℕ, ◌≡◌, ◌≤◌, length, is_some, refl, arith, Bool, true, false, none, some, List, [], ◌∷◌, codes,
  find, any, ◌==◌,
}
use autosecrets.Store.Identity.Rows.{
  IdentityDb, no_identity, role_administrator, OrganizationConfig, Admin,
}
use autosecrets.Identity.Service.Flow.{
  session_absolute_ttl, Service, IssuedSession, Outcome, done, stopped, invalid_credentials,
}
use autosecrets.Identity.Service.Logins.{bootstrap, login, LoginOutput}
use autosecrets.Identity.Service.Requests.{
  Request, bootstraps, logs_in, switches_password_login, unbinds_oidc, apply_all,
}
use autosecrets.Identity.Service.Instances.{unbind_oidc}
use autosecrets.Identity.Service.Openness.{apply_all-has_way, apply_all-one_member}
use autosecrets.Identity.Service.Account.{change_member_password, switch_password_login}
use autosecrets.Identity.Service.Checks.{password_ok}
use autosecrets.Identity.Service.SignIn.{IsAdmitted, AnswersFor, login-IsAdmitted}
use autosecrets.Identity.Service.SecondFactor.{IsCompleted, complete_login-IsCompleted}
use autosecrets.Crypto.RecoveryCodes.{normalize_recovery_code}
use autosecrets.Identity.Service.Lockout.{is_reachable}
use autosecrets.Prelude.{◌||◌, not}
use autosecrets.Store.Identity.Rows.{LoginChallenge}
use autosecrets.Identity.Service.Logins.{complete_login}
use autosecrets.Identity.Service.Rotation.{
  is_other_session, refuses_password, change_member_password-rotates,
}
use autosecrets.Identity.Service.Lockout.{has_way}
use autosecrets.Identity.Service.Frame.{core_of}
use autosecrets.Tests.Crypto.{toys, key, base64, argon, text_number_of}
use autosecrets.Crypto.Passwords.{verify_password}
use autosecrets.Crypto.Totp.{subtle_constant_time_equal}

abbrev the_service : Service
the_service = record {
  primitives = toys;
  master_key = key;
  oidc_ready = true;
  oauth_ready = false;
  now = 0;
}

-- An installation with a Bootstrap Code.
abbrev fresh : IdentityDb
fresh = record no_identity {
  bootstrap_codes = record { code_hash = 9; expires_at = 1000; used_at = none } ∷ [];
}

abbrev word : List ℕ
word = codes "a long enough word"

abbrev requests : List (ℕ × Request)
requests =
    (10, bootstraps 10 1 (5 ∷ 6 ∷ []) 101 102 9 (codes "Home") (codes "admin") word)
    ∷ (20, logs_in 20 103 104 105 (codes "admin") word 7)
    ∷ (30, switches_password_login 1 103 word [] false)
    ∷ (40, unbinds_oidc 1 103 word [])
    ∷ []

abbrev installed : IdentityDb
installed =
    apply_all the_service
      ((10, bootstraps 10 1 (5 ∷ 6 ∷ []) 101 102 9 (codes "Home") (codes "admin") word) ∷ []) fresh

-- The same installation with an external identity bound.
abbrev bound : IdentityDb
bound = record installed {
  external_identity_binding =
      some (record { admin_id = 1; issuer = 31; subject = 32; display_name = 33 });
}

-- The Bootstrap is tried again, the Administrator switches password login off and then tries to remove
-- the binding.
after_requests : IdentityDb
unfolding bootstrap login switch_password_login unbind_oidc toys verify_password
    subtle_constant_time_equal
after_requests = apply_all the_service requests bound

-- Password login is off, and the binding is still there.
binding_stays :
    (after_requests.organization_config
      ≡ some (record {
        display_name = text_number_of (codes "Home");
        totp_login_required = false;
        password_login_enabled = false;
      }))
    × (is_some after_requests.external_identity_binding ≡ true)
unfolding after_requests
binding_stays = (refl, refl)

apply_all-has_way_example : has_way true false (core_of after_requests) ≡ true
unfolding after_requests
apply_all-has_way_example = apply_all-has_way the_service requests bound refl

apply_all-one_member_example : length after_requests.admins ≤ 1
unfolding after_requests
apply_all-one_member_example = apply_all-one_member the_service requests bound (omega arith)

is_signed_in : Outcome LoginOutput → Bool
is_signed_in (done (LoginOutput.signed_in s)) = true
is_signed_in _ = false

-- After Bootstrap the Administrator can log in, and not with another password.
administrator_logs_in :
    (is_signed_in (login the_service 20 103 104 105 (codes "admin") word 7 installed).0 ≡ true)
    × ((login the_service 20 103 104 105 (codes "admin") (codes "guess") 7 installed).0
        ≡ stopped invalid_credentials)
unfolding login bootstrap toys is_signed_in verify_password subtle_constant_time_equal
administrator_logs_in = (refl, refl)

abbrev signed_in_admin : LoginOutput
signed_in_admin = LoginOutput.signed_in (record {
  id = 103;
  csrf_token = 104;
  username = text_number_of (codes "admin");
  member_id = 1;
  role = role_administrator;
  expires_at = session_absolute_ttl;
})

after_login : IdentityDb
unfolding login bootstrap toys verify_password subtle_constant_time_equal
after_login = (login the_service 20 103 104 105 (codes "admin") word 7 installed).1

login-IsAdmitted_example :
    (org : OrganizationConfig) × (m : Admin) × IsAdmitted the_service
      (codes "admin")
      word
      installed
      org
      m
    × AnswersFor org m installed after_login signed_in_admin
unfolding after_login
login-IsAdmitted_example =
    login-IsAdmitted the_service 20 103 104 105 (codes "admin") word 7 installed after_login
      signed_in_admin refl

abbrev new_word : List ℕ
new_word = codes "another long word"

abbrev renewed_session : IssuedSession
renewed_session = record {
  id = 203;
  csrf_token = 204;
  username = text_number_of (codes "admin");
  member_id = 1;
  role = role_administrator;
  expires_at = session_absolute_ttl;
}

after_change : IdentityDb
unfolding change_member_password bootstrap toys verify_password subtle_constant_time_equal
after_change =
    (change_member_password the_service 30 (7 ∷ []) 203 204 1 word new_word [] installed).1

change_member_password-rotates_example :
    (m : Admin) × (find (λ a. a.id == 1) installed.admins ≡ some m)
    × (password_ok the_service word m ≡ true)
    × (any (is_other_session m.id 203) after_change.sessions ≡ false)
    × (any (refuses_password the_service m.id new_word) after_change.admins ≡ false)
unfolding after_change
change_member_password-rotates_example =
    change_member_password-rotates the_service 30 (7 ∷ []) 203 204 1 word new_word [] installed
      after_change renewed_session base64 argon (omega arith, tt) refl

-- The same installation with the second factor required, and a recovery code for the Administrator.
abbrev guarded : IdentityDb
guarded = record installed {
  organization_config = some (record {
    display_name = text_number_of (codes "Home");
    totp_login_required = true;
    password_login_enabled = true;
  });
  recovery_codes =
      record { admin_id = 1; code_hash = text_number_of (codes "ABCDEFGH"); used_at = none } ∷ [];
}

after_challenge : IdentityDb
unfolding login bootstrap toys verify_password subtle_constant_time_equal
after_challenge = (login the_service 20 103 104 105 (codes "admin") word 7 guarded).1

after_second_factor : IdentityDb
unfolding after_challenge complete_login normalize_recovery_code
after_second_factor =
    (complete_login the_service 25 303 304 105 7 [] (codes "abcd-efgh") after_challenge).1

complete_login-IsCompleted_example :
    ((org : OrganizationConfig) × (after_challenge.organization_config ≡ some org)
      × (org.password_login_enabled || not (is_reachable true false after_challenge) ≡ true))
    × ((c : LoginChallenge) × (m : Admin) × IsCompleted the_service 105 7 []
          (codes "abcd-efgh")
          after_challenge
          c
          m)
unfolding after_second_factor
complete_login-IsCompleted_example =
    complete_login-IsCompleted the_service 25 303 304 105 7 [] (codes "abcd-efgh") after_challenge
      after_second_factor (record renewed_session { id = 303; csrf_token = 304 }) refl
