-- ===== src/Identity/Service/SignIn.antt =====
-- service.go: who gets a session from `Login` and what a new password does to the sessions of a member.
use autosecrets.Prelude.{
  ℕ, ◌≡◌, subst, arith, true, false, not, ◌||◌, some, List, find, ◌==◌, Bool-cases, Option-cases,
  inl, inr,
}
use autosecrets.Store.Identity.Rows.{
  OrganizationConfig, Admin, is_member_active, IdentityDb, AuditAction, auth_login,
}
use autosecrets.Store.Factors.{create_login_challenge}
use autosecrets.Identity.Service.Flow.{Service, done, Flow}
use autosecrets.Identity.Service.Keeps.{bind_done}
use autosecrets.Identity.Service.Lockout.{is_reachable}
use autosecrets.Identity.Service.Checks.{password_ok, issue_session}
use autosecrets.Identity.Service.Logins.{
  LoginOutput, signed_in, challenged, password_login_or_deny, login_member, login_with, login,
}

pub password_login_or_deny-done :
    (sv : Service) (action : AuditAction) (s : IdentityDb) (org : OrganizationConfig)
    → (password_login_or_deny sv action s).0 ≡ done org
    → ((password_login_or_deny sv action s).1 ≡ s)
      × (s.organization_config ≡ some org)
      × (org.password_login_enabled || not (is_reachable sv.oidc_ready sv.oauth_ready s) ≡ true)
unfolding password_login_or_deny
password_login_or_deny-done sv action s org h =
    (ground (arith, h), ground (arith, h), ground (arith, h))

-- The conditions under which `Login` gives a session.
abbrev pub IsAdmitted : Service → List ℕ → List ℕ → IdentityDb → OrganizationConfig → Admin → Type 0
IsAdmitted sv username password s org m =
    (s.organization_config ≡ some org)
    × (org.password_login_enabled || not (is_reachable sv.oidc_ready sv.oauth_ready s) ≡ true)
    × (find (λ a. a.username == sv.primitives.text_number username) s.admins ≡ some m)
    × (is_member_active m.status ≡ true)
    × (password_ok sv password m ≡ true)

-- What the answer of `Login` says of the policy and the sessions.
abbrev pub AnswersFor : OrganizationConfig → Admin → IdentityDb → IdentityDb → LoginOutput → Type 0
AnswersFor org m s s' (signed_in issued) =
    (org.totp_login_required ≡ false) × (issued.member_id ≡ m.id)
AnswersFor org m s s' (challenged token) =
    (org.totp_login_required ≡ true) × (s'.sessions ≡ s.sessions)

login_member-answers :
    (sv : Service) (at session csrf challenge source : ℕ) (org : OrganizationConfig) (m : Admin)
    (s s' : IdentityDb) (out : LoginOutput)
    → login_member sv at session csrf challenge source org.totp_login_required m s ≡ (done out, s')
    → AnswersFor org m s s' out
unfolding login_member issue_session create_login_challenge
login_member-answers sv at session csrf challenge source org m s s' (signed_in issued) h =
    (ground (arith, h), ground (arith, h))
login_member-answers sv at session csrf challenge source org m s s' (challenged token) h =
    (ground (arith, h), ground (arith, h))

login_with-admits :
    (sv : Service) (at session csrf challenge : ℕ) (username password : List ℕ) (source : ℕ)
    (org : OrganizationConfig) (s s' : IdentityDb) (out : LoginOutput)
    → login_with sv at session csrf challenge username password source org s ≡ (done out, s')
    → (m : Admin) × (find (λ a. a.username == sv.primitives.text_number username) s.admins ≡ some m)
      × (is_member_active m.status ≡ true)
      × (password_ok sv password m ≡ true)
      × AnswersFor org m s s' out
unfolding login_with
login_with-admits sv at session csrf challenge username password source org s s' out h =
    elim (Option-cases (find (λ a. a.username == sv.primitives.text_number username) s.admins)) [
      | inl missing ↦ absurd (ground (arith, missing, h))
      | inr (m, is_m) ↦ elim (Bool-cases (is_member_active m.status)) [
        | inr inactive ↦ absurd (ground (arith, is_m, inactive, h))
        | inl active ↦ elim (Bool-cases (password_ok sv password m)) [
          | inr wrong ↦ absurd (ground (arith, is_m, active, wrong, h))
          | inl right ↦ (
            m,
            is_m,
            active,
            right,
            login_member-answers sv at session csrf challenge source org m s s' out
                (ground (arith, is_m, active, right, h)),
          )
        ]
      ]
    ]

-- If `Login` gives an answer, then the Organization exists, password login is enabled or no external
-- identity can be used, the user name is that of an active member, and the password is accepted for that
-- member; the answer is a session of the member if the policy asks for no second factor, and otherwise a
-- challenge that leaves the sessions as they were.
pub login-IsAdmitted :
    (sv : Service) (at session csrf challenge : ℕ) (username password : List ℕ) (source : ℕ)
    (s s' : IdentityDb) (out : LoginOutput)
    → login sv at session csrf challenge username password source s ≡ (done out, s')
    → (org : OrganizationConfig) × (m : Admin) × IsAdmitted sv username password s org m
      × AnswersFor org m s s' out
unfolding login
login-IsAdmitted sv at session csrf challenge username password source s s' out h =
    let continue : OrganizationConfig → Flow LoginOutput =
      login_with sv at session csrf challenge username password source in
    let (org, checked, rest) =
      bind_done (password_login_or_deny sv auth_login) continue s s' out h in
    let (same, found, allowed) = password_login_or_deny-done sv auth_login s org checked in
    let here : continue org s ≡ (done out, s') =
      subst (λ t. continue org t ≡ (done out, s')) same rest in
    let (m, is_m, active, right, answers) =
      login_with-admits sv at session csrf challenge username password source org s s' out here in
    (org, m, (found, allowed, is_m, active, right), answers)
