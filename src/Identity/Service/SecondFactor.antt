-- ===== src/Identity/Service/SecondFactor.antt =====
-- service.go, `CompleteLogin`: what a session for a second factor takes.
use autosecrets.Prelude.{
  ℕ, ◌≡◌, refl, sym, subst, ap, arith, Bool, true, false, not, ◌||◌, some, List, find, ◌==◌,
  Bool-cases, Option-cases, inl, inr,
}
use autosecrets.Store.Tx.{Result, ok, err, transact}
use autosecrets.Store.Identity.Rows.{
  OrganizationConfig, Admin, LoginChallenge, is_member_active, IdentityDb, local,
  auth_second_factor, auth_login, result_local, actor_authentication, actor_member,
}
use autosecrets.Store.Identity.{member_by_id}
use autosecrets.Store.Factors.{consume_login_challenge, is_open_challenge}
use autosecrets.Identity.Service.Flow.{
  Service, IssuedSession, Outcome, done, stopped, attempt, give, Flow, ◌>>=◌, ◌>>◌, deny,
  audit_event, challenge_expired,
}
use autosecrets.Identity.Service.Checks.{verify_second_factor, issue_session}
use autosecrets.Identity.Service.Lockout.{is_reachable}
use autosecrets.Identity.Service.Logins.{
  password_login_or_deny, answered_or, second_factor_of, second_factor_used, complete_with,
  complete_login,
}
use autosecrets.Identity.Service.Keeps.{bind_done}
use autosecrets.Identity.Service.SignIn.{password_login_or_deny-done}

-- The challenge that was consumed was open, and it names the member.
consumed-found :
    (hash source now : ℕ) (s t : IdentityDb) (id : ℕ)
    → (answered_or
        (deny actor_authentication auth_second_factor 0 challenge_expired)
        (transact (consume_login_challenge hash source now) s).0
        t).0
      ≡ done id
    → ((answered_or
          (deny actor_authentication auth_second_factor 0 challenge_expired)
          (transact (consume_login_challenge hash source now) s).0
          t).1
        ≡ t)
      × ((c : LoginChallenge) × (find (is_open_challenge hash source now) s.login_challenges
            ≡ some c)
          × (c.admin_id ≡ id))
unfolding consume_login_challenge
consumed-found hash source now s t id h =
    elim (Option-cases (find (is_open_challenge hash source now) s.login_challenges)) [
      | inl missing ↦ absurd (ground (arith, missing, h))
      | inr (c, found) ↦ (ground (arith, found, h), (c, found, ground (arith, found, h)))
    ]

consumed-admins :
    (hash source now : ℕ) (s : IdentityDb)
    → (transact (consume_login_challenge hash source now) s).1.admins ≡ s.admins
unfolding consume_login_challenge
consumed-admins hash source now s = ground arith

second_factor_of-done :
    (sv : Service) (totp recovery : List ℕ) (found : Result Admin) (t : IdentityDb) (m : Admin)
    → (second_factor_of sv totp recovery found t).0 ≡ done m
    → (found ≡ ok m)
      × (is_member_active m.status ≡ true)
      × ((verify_second_factor sv m totp recovery t).0 ≡ done true)
second_factor_of-done sv totp recovery (err e) t m h = absurd (ground (arith, h))
second_factor_of-done sv totp recovery (ok row) t m h =
    elim (Bool-cases (is_member_active row.status)) [
      | inr inactive ↦ absurd (ground (arith, inactive, h))
      | inl active ↦ by_outcome active (verify_second_factor sv row totp recovery t).0 refl
    ]
  where
    by_outcome :
        is_member_active row.status ≡ true
        → (o : Outcome Bool) → (verify_second_factor sv row totp recovery t).0 ≡ o
        → (ok row ≡ ok m)
          × (is_member_active m.status ≡ true)
          × ((verify_second_factor sv m totp recovery t).0 ≡ done true)
    by_outcome active (done true) e =
        let same : row ≡ m = ground (arith, active, e, h) in
        (
          ap ok same,
          subst (λ a. is_member_active a.status ≡ true) same active,
          subst (λ a. (verify_second_factor sv a totp recovery t).0 ≡ done true) same e,
        )
    by_outcome active (done false) e = absurd (ground (arith, active, e, h))
    by_outcome active (stopped x) e = absurd (ground (arith, active, e, h))

member_by_id-found :
    (id : ℕ) (t : IdentityDb) (m : Admin)
    → (transact (member_by_id id) t).0 ≡ ok m
    → find (λ a. a.id == id) t.admins ≡ some m
unfolding member_by_id
member_by_id-found id t m h = ground (arith, h)

member_by_id-state : (id : ℕ) (t : IdentityDb) → (transact (member_by_id id) t).1 ≡ t
unfolding member_by_id
member_by_id-state id t = ground arith

-- The conditions under which `CompleteLogin` gives a session: an open challenge for the source, of an
-- active member, and a second factor of that member, looked at once the challenge has been used up.
abbrev pub IsCompleted :
    Service → ℕ → ℕ → List ℕ → List ℕ → IdentityDb → LoginChallenge → Admin → Type 0
IsCompleted sv challenge source totp recovery s c m =
    (find (is_open_challenge (sv.primitives.sha256_hex challenge) source sv.now) s.login_challenges
      ≡ some c)
    × (find (λ a. a.id == c.admin_id) s.admins ≡ some m)
    × (is_member_active m.status ≡ true)
    × ((verify_second_factor sv m totp recovery
          (transact (consume_login_challenge (sv.primitives.sha256_hex challenge) source sv.now)
            s).1).0
        ≡ done true)

complete_with-proves :
    (sv : Service) (at session csrf challenge source : ℕ) (totp recovery : List ℕ)
    (s s' : IdentityDb) (issued : IssuedSession)
    → complete_with sv at session csrf challenge source totp recovery s ≡ (done issued, s')
    → (c : LoginChallenge) × (m : Admin) × IsCompleted sv challenge source totp recovery s c m
unfolding complete_with
complete_with-proves sv at session csrf challenge source totp recovery s s' issued h =
    let hash = sv.primitives.sha256_hex challenge in
    let consumed = transact (consume_login_challenge hash source sv.now) s in
    let answer : Flow ℕ =
      answered_or (deny actor_authentication auth_second_factor 0 challenge_expired) consumed.0 in
    let finish : Admin → Flow IssuedSession = λ m.
      (issue_session sv at session csrf m local >>= λ out.
      audit_event (actor_member m.username) auth_second_factor m.id (second_factor_used recovery)
      >> (audit_event (actor_member m.username) auth_login m.id result_local >> give out)) in
    let prove : Result Admin → Flow Admin = second_factor_of sv totp recovery in
    let look : ℕ → Flow IssuedSession =
      λ id. attempt (member_by_id id) >>= λ found. prove found >>= finish in
    let (id, was_open, h1) = bind_done answer look consumed.1 s' issued h in
    let (same, (c, found, names)) = consumed-found hash source sv.now s consumed.1 id was_open in
    let h2 : look id consumed.1 ≡ (done issued, s') =
      subst (λ t. look id t ≡ (done issued, s')) same h1 in
    let row = transact (member_by_id id) consumed.1 in
    let (m, proved, _) = bind_done (prove row.0) finish row.1 s' issued h2 in
    let (is_row, active, verified) = second_factor_of-done sv totp recovery row.0 row.1 m proved in
    let is_m = member_by_id-found id consumed.1 m is_row in
    let owner : find (λ a. a.id == c.admin_id) s.admins ≡ some m =
      subst (λ rows. find (λ a. a.id == c.admin_id) rows ≡ some m)
        (consumed-admins hash source sv.now s)
        (subst (λ n. find (λ a. a.id == n) consumed.1.admins ≡ some m) (sym names) is_m) in
    let verified_then =
      subst (λ t. (verify_second_factor sv m totp recovery t).0 ≡ done true)
        (member_by_id-state id consumed.1) verified in
    (c, m, (found, owner, active, verified_then))

-- If `CompleteLogin` gives a session, then password login is enabled or no external identity can be used,
-- the token is that of an unused and unexpired challenge for the source, the member of the challenge is
-- active, and the second factor was accepted for that member after the challenge had been used up.
pub complete_login-IsCompleted :
    (sv : Service) (at session csrf challenge source : ℕ) (totp recovery : List ℕ)
    (s s' : IdentityDb) (issued : IssuedSession)
    → complete_login sv at session csrf challenge source totp recovery s ≡ (done issued, s')
    → ((org : OrganizationConfig) × (s.organization_config ≡ some org)
        × (org.password_login_enabled || not (is_reachable sv.oidc_ready sv.oauth_ready s) ≡ true))
      × ((c : LoginChallenge) × (m : Admin) × IsCompleted sv challenge source totp recovery s c m)
unfolding complete_login
complete_login-IsCompleted sv at session csrf challenge source totp recovery s s' issued h =
    let continue : OrganizationConfig → Flow IssuedSession =
      λ _. complete_with sv at session csrf challenge source totp recovery in
    let (org, checked, rest) =
      bind_done (password_login_or_deny sv auth_second_factor) continue s s' issued h in
    let (same, found, allowed) = password_login_or_deny-done sv auth_second_factor s org checked in
    let here : continue org s ≡ (done issued, s') =
      subst (λ t. continue org t ≡ (done issued, s')) same rest in
    (
      (org, found, allowed),
      complete_with-proves sv at session csrf challenge source totp recovery s s' issued here,
    )
