-- ===== src/Identity/Service/Checks.antt =====
-- service.go: the checks that the use cases share, and the issue of a session.
use autosecrets.Prelude.{
  ℕ, ◌+◌, Bool, true, false, not, ◌&&◌, ◌||◌, Option, none, some, List, [], ltb, leb, if◌then◌else◌,
  any, codes, has, trim, is_empty, utf8_length, is_some, length,
}
use autosecrets.Store.Tx.{Result, ok, err, not_found, Tx}
use autosecrets.Store.Identity.Rows.{
  is_member_active, OrganizationConfig, Admin, MfaEnrollment, AuthMethod, ExternalIdentityBinding,
  Actor, AuditAction, IdentityDb,
}
use autosecrets.Store.Identity.{
  organization, member_by_id, create_bounded_session, external_identity_binding,
  oauth_identity_binding, totp_enrollment_for_member,
}
use autosecrets.Store.Factors.{use_totp, consume_recovery_code}
use autosecrets.Crypto.MasterKey.{open_sealed}
use autosecrets.Crypto.Passwords.{verify_password}
use autosecrets.Crypto.Totp.{totp_matching_counter}
use autosecrets.Crypto.RecoveryCodes.{normalize_recovery_code}
use autosecrets.Identity.Service.Flow.{
  invalid_credentials, last_external_login, store_error, Flow, Service, IssuedSession,
  session_absolute_ttl, session_idle_ttl, give, stop, attempt, call, unless, either_way, deny,
  ◌>>=◌, ◌>>◌,
}

-- `usernameRe`: `^[a-zA-Z0-9._-]{2,64}$`
abbrev pub is_username_letter : ℕ → Bool
is_username_letter c =
    (leb b'a' c && leb c b'z' || leb b'A' c && leb c b'Z')
    || (leb b'0' c && leb c b'9' || has c (codes "._-"))

abbrev pub is_username : List ℕ → Bool
is_username name =
    not (any (λ c. not (is_username_letter c)) name)
    && (leb 2 (length name) && leb (length name) 64)

-- `validOrganizationName`
abbrev pub valid_organization_name : List ℕ → Bool
valid_organization_name name = ltb 0 (utf8_length (trim name)) && leb (utf8_length (trim name)) 128

-- An identity binding that was looked up: present, absent, or another error.
abbrev pub is_bound : Result ExternalIdentityBinding → Flow Bool
is_bound (ok _) = give true
is_bound (err not_found) = give false
is_bound (err e) = stop (store_error e)

-- One of the two lookups of `externalLoginAvailable`, made only if the provider is ready.
abbrev pub is_usable : Bool → Tx IdentityDb ExternalIdentityBinding → Flow Bool
is_usable ready lookup = either_way ready (attempt lookup >>= is_bound) (give false)

-- `externalLoginAvailable`
unfoldable pub external_login_available : Service → Flow Bool
unfolding external_identity_binding oauth_identity_binding
external_login_available sv = do
  by_oidc ← is_usable sv.oidc_ready external_identity_binding
  either_way by_oidc (give true) (is_usable sv.oauth_ready oauth_identity_binding)

-- `passwordLoginAvailable`
unfoldable pub password_login_available : Service → OrganizationConfig → Flow Bool
unfolding external_login_available
password_login_available sv org =
    either_way org.password_login_enabled (give true)
      (do external ← external_login_available sv; give (not external))

-- `PasswordLoginState`
unfoldable pub password_login_state : Service → Flow (Bool × Bool)
unfolding organization password_login_available
password_login_state sv = do
  org ← call organization
  available ← password_login_available sv org
  give (org.password_login_enabled, available)

-- `rejectLastExternalUnbind`
unfoldable pub reject_last_external_unbind :
    Bool → Tx IdentityDb ExternalIdentityBinding → Flow (Unit {0})
unfolding organization
reject_last_external_unbind ready remaining = do
  org ← call organization
  either_way org.password_login_enabled (give tt)
      (do usable ← is_usable ready remaining; unless usable (stop last_external_login))

-- `issueSession`: the session `id` of a member, at the time `at` of the database server.
unfoldable pub issue_session : Service → ℕ → ℕ → ℕ → Admin → AuthMethod → Flow IssuedSession
unfolding create_bounded_session
issue_session sv at id csrf member method = do
  call (
      create_bounded_session at (sv.primitives.sha256_hex id) member.id csrf
        (sv.now + session_absolute_ttl) (sv.now + session_idle_ttl) method)
  give (record {
    id = id;
    csrf_token = csrf;
    username = member.username;
    member_id = member.id;
    role = member.role;
    expires_at = sv.now + session_absolute_ttl;
  })

-- `err == nil && used`
abbrev pub was_used : Result Bool → Bool
was_used (ok used) = used
was_used (err _) = false

-- The counter of a code for a secret that was opened.
abbrev pub counter_for : Service → List ℕ → Option (List ℕ) → Option ℕ
counter_for sv totp_code none = none
counter_for sv totp_code (some secret) = totp_matching_counter sv.primitives secret totp_code sv.now

-- The counter of a code for the enrollment that was looked up, if that enrollment is complete.
abbrev pub enrolled_counter : Service → List ℕ → Result MfaEnrollment → Option ℕ
enrolled_counter sv totp_code (err _) = none
enrolled_counter sv totp_code (ok e) =
    if is_some e.verified_at && is_some e.confirmed_at
    then counter_for sv totp_code (open_sealed sv.primitives sv.master_key e.secret)
    else none

abbrev pub use_counter : ℕ → Option ℕ → Flow Bool
use_counter member none = give false
use_counter member (some counter) = do
  used ← attempt (use_totp member counter)
  give (was_used used)

-- `verifySecondFactor`: the recovery code if there is one, the TOTP code otherwise.
unfoldable pub verify_second_factor : Service → Admin → List ℕ → List ℕ → Flow Bool
unfolding consume_recovery_code totp_enrollment_for_member use_totp
verify_second_factor sv member totp_code recovery_code =
    either_way (is_empty recovery_code)
      (do
        found ← attempt (totp_enrollment_for_member member.id)
        use_counter member.id (enrolled_counter sv totp_code found))
      (do
        used ← attempt (
            consume_recovery_code member.id
              (sv.primitives.sha256_hex
                (sv.primitives.text_number (normalize_recovery_code sv.primitives recovery_code)))
              sv.now)
        give (was_used used))

-- The last part of `policyProofValid`, for the Organization that was looked up.
abbrev pub policy_proof_under :
    Service → Admin → List ℕ → List ℕ → Bool → Result OrganizationConfig → Flow Bool
policy_proof_under sv member totp_code recovery_code allow_recovery (err _) = give false
policy_proof_under sv member totp_code recovery_code allow_recovery (ok org) =
    either_way org.totp_login_required
      (verify_second_factor sv member totp_code (if allow_recovery then recovery_code else []))
      (give true)

-- `policyProofValid`
unfoldable pub policy_proof_valid : Service → Admin → List ℕ → List ℕ → Bool → Flow Bool
unfolding organization verify_second_factor
policy_proof_valid sv member totp_code recovery_code allow_recovery =
    attempt organization >>= policy_proof_under sv member totp_code recovery_code allow_recovery

-- `err == nil && ok` for the answer of `VerifyPassword`
abbrev pub accepted : Option Bool → Bool
accepted none = false
accepted (some answer) = answer

abbrev pub password_ok : Service → List ℕ → Admin → Bool
password_ok sv password member =
    accepted (verify_password sv.primitives password member.password_hash)

-- `err != nil || !passwordOK || !s.policyProofValid(…)`, negated: the second factor is looked at, and used
-- up, only after the password.
unfoldable pub proof_given : Service → Admin → List ℕ → List ℕ → List ℕ → Bool → Flow Bool
unfolding policy_proof_valid
proof_given sv member password totp_code recovery_code allow_recovery =
    either_way (password_ok sv password member)
      (policy_proof_valid sv member totp_code recovery_code allow_recovery) (give false)

-- What every request of a signed-in member starts with: the member is looked up, and a failure is audited
-- under the id.
abbrev pub found_or : {A : Type 0} → Flow A → Result A → Flow A
found_or otherwise (ok a) = give a
found_or otherwise (err _) = otherwise

abbrev pub member_or_deny : Actor → AuditAction → ℕ → ℕ → Flow Admin
member_or_deny actor action resource id =
    attempt (member_by_id id) >>= found_or (deny actor action resource invalid_credentials)

-- The same for a member who has to be active as well.
abbrev pub active_or : Flow Admin → Result Admin → Flow Admin
active_or otherwise (err _) = otherwise
active_or otherwise (ok member) =
    either_way (is_member_active member.status) (give member) otherwise

-- The password, and the second factor if the policy asks for it; a failure is audited.
abbrev pub proof_or_deny :
    Service → Admin → List ℕ → List ℕ → List ℕ → Bool → Actor → AuditAction → Flow (Unit {0})
proof_or_deny sv member password totp_code recovery_code allow_recovery actor action = do
  valid ← proof_given sv member password totp_code recovery_code allow_recovery
  unless valid (deny actor action member.id invalid_credentials)
