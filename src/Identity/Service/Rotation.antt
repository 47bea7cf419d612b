-- ===== src/Identity/Service/Rotation.antt =====
-- service.go, `ChangePassword`: the sessions of the member and the stored password.
use autosecrets.Prelude.{
  ℕ, ◌+◌, ◌<◌, ◌≡◌, refl, subst, ap, ◌∙◌, arith, Bool, true, false, not, ◌&&◌, some, List, [], ◌∷◌,
  ◌++◌, any, any-append, find, update_if, drop_if, ◌==◌, All, Bool-cases, inl, inr,
}
use autosecrets.Store.Identity.Rows.{
  Admin, Session, IdentityDb, local, AuditEvent, actor_administrator, actor_member,
  member_password_changed, result_ok, Actor, AuditAction,
}
use autosecrets.Store.Identity.{member_by_id, change_password}
use autosecrets.Crypto.Primitives.{IsLawfulBase64, IsLawfulArgon}
use autosecrets.Crypto.Passwords.{
  hash_password, verify_password, verify_password-hash_password, password_valid,
}
use autosecrets.Identity.Service.Flow.{
  session_absolute_ttl, session_idle_ttl, Service, IssuedSession, done, Flow, call, deny, unless,
  event, invalid_credentials, ◌>>=◌, ◌>>◌,
}
use autosecrets.Identity.Service.Checks.{
  password_ok, issue_session, member_or_deny, proof_or_deny, proof_given,
}
use autosecrets.Identity.Service.Account.{change_member_password}
use autosecrets.Identity.Service.Keeps.{bind_done}

-- A session of the member other than the given one.
abbrev pub is_other_session : ℕ → ℕ → Session → Bool
is_other_session member hash x = x.admin_id == member && not (x.id_hash == hash)

-- A row of the member that the password does not open.
abbrev pub refuses_password : Service → ℕ → List ℕ → Admin → Bool
refuses_password sv member password a = a.id == member && not (password_ok sv password a)

any_dropped :
    (member hash : ℕ) (rows : List Session)
    → any (is_other_session member hash) (drop_if (λ x. x.admin_id == member) rows) ≡ false
any_dropped member hash [] = refl
any_dropped member hash (x ∷ rows) = ground (arith, any_dropped member hash rows)

any_rehashed :
    (sv : Service) (member : ℕ) (password phc : List ℕ) (rows : List Admin)
    → verify_password sv.primitives password phc ≡ some true
    → any
        (refuses_password sv member password)
        (update_if (λ a. a.id == member) (λ a. record a { password_hash = phc }) rows)
      ≡ false
any_rehashed sv member password phc [] h = refl
any_rehashed sv member password phc (a ∷ rows) h =
    ground (arith, h, any_rehashed sv member password phc rows h)

-- The new password and the new session, once the proof has been given.
changed_then_issued :
    (sv : Service) (at session csrf : ℕ) (phc : List ℕ) (m : Admin) (e : AuditEvent)
    (s s' : IdentityDb) (issued : IssuedSession)
    → (call (change_password m.id phc e) >> issue_session sv at session csrf m local) s
      ≡ (done issued, s')
    → ((row : Session) × (row.id_hash ≡ sv.primitives.sha256_hex session)
        × (s'.sessions ≡ drop_if (λ x. x.admin_id == m.id) s.sessions ++ row ∷ []))
      × (s'.admins ≡ update_if (λ a. a.id == m.id) (λ a. record a { password_hash = phc }) s.admins)
unfolding change_password issue_session
changed_then_issued sv at session csrf phc m e s s' issued h = (
  (
    record {
      id_hash = sv.primitives.sha256_hex session;
      admin_id = m.id;
      csrf_token = csrf;
      expires_at = sv.now + session_absolute_ttl;
      last_activity_at = at;
      idle_expires_at = sv.now + session_idle_ttl;
      auth_method = local;
    },
    refl,
    ground (arith, h),
  ),
  ground (arith, h),
)

member_or_deny-done :
    (actor : Actor) (action : AuditAction) (resource id : ℕ) (s : IdentityDb) (m : Admin)
    → (member_or_deny actor action resource id s).0 ≡ done m
    → ((member_or_deny actor action resource id s).1 ≡ s)
      × (find (λ a. a.id == id) s.admins ≡ some m)
unfolding member_by_id
member_or_deny-done actor action resource id s m h = (ground (arith, h), ground (arith, h))

proof_or_deny-done :
    (sv : Service) (m : Admin) (w t r : List ℕ) (b : Bool) (actor : Actor) (action : AuditAction)
    (s : IdentityDb)
    → (proof_or_deny sv m w t r b actor action s).0 ≡ done tt
    → password_ok sv w m ≡ true
unfolding proof_given
proof_or_deny-done sv m w t r b actor action s h = elim (Bool-cases (password_ok sv w m)) [
  | inl right ↦ right
  | inr wrong ↦ absurd (ground (arith, wrong, h))
]

valid_or_deny-done :
    (valid : Bool) (actor : Actor) (action : AuditAction) (resource : ℕ) (s : IdentityDb)
    → (unless valid (deny actor action resource invalid_credentials) s).0 ≡ done tt
    → (unless valid (deny actor action resource invalid_credentials) s).1 ≡ s
valid_or_deny-done true actor action resource s h = refl
valid_or_deny-done false actor action resource s h = absurd (ground (arith, h))

-- A password is changed only with the current one, and then every session of the member but the new one is
-- gone, and the new password is accepted for each row of the member.
pub change_member_password-rotates :
    (sv : Service) (at : ℕ) (salt : List ℕ) (session csrf id : ℕ) (current new totp : List ℕ)
    (s s' : IdentityDb) (issued : IssuedSession)
    → IsLawfulBase64 sv.primitives
    → IsLawfulArgon sv.primitives
    → All (λ b. b < 256) salt
    → change_member_password sv at salt session csrf id current new totp s ≡ (done issued, s')
    → (m : Admin) × (find (λ a. a.id == id) s.admins ≡ some m)
      × (password_ok sv current m ≡ true)
      × (any (is_other_session m.id (sv.primitives.sha256_hex session)) s'.sessions ≡ false)
      × (any (refuses_password sv m.id new) s'.admins ≡ false)
unfolding change_member_password
change_member_password-rotates sv at salt session csrf id current new totp s s' issued base argon
      bytes h =
    let phc = hash_password sv.primitives new salt in
    let audit : Admin → AuditEvent =
      λ m. event (actor_member m.username) member_password_changed m.id result_ok in
    let change : Admin → Flow IssuedSession =
      λ m. call (change_password m.id phc (audit m)) >> issue_session sv at session csrf m local in
    let prove : Admin → Flow (Unit {0}) = λ m.
      proof_or_deny sv m current totp [] false (actor_member m.username) member_password_changed in
    let rest : Admin → Flow IssuedSession = λ m. prove m >> change m in
    let find_member : Flow Admin =
      member_or_deny (actor_administrator id) member_password_changed id id in
    let valid : Flow (Unit {0}) =
      unless (password_valid sv.primitives new)
        (deny (actor_administrator id) member_password_changed id invalid_credentials) in
    let (_, was_valid, h1) = bind_done valid (λ _. find_member >>= rest) s s' issued h in
    let same1 : (valid s).1 ≡ s =
      valid_or_deny-done (password_valid sv.primitives new) (actor_administrator id)
        member_password_changed id s was_valid in
    let (m, found, h2) = bind_done find_member rest (valid s).1 s' issued h1 in
    let (same2, is_m) =
      member_or_deny-done (actor_administrator id) member_password_changed id id (valid s).1 m
        found in
    let (_, proved, h3) =
      bind_done (prove m) (λ _. change m) (find_member (valid s).1).1 s' issued h2 in
    let right =
      proof_or_deny-done sv m current totp [] false (actor_member m.username)
        member_password_changed (find_member (valid s).1).1 proved in
    let ((row, hashed, sessions), admins) =
      changed_then_issued sv at session csrf phc m (audit m) (prove m (find_member (valid s).1).1).1
        s' issued h3 in
    let hash = sv.primitives.sha256_hex session in
    let before = (prove m (find_member (valid s).1).1).1 in
    (
      m,
      subst (λ t. find (λ a. a.id == id) t.admins ≡ some m) same1 is_m,
      right,
      ap (any (is_other_session m.id hash)) sessions
          ∙ (any-append (is_other_session m.id hash)
                (drop_if (λ x. x.admin_id == m.id) before.sessions) (row ∷ [])
              ∙ ground (arith, any_dropped m.id hash before.sessions, hashed)),
      ap (any (refuses_password sv m.id new)) admins
          ∙ any_rehashed sv m.id new phc before.admins
              (verify_password-hash_password sv.primitives new new salt base argon bytes).0,
    )
