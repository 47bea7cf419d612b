-- ===== src/Identity/Service/Routine.antt =====
-- service.go: the use cases of a member that leave the Organization, the bindings to external identities
-- and the ids of the members alone.
use autosecrets.Prelude.{ℕ, ◌+◌, not, none, List}
use autosecrets.Store.Tx.{Result, ok, err, transact}
use autosecrets.Store.Identity.Rows.{
  Admin, MfaEnrollment, actor_administrator, administrator_totp_enabled,
}
use autosecrets.Store.Factors.{create_login_challenge}
use autosecrets.Crypto.MasterKey.{seal}
use autosecrets.Identity.Service.Flow.{
  invalid_credentials, already_enrolled, Service, mfa_enrollment_ttl, login_challenge_ttl,
}
use autosecrets.Identity.Service.Checks.{password_ok}
use autosecrets.Identity.Service.Logins.{
  challenge_member, login_member, login_with, login, second_factor_of, complete_login,
  complete_with, renew_session, step_up, logout,
}
use autosecrets.Identity.Service.Enrollment.{
  SealRandom, start_totp_enrollment, enrollment_or_deny, verify_mfa_enrollment,
}
use autosecrets.Identity.Service.Account.{change_member_password, change_member_username}
use autosecrets.Identity.Service.Keeps.{
  TxKeeps, Keeps, tx_rules, Keeps-bind, Keeps-give, Keeps-stop, Keeps-attempt, Keeps-unless,
  Keeps-call, Keeps-or_store_error,
}
use autosecrets.Identity.Service.Frame.{
  Core, Within, organization-Keeps, member_by_username-Keeps, member_by_id-Keeps,
  delete_session-Keeps, upsert_step_up_grant-Keeps, mfa_enrollment_by_token-Keeps,
  create_enrollment_for_member-Keeps, consume_login_challenge-Keeps, complete_mfa_enrollment-Keeps,
  change_password-Keeps, change_username-Keeps,
}
use autosecrets.Store.Identity.Rows.{LoginChallenge}
use autosecrets.Store.Factors.{delete_expired_login_challenges, insert_login_challenge}
use autosecrets.Identity.Service.Steps.{
  step_rules, active_or-Keeps, sealed_or_stop-Keeps, audit_event-Keeps, deny-Keeps,
  issue_session-Keeps, verify_second_factor-Keeps, proof_given-Keeps, password_login_or_deny-Keeps,
}

module _ (Q : Core → Type 0) where
  challenge_member-Keeps :
      (sv : Service) (challenge : ℕ) (m : Admin) (source : ℕ)
      → Keeps (Within Q) (challenge_member sv challenge m source)
  unfolding create_login_challenge
  challenge_member-Keeps sv challenge m source =
      let row : LoginChallenge = record {
        token_hash = sv.primitives.sha256_hex challenge;
        admin_id = m.id;
        source_hash = source;
        expires_at = sv.now + login_challenge_ttl;
        used_at = none;
      } in
      let deleted : TxKeeps (Within Q) (delete_expired_login_challenges sv.now) =
        search tx_rules depth 12 in
      let inserted : TxKeeps (Within Q) (insert_login_challenge row) = search tx_rules depth 12 in
      record {
        kept = λ s h.
            (Keeps-or_store_error {P = Within Q}
                (create_login_challenge sv.now (sv.primitives.sha256_hex challenge) m.id source
                  (sv.now + login_challenge_ttl) s).0).kept
              (create_login_challenge sv.now (sv.primitives.sha256_hex challenge) m.id source
                (sv.now + login_challenge_ttl) s).1
              ((Keeps-attempt inserted).kept (transact (delete_expired_login_challenges sv.now) s).1
                ((Keeps-attempt deleted).kept s h));
      }

  pub login-Keeps :
      (sv : Service) (at session csrf challenge : ℕ) (name word : List ℕ) (source : ℕ)
      → Keeps (Within Q) (login sv at session csrf challenge name word source)
  unfolding login login_with login_member
  login-Keeps sv at session csrf challenge name word source =
      search
        (
          step_rules,
          audit_event-Keeps,
          password_login_or_deny-Keeps,
          member_by_username-Keeps Q,
          issue_session-Keeps,
          challenge_member-Keeps,
        )
        depth 14

  second_factor_of-Keeps :
      (sv : Service) (t r : List ℕ) (o : Result Admin)
      → Keeps (Within Q) (second_factor_of sv t r o)
  second_factor_of-Keeps sv t r (ok m) =
      search (step_rules, audit_event-Keeps, verify_second_factor-Keeps) depth 14
  second_factor_of-Keeps sv t r (err e) = search (step_rules, audit_event-Keeps) depth 14

  pub complete_login-Keeps :
      (sv : Service) (at session csrf challenge source : ℕ) (t r : List ℕ)
      → Keeps (Within Q) (complete_login sv at session csrf challenge source t r)
  unfolding complete_login complete_with
  complete_login-Keeps sv at session csrf challenge source t r =
      search
        (
          step_rules,
          audit_event-Keeps,
          password_login_or_deny-Keeps,
          consume_login_challenge-Keeps Q,
          member_by_id-Keeps Q,
          second_factor_of-Keeps,
          issue_session-Keeps,
        )
        depth 20

  pub renew_session-Keeps :
      (sv : Service) (at session csrf old id : ℕ) (w t r : List ℕ)
      → Keeps (Within Q) (renew_session sv at session csrf old id w t r)
  unfolding renew_session
  renew_session-Keeps sv at session csrf old id w t r =
      search
        (
          step_rules,
          audit_event-Keeps,
          member_by_id-Keeps Q,
          proof_given-Keeps,
          delete_session-Keeps Q,
          issue_session-Keeps,
        )
        depth 20

  pub step_up-Keeps :
      (sv : Service) (session id : ℕ) (w t r : List ℕ)
      → Keeps (Within Q) (step_up sv session id w t r)
  unfolding step_up
  step_up-Keeps sv session id w t r =
      search
        (
          step_rules,
          audit_event-Keeps,
          member_by_id-Keeps Q,
          proof_given-Keeps,
          upsert_step_up_grant-Keeps Q,
        )
        depth 20

  pub logout-Keeps : (session id name : ℕ) → Keeps (Within Q) (logout session id name)
  unfolding logout
  logout-Keeps session id name =
      search (step_rules, audit_event-Keeps, delete_session-Keeps Q) depth 14

  pub change_member_password-Keeps :
      (sv : Service) (at : ℕ) (salt : List ℕ) (session csrf id : ℕ) (w n t : List ℕ)
      → Keeps (Within Q) (change_member_password sv at salt session csrf id w n t)
  unfolding change_member_password
  change_member_password-Keeps sv at salt session csrf id w n t =
      search
        (
          step_rules,
          audit_event-Keeps,
          member_by_id-Keeps Q,
          proof_given-Keeps,
          change_password-Keeps Q,
          issue_session-Keeps,
        )
        depth 20

  pub change_member_username-Keeps :
      (sv : Service) (at session csrf id : ℕ) (n w t : List ℕ)
      → Keeps (Within Q) (change_member_username sv at session csrf id n w t)
  unfolding change_member_username
  change_member_username-Keeps sv at session csrf id n w t =
      search
        (
          step_rules,
          audit_event-Keeps,
          member_by_id-Keeps Q,
          proof_given-Keeps,
          change_username-Keeps Q,
          issue_session-Keeps,
        )
        depth 20

  pub start_totp_enrollment-Keeps :
      (sv : Service) (secret : List ℕ) (random : SealRandom) (token id : ℕ) (w : List ℕ)
      → Keeps (Within Q) (start_totp_enrollment sv secret random token id w)
  unfolding start_totp_enrollment
  start_totp_enrollment-Keeps sv secret random token id w =
      Keeps-bind (Keeps-attempt (member_by_id-Keeps Q id)) (λ row.
        Keeps-bind
          (active_or-Keeps row (
            deny-Keeps Q (actor_administrator id) administrator_totp_enabled id
              invalid_credentials))
          (λ m.
            Keeps-bind
              (Keeps-unless (password_ok sv w m) (
                deny-Keeps Q (actor_administrator m.username) administrator_totp_enabled m.id
                  invalid_credentials))
              (λ _. Keeps-bind (Keeps-call (organization-Keeps Q)) (λ org.
                Keeps-bind
                  (Keeps-unless (not org.totp_login_required) (Keeps-stop already_enrolled))
                  (λ _.
                    Keeps-bind
                      (sealed_or_stop-Keeps (
                        seal sv.primitives sv.master_key random.data_key random.wrap_nonce
                          random.data_nonce secret))
                      (λ blob.
                        Keeps-bind
                          (Keeps-call (
                            create_enrollment_for_member-Keeps Q m.id
                              (sv.primitives.sha256_hex token) blob (sv.now + mfa_enrollment_ttl)))
                          (λ _. Keeps-give (m.username, token, secret))))))))

  enrollment_or_deny-Keeps : (r : Result MfaEnrollment) → Keeps (Within Q) (enrollment_or_deny r)
  enrollment_or_deny-Keeps (ok e) = Keeps-give e
  enrollment_or_deny-Keeps (err e) = search (step_rules, audit_event-Keeps) depth 14

  pub verify_mfa_enrollment-Keeps :
      (sv : Service) (random : List (List ℕ)) (confirmation token : ℕ) (t : List ℕ)
      → Keeps (Within Q) (verify_mfa_enrollment sv random confirmation token t)
  unfolding verify_mfa_enrollment
  verify_mfa_enrollment-Keeps sv random confirmation token t =
      search
        (
          step_rules,
          audit_event-Keeps,
          mfa_enrollment_by_token-Keeps Q,
          enrollment_or_deny-Keeps,
          complete_mfa_enrollment-Keeps Q,
        )
        depth 20
