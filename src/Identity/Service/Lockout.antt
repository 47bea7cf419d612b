-- ===== src/Identity/Service/Lockout.antt =====
-- service.go and identity.go: the use cases that change the Organization, the bindings to external identities
-- or the members, and the two things that they keep: a way to log in, and one member at most.
use autosecrets.Prelude.{
  ℕ, ◌≤◌, ◌≡◌, arith, Bool, true, false, ◌&&◌, ◌||◌, Option, none, some, List, [], ◌∷◌, ◌++◌, map,
  length, is_some, Bool-cases, Option-cases, inl, inr,
}
use autosecrets.Store.Tx.{ok}
use autosecrets.Store.Identity.Rows.{
  role_administrator, member_active, OrganizationConfig, Admin, ExternalIdentityBinding, IdentityDb,
  AuditEvent,
}
use autosecrets.Store.Identity.{
  bootstrap_administrator, confirm_mfa_enrollment, disable_totp, set_password_login_enabled,
  bind_external_identity, bind_oauth_identity, unbind_external_identity, unbind_oauth_identity,
}
use autosecrets.Identity.Service.Keeps.{TxKeeps, tx_rules}
use autosecrets.Identity.Service.Frame.{Core, Within}

-- Without an Organization nobody can log in.
abbrev pub has_way_under : Bool → Bool → Core → Option OrganizationConfig → Bool
has_way_under oidc_ready oauth_ready c none = false
has_way_under oidc_ready oauth_ready c (some org) =
    org.password_login_enabled
    || ((oidc_ready && is_some c.external) || (oauth_ready && is_some c.oauth_bound))

-- Password login is enabled, or an external identity is bound whose provider is ready.
abbrev pub has_way : Bool → Bool → Core → Bool
has_way oidc_ready oauth_ready c = has_way_under oidc_ready oauth_ready c c.organization_config

-- There is a way to log in, if `W` holds, and one member at most, if `M` holds.
abbrev pub IsOpen : Type 0 → Type 0 → Bool → Bool → Core → Type 0
IsOpen W M oidc_ready oauth_ready c =
    (W → has_way oidc_ready oauth_ready c ≡ true) × (M → length c.ids ≤ 1)

abbrev pub is_password_enabled : Option OrganizationConfig → Bool
is_password_enabled none = false
is_password_enabled (some org) = org.password_login_enabled

one_member :
    (rows : List Admin) (x : Admin)
    → length rows ≡ 0
    → length (map (λ a. a.id) (rows ++ x ∷ [])) ≤ 1
one_member [] x h = omega arith
one_member (y ∷ rows) x h = absurd (omega arith)

-- A binding that login can use, as `externalLoginAvailable` looks for it.
abbrev pub is_reachable : Bool → Bool → IdentityDb → Bool
is_reachable a b s =
    (a && is_some s.external_identity_binding) || (b && is_some s.oauth_identity_binding)

module _ (W M : Type 0) (a b : Bool) where
  abbrev Open : IdentityDb → Type 0
  Open = Within (IsOpen W M a b)

  pub bootstrap_administrator-Keeps :
      (code name id username : ℕ) (hash : List ℕ) (now : ℕ) (e : AuditEvent)
      → TxKeeps Open (bootstrap_administrator code name id username hash now e)
  unfolding bootstrap_administrator
  bootstrap_administrator-Keeps code name id username hash now e = record {
    on_ok = λ s r s' run h.
        let member : Admin = record {
          id = id;
          username = username;
          password_hash = hash;
          role = role_administrator;
          status = member_active;
          activated_at = some now;
          deactivated_at = none;
          last_totp_counter = none;
        } in
        let org : OrganizationConfig = record {
          display_name = name;
          totp_login_required = false;
          password_login_enabled = true;
        } in
        let created : s'.organization_config ≡ some org = ground (arith, run) in
        let rows : s'.admins ≡ s.admins ++ member ∷ [] = ground (arith, run) in
        let alone : length s.admins ≡ 0 = ground (arith, run) in
        (λ w. ground (arith, created), λ m. rw rows (one_member s.admins member alone));
  }

  policy_changed :
      (required : Bool) (s : IdentityDb)
      → Open s
      → Open (record s {
        organization_config = elim s.organization_config [
          | none ↦ none
          | some o ↦ some (record o { totp_login_required = required })
        ];
      })
  policy_changed required s h = elim (Option-cases s.organization_config) [
    | inl none_yet ↦ (λ w. absurd (ground (arith, none_yet, h.0 w)), h.1)
    | inr (o, found) ↦ (λ w. ground (arith, found, h.0 w), h.1)
  ]

  pub confirm_mfa_enrollment-Keeps :
      (x y now : ℕ) (e : AuditEvent) → TxKeeps Open (confirm_mfa_enrollment x y now e)
  unfolding confirm_mfa_enrollment
  confirm_mfa_enrollment-Keeps x y now e = search (tx_rules, policy_changed) depth 20

  pub disable_totp-Keeps : (x y : ℕ) (e : AuditEvent) → TxKeeps Open (disable_totp x y e)
  unfolding disable_totp
  disable_totp-Keeps x y e = search (tx_rules, policy_changed) depth 20

  enabled_again :
      (s : IdentityDb)
      → Open s
      → Open (record s {
        organization_config = elim s.organization_config [
          | none ↦ none
          | some o ↦ some (record o { password_login_enabled = true })
        ];
      })
  enabled_again s h = elim (Option-cases s.organization_config) [
    | inl none_yet ↦ (λ w. absurd (ground (arith, none_yet, h.0 w)), h.1)
    | inr (o, found) ↦ (λ w. ground (arith, found), h.1)
  ]

  pub enable-Keeps :
      (x y : ℕ) (e : AuditEvent) → TxKeeps Open (set_password_login_enabled x y true e)
  unfolding set_password_login_enabled
  enable-Keeps x y e = search (tx_rules, enabled_again) depth 20

  -- Every binding and every member stays, and so does the Organization.
  grown :
      (s s' : IdentityDb)
      → s'.organization_config ≡ s.organization_config
      → s'.admins ≡ s.admins
      → (is_some s.external_identity_binding ≡ true → is_some s'.external_identity_binding ≡ true)
      → (is_some s.oauth_identity_binding ≡ true → is_some s'.oauth_identity_binding ≡ true)
      → Open s
      → Open s'
  grown s s' org rows external oauth h = (
    λ w. elim (Option-cases s.organization_config) [
      | inl none_yet ↦ absurd (ground (arith, none_yet, h.0 w))
      | inr (o, found) ↦ elim (Bool-cases (is_some s.external_identity_binding)) [
        | inl e ↦ elim (Bool-cases (is_some s.oauth_identity_binding)) [
          | inl f ↦ ground (arith, org, found, h.0 w, e, f, external e, oauth f)
          | inr f ↦ ground (arith, org, found, h.0 w, e, f, external e)
        ]
        | inr e ↦ elim (Bool-cases (is_some s.oauth_identity_binding)) [
          | inl f ↦ ground (arith, org, found, h.0 w, e, f, oauth f)
          | inr f ↦ ground (arith, org, found, h.0 w, e, f)
        ]
      ]
    ],
    λ m. rw rows (h.1 m),
  )

  pub bind_external_identity-Keeps :
      (x : ExternalIdentityBinding) (y : ℕ) (e : AuditEvent)
      → TxKeeps Open (bind_external_identity x y e)
  unfolding bind_external_identity
  bind_external_identity-Keeps x y e = record {
    on_ok = λ s r s' run h.
        grown s s' (ground (arith, run)) (ground (arith, run)) (λ _. ground (arith, run))
          (λ k. ground (arith, run, k)) h;
  }

  pub bind_oauth_identity-Keeps :
      (x : ExternalIdentityBinding) (y : ℕ) (e : AuditEvent)
      → TxKeeps Open (bind_oauth_identity x y e)
  unfolding bind_oauth_identity
  bind_oauth_identity-Keeps x y e = record {
    on_ok = λ s r s' run h.
        grown s s' (ground (arith, run)) (ground (arith, run)) (λ k. ground (arith, run, k))
          (λ _. ground (arith, run)) h;
  }

  pub disabled-Open :
      (x y : ℕ) (e : AuditEvent) (s s' : IdentityDb)
      → is_reachable a b s ≡ true
      → Open s
      → set_password_login_enabled x y false e s ≡ ok (tt, s')
      → Open s'
  unfolding set_password_login_enabled
  disabled-Open x y e s s' reach h run =
      let external : s'.external_identity_binding ≡ s.external_identity_binding =
        ground (arith, run) in
      let oauth : s'.oauth_identity_binding ≡ s.oauth_identity_binding = ground (arith, run) in
      let rows : s'.admins ≡ s.admins = ground (arith, run) in
      (
        λ w. elim (Option-cases s.organization_config) [
          | inl none_yet ↦ absurd (ground (arith, none_yet, h.0 w))
          | inr (o, found) ↦ ground (arith, run, found, reach, external, oauth)
        ],
        λ m. rw rows (h.1 m),
      )

  pub unbound_external-Open :
      (x y : ℕ) (e : AuditEvent) (s s' : IdentityDb)
      → is_password_enabled s.organization_config || (b && is_some s.oauth_identity_binding) ≡ true
      → Open s
      → unbind_external_identity x y e s ≡ ok (tt, s')
      → Open s'
  unfolding unbind_external_identity
  unbound_external-Open x y e s s' left h run =
      let org : s'.organization_config ≡ s.organization_config = ground (arith, run) in
      let oauth : s'.oauth_identity_binding ≡ s.oauth_identity_binding = ground (arith, run) in
      let rows : s'.admins ≡ s.admins = ground (arith, run) in
      (
        λ w. elim (Option-cases s.organization_config) [
          | inl none_yet ↦ absurd (ground (arith, none_yet, h.0 w))
          | inr (o, found) ↦ ground (arith, found, org, left, oauth)
        ],
        λ m. rw rows (h.1 m),
      )

  pub unbound_oauth-Open :
      (x y : ℕ) (e : AuditEvent) (s s' : IdentityDb)
      → is_password_enabled s.organization_config || (a && is_some s.external_identity_binding)
        ≡ true
      → Open s
      → unbind_oauth_identity x y e s ≡ ok (tt, s')
      → Open s'
  unfolding unbind_oauth_identity
  unbound_oauth-Open x y e s s' left h run =
      let org : s'.organization_config ≡ s.organization_config = ground (arith, run) in
      let external : s'.external_identity_binding ≡ s.external_identity_binding =
        ground (arith, run) in
      let rows : s'.admins ≡ s.admins = ground (arith, run) in
      (
        λ w. elim (Option-cases s.organization_config) [
          | inl none_yet ↦ absurd (ground (arith, none_yet, h.0 w))
          | inr (o, found) ↦ ground (arith, found, org, left, external)
        ],
        λ m. rw rows (h.1 m),
      )
