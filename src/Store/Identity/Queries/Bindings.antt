-- ===== src/Store/Identity/Queries/Bindings.antt =====
-- gen/identity.sql.go: the external identities of the Administrator and the transactions that set them
-- up. The two binding tables have the same columns, and each holds one row or none.
use autosecrets.Prelude.{
  ℕ, Bool, true, ◌&&◌, ◌||◌, Option, none, some, List, [], ◌∷◌, ◌++◌, ◌==◌, ltb, if◌then◌else◌, any,
  find, update_if, is_none, is_some,
}
use autosecrets.Store.Tx.{
  Tx, no_rows, unique_violation, foreign_key_violation, pure, gets, or_fail, require, refuse,
  modify, ◌>>=◌, ◌>>◌,
}
use autosecrets.Store.Identity.Rows.{ExternalIdentityBinding, OidcTransaction, Admin, IdentityDb}

unfoldable pub select_external_binding : Tx IdentityDb ExternalIdentityBinding
select_external_binding = do row ← gets (λ db. db.external_identity_binding); or_fail no_rows row

unfoldable pub select_oauth_binding : Tx IdentityDb ExternalIdentityBinding
select_oauth_binding = do row ← gets (λ db. db.oauth_identity_binding); or_fail no_rows row

-- `ON CONFLICT DO NOTHING`, and the number of rows.
unfoldable pub insert_external_binding : ExternalIdentityBinding → Tx IdentityDb ℕ
insert_external_binding row = do
  present ← gets (λ db. is_some db.external_identity_binding)
  admins ← gets (λ db. db.admins)
  require (present || any (λ a. a.id == row.admin_id) admins) foreign_key_violation
  modify (λ db. record db {
    external_identity_binding = if present then db.external_identity_binding else some row;
  })
  pure (if present then 0 else 1)

unfoldable pub insert_oauth_binding : ExternalIdentityBinding → Tx IdentityDb ℕ
insert_oauth_binding row = do
  present ← gets (λ db. is_some db.oauth_identity_binding)
  admins ← gets (λ db. db.admins)
  require (present || any (λ a. a.id == row.admin_id) admins) foreign_key_violation
  modify (λ db. record db {
    oauth_identity_binding = if present then db.oauth_identity_binding else some row;
  })
  pure (if present then 0 else 1)

abbrev pub without_member : ℕ → Option ExternalIdentityBinding → Option ExternalIdentityBinding
without_member member none = none
without_member member (some b) = if b.admin_id == member then none else some b

unfoldable pub delete_external_binding : ℕ → Tx IdentityDb (Unit {0})
delete_external_binding member = modify (λ db. record db {
  external_identity_binding = without_member member db.external_identity_binding;
})

unfoldable pub delete_oauth_binding : ℕ → Tx IdentityDb (Unit {0})
delete_oauth_binding member =
    modify
      (λ db. record db { oauth_identity_binding = without_member member db.oauth_identity_binding })

-- The foreign key of `oidc_transactions.admin_id`, which may be NULL.
abbrev pub member_exists : Option ℕ → List Admin → Bool
member_exists none admins = true
member_exists (some id) admins = any (λ a. a.id == id) admins

unfoldable pub insert_oidc_transaction : OidcTransaction → Tx IdentityDb (Unit {0})
insert_oidc_transaction row = do
  rows ← gets (λ db. db.oidc_transactions)
  refuse (any (λ t. t.state_hash == row.state_hash) rows) unique_violation
  admins ← gets (λ db. db.admins)
  require (member_exists row.admin_id admins) foreign_key_violation
  modify (λ db. record db { oidc_transactions = db.oidc_transactions ++ row ∷ [] })

abbrev pub is_open_transaction : ℕ → ℕ → OidcTransaction → Bool
is_open_transaction hash now t = t.state_hash == hash && (is_none t.used_at && ltb now t.expires_at)

-- `UPDATE … RETURNING`
unfoldable pub mark_oidc_transaction_used : ℕ → ℕ → Tx IdentityDb OidcTransaction
mark_oidc_transaction_used hash now = do
  rows ← gets (λ db. db.oidc_transactions)
  row ← or_fail no_rows (find (is_open_transaction hash now) rows)
  modify (λ db. record db {
    oidc_transactions =
        update_if (is_open_transaction hash now) (λ t. record t { used_at = some now })
          db.oidc_transactions;
  })
  pure row
