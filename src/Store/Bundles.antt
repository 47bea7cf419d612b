-- ===== src/Store/Bundles.antt =====
-- core/internal/database/domain.go: Secrets, their versions and bindings, Drafts, and the Bundle
-- Revisions that freeze them. Each operation is a transaction body; `transact` runs it.
pub mod Selections
pub mod Drafts
pub mod Soundness
pub mod Keeps
pub mod Files
pub mod Revisions
pub mod History
pub mod Versions
pub mod Creation
use autosecrets.Prelude.{ℕ, Bool, not, Option, none, some, List, [], ◌∷◌, Dict, ◌==◌}
use autosecrets.Store.Tx.{
  Tx, conflict, bad_payload, no_secrets, pure, gets, map_err, require, refuse, map_no_rows,
  map_unique, ◌>>=◌, ◌>>◌,
}
use autosecrets.Store.Rows.{Secret, Blob, DraftSelection, OperationReason, Db}
use autosecrets.Store.Queries.Bundles.{
  insert_secret, insert_secret_version_first, insert_secret_version_next,
  insert_default_file_binding, insert_draft, insert_draft_selection_for_new_secret,
  upsert_draft_selection, select_draft_id, select_secret_app_env, update_draft_selection_version,
  update_file_binding, select_draft_version, bump_draft_row, select_draft_selection_exists,
  select_draft_id_version, count_draft_selections, insert_bundle_revision,
  insert_revision_files_from_draft, select_revision_draft_version, count_revision_files,
  insert_revision_files_copy,
}

unfoldable pub bump_draft_tx : ℕ → Tx Db ℕ
unfolding bump_draft_row
bump_draft_tx draft_id = bump_draft_row draft_id

unfoldable pub bump_draft : ℕ → ℕ → Tx Db ℕ
unfolding select_draft_id bump_draft_tx
bump_draft app env = do draft_id ← select_draft_id app env; bump_draft_tx draft_id

unfoldable pub ensure_draft_and_bump : ℕ → ℕ → ℕ → Tx Db (Unit {0})
unfolding insert_draft bump_draft
ensure_draft_and_bump new_draft_id app env = do
  insert_draft new_draft_id app env
  bump_draft app env
  pure tt

-- `CreateSecretWithValue`: the default binding takes the Secret's name for its path.
unfoldable pub create_secret_with_value : ℕ → ℕ → ℕ → ℕ → ℕ → ℕ → Blob → Tx Db (Unit {0})
unfolding insert_secret insert_secret_version_first insert_default_file_binding
    ensure_draft_and_bump insert_draft_selection_for_new_secret
create_secret_with_value new_draft_id secret_id version_id app env name blob = do
  map_err map_unique (
      insert_secret
        (record { id = secret_id; application_id = app; environment_id = env; name = name }))
  insert_secret_version_first version_id secret_id blob
  insert_default_file_binding secret_id name
  ensure_draft_and_bump new_draft_id app env
  insert_draft_selection_for_new_secret secret_id app env

-- `AddSecretVersion`: the new `seq` and the bumped version of the Draft.
unfoldable pub add_secret_version : ℕ → ℕ → Blob → Tx Db (ℕ × ℕ)
unfolding select_secret_app_env insert_secret_version_next update_draft_selection_version bump_draft
add_secret_version version_id secret_id blob = do
  (app, env) ← map_err map_no_rows (select_secret_app_env secret_id)
  seq ← insert_secret_version_next version_id secret_id blob
  update_draft_selection_version seq app env secret_id
  draft_version ← bump_draft app env
  pure (seq, draft_version)

-- `UpdateBinding`
unfoldable pub update_binding : ℕ → ℕ → ℕ → ℕ → ℕ → Tx Db ℕ
unfolding select_secret_app_env update_file_binding bump_draft
update_binding secret_id path uid gid mode = do
  (app, env) ← map_err map_no_rows (select_secret_app_env secret_id)
  update_file_binding path uid gid mode secret_id
  bump_draft app env

-- The first loop of `UpdateDraftSelections`. The entries stand in the order of the iteration.
unfoldable pub check_selections : ℕ → Dict ℕ → Tx Db (Unit {0})
unfolding select_draft_selection_exists
check_selections draft_id [] = pure tt
check_selections draft_id ((secret_id, seq) ∷ selections) = do
  exists ← select_draft_selection_exists draft_id secret_id seq
  require exists bad_payload
  check_selections draft_id selections

-- The second loop.
unfoldable pub write_selections : ℕ → Dict ℕ → Tx Db (Unit {0})
unfolding upsert_draft_selection
write_selections draft_id [] = pure tt
write_selections draft_id ((secret_id, seq) ∷ selections) = do
  upsert_draft_selection draft_id secret_id seq
  write_selections draft_id selections

-- `UpdateDraftSelections`: optimistic concurrency on the version of the Draft.
unfoldable pub update_draft_selections : ℕ → ℕ → ℕ → Dict ℕ → Tx Db ℕ
unfolding select_draft_id select_draft_version bump_draft_tx
update_draft_selections app env expected selections = do
  draft_id ← map_err map_no_rows (select_draft_id app env)
  version ← select_draft_version draft_id
  require (version == expected) conflict
  check_selections draft_id selections
  write_selections draft_id selections
  bump_draft_tx draft_id

-- What `Publish` and `Rollback` return beside the fields that they are given.
pub record Revision : Type 0 where
  pub id : ℕ
  pub draft_version : ℕ
  pub file_count : ℕ

-- `Publish`. `at` is the time of the transaction on the database server.
unfoldable pub publish : ℕ → ℕ → ℕ → ℕ → ℕ → OperationReason → Tx Db Revision
unfolding select_draft_id_version count_draft_selections insert_bundle_revision
    insert_revision_files_from_draft
publish at revision_id app env actor reason = do
  draft ← map_err map_no_rows (select_draft_id_version app env)
  n ← count_draft_selections draft.id
  refuse (n == 0) no_secrets
  insert_bundle_revision (record {
    id = revision_id;
    application_id = app;
    environment_id = env;
    draft_version = draft.version;
    created_at = at;
    created_by = actor;
    operation_reason = reason;
  })
  insert_revision_files_from_draft revision_id draft.id
  pure (record { id = revision_id; draft_version = draft.version; file_count = n })

-- `Rollback`
unfoldable pub rollback : ℕ → ℕ → ℕ → ℕ → ℕ → ℕ → OperationReason → Tx Db Revision
unfolding select_revision_draft_version count_revision_files insert_bundle_revision
    insert_revision_files_copy
rollback at new_revision_id app env from_revision_id actor reason = do
  draft_version ← map_err map_no_rows (select_revision_draft_version from_revision_id app env)
  file_count ← count_revision_files from_revision_id
  refuse (file_count == 0) no_secrets
  insert_bundle_revision (record {
    id = new_revision_id;
    application_id = app;
    environment_id = env;
    draft_version = draft_version;
    created_at = at;
    created_by = actor;
    operation_reason = reason;
  })
  insert_revision_files_copy new_revision_id from_revision_id
  pure (record { id = new_revision_id; draft_version = draft_version; file_count = file_count })
