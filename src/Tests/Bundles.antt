-- ===== src/Tests/Bundles.antt =====
-- Runs of core/internal/database/domain.go on one Application with one Environment.
use autosecrets.Prelude.{
  map, ℕ, ◌+◌, ◌<◌, ◌≡◌, ◌≢◌, refl, ◌&&◌, none, some, List, [], ◌∷◌, Dict, ◌==◌, lookup, find,
  length, All, if◌then◌else◌,
}
use autosecrets.Store.Tx.{ok, err, conflict, bad_payload, duplicate, transact}
use autosecrets.Store.Rows.{
  Secret, Blob, Draft, OperationReason, BundleRevision, Db, no_rows_at_all,
}
use autosecrets.Store.Queries.Bundles.{draft_in, revision_in, files_of}
use autosecrets.Store.Bundles.{
  create_secret_with_value, add_secret_version, update_draft_selections, publish, rollback,
  check_selections, write_selections,
}
use autosecrets.Store.Bundles.Selections.{selected_version, all_exist, or_else}
use autosecrets.Store.Bundles.Drafts.{
  updated, update_draft_selections_lem, update_draft_selections-selects, second_update_conflicts,
}
use autosecrets.Store.Bundles.Soundness.{IsSound, default_binding, new_secret}
use autosecrets.Store.Bundles.Files.{file_content, file_for, frozen_file}
use autosecrets.Store.Bundles.Revisions.{revision_row}
use autosecrets.Store.Bundles.History.{KeepsOthers, publish-freezes, rollback-copies}
use autosecrets.Store.Bundles.Keeps.{
  BundleOp, creates, adds, binds, selects, publishes, rolls_back, apply, apply_all,
  apply_all-IsSound,
}
use autosecrets.Store.Bundles.Versions.{
  blob_of, version_row, add_secret_version-appends, add_secret_version-selects,
}
use autosecrets.Store.Bundles.Creation.{create_secret_complete}

abbrev sealed : Blob
sealed = record { wrapped_key = 1 ∷ []; nonce = 2 ∷ []; ciphertext = 3 ∷ [] }

abbrev why : OperationReason
why = record { category = 5; explanation = 6; external_ref = 0 }

-- Application 1 has the Environment 10.
abbrev empty_environment : Db
empty_environment = record no_rows_at_all {
  applications = record { id = 1; name = 101 } ∷ [];
  environments = record { id = 10; application_id = 1; name = 110 } ∷ [];
}

-- The Secret 20, named 120, with version 1; its Draft is 30 at version 1.
one_secret : Db
unfolding create_secret_with_value
one_secret = apply (creates 30 20 40 1 10 120 sealed) empty_environment

-- A second version, and the Draft at version 2.
two_versions : Db
unfolding one_secret add_secret_version
two_versions = apply (adds 41 20 sealed) one_secret

-- The Revision 50 of version 2.
published : Db
unfolding two_versions publish
published = apply (publishes 1000 50 1 10 7 why) two_versions

abbrev draft_at : ℕ → Draft
draft_at version = record { id = 30; application_id = 1; environment_id = 10; version = version }

selections_follow_versions :
    (selected_version 30 20 one_secret.draft_selections ≡ some 1)
    × (selected_version 30 20 two_versions.draft_selections ≡ some 2)
    × (find (draft_in 1 10) two_versions.drafts ≡ some (draft_at 2))
unfolding two_versions
selections_follow_versions = (refl, refl, refl)

-- An environment with no Draft selections cannot be published, nor can a name be used twice.
refusals :
    ((transact (create_secret_with_value 31 21 42 1 10 120 sealed) one_secret).0 ≡ err duplicate)
    × ((transact (update_draft_selections 1 10 1 ((20, 9) ∷ [])) one_secret).0 ≡ err bad_payload)
unfolding one_secret create_secret_with_value update_draft_selections check_selections
refusals = (refl, refl)

abbrev back_to_first : Dict ℕ
back_to_first = (20, 1) ∷ []

update_draft_selections_lem_example :
    transact (update_draft_selections 1 10 2 back_to_first) two_versions ≡ (
      if 2 == 2
      then if all_exist two_versions 30 back_to_first
        then (ok 3, updated 30 back_to_first two_versions)
        else (err bad_payload, two_versions)
      else (err conflict, two_versions))
unfolding two_versions
update_draft_selections_lem_example =
    update_draft_selections_lem 1 10 2 back_to_first two_versions (draft_at 2) (refl, tt) refl

update_draft_selections-selects_example :
    (3 ≡ 2 + 1)
    × (find (draft_in 1 10) (updated 30 back_to_first two_versions).drafts ≡ some (draft_at 3))
    × ((s : ℕ)
        → selected_version 30 s (updated 30 back_to_first two_versions).draft_selections
          ≡ or_else (lookup s back_to_first) (selected_version 30 s two_versions.draft_selections))
    × ((other s : ℕ)
        → other ≢ 30
        → selected_version other s (updated 30 back_to_first two_versions).draft_selections
          ≡ selected_version other s two_versions.draft_selections)
unfolding two_versions update_draft_selections check_selections write_selections
update_draft_selections-selects_example =
    update_draft_selections-selects 1 10 2 back_to_first two_versions (draft_at 2) 3
      (updated 30 back_to_first two_versions) (refl, tt) (refl, tt) refl refl

second_update_conflicts_example :
    transact (update_draft_selections 1 10 2 []) (updated 30 back_to_first two_versions)
    ≡ (err conflict, updated 30 back_to_first two_versions)
unfolding two_versions update_draft_selections check_selections write_selections
second_update_conflicts_example =
    second_update_conflicts 1 10 2 back_to_first [] two_versions (draft_at 2) 3
      (updated 30 back_to_first two_versions) (refl, tt) refl refl

two_versions-IsSound : IsSound two_versions
unfolding two_versions
two_versions-IsSound = record {
  files_have_revision = tt;
  secrets_have_binding = (refl, tt);
  selections_have_binding = (refl, tt);
}

publish-freezes_example :
    (d : Draft) × (find (draft_in 1 10) two_versions.drafts ≡ some d)
    × ((s : ℕ)
        → file_for s (files_of 50 published.revision_files)
          ≡ frozen_file 50 s
              (selected_version d.id s two_versions.draft_selections)
              (find (λ b. b.secret_id == s) two_versions.file_bindings))
    × (find (λ q. q.id == 50) published.bundle_revisions
        ≡ some (revision_row 1000 50 1 10 d.version 7 why))
    × (1 ≡ length (files_of 50 published.revision_files))
    × (◌≢◌ {A = ℕ} 1 0)
    × (2 ≡ d.version)
    × KeepsOthers 50 two_versions published
unfolding published
publish-freezes_example =
    publish-freezes 1000 50 1 10 7 why two_versions
      (record { id = 50; draft_version = 2; file_count = 1 }) published two_versions-IsSound refl

rolled_back : Db
unfolding published rollback
rolled_back = apply (rolls_back 2000 51 1 10 50 7 why) published

published-IsSound : IsSound published
unfolding published
published-IsSound = record {
  files_have_revision = (refl, tt);
  secrets_have_binding = (refl, tt);
  selections_have_binding = (refl, tt);
}

rollback-copies_example :
    (q : BundleRevision) × (find (λ x. x.id == 50 && revision_in 1 10 x) published.bundle_revisions
      ≡ some q)
    × (map file_content (files_of 51 rolled_back.revision_files)
        ≡ map file_content (files_of 50 published.revision_files))
    × (find (λ x. x.id == 51) rolled_back.bundle_revisions
        ≡ some (revision_row 2000 51 1 10 q.draft_version 7 why))
    × (1 ≡ length (files_of 51 rolled_back.revision_files))
    × (◌≢◌ {A = ℕ} 1 0)
    × KeepsOthers 51 published rolled_back
unfolding rolled_back
rollback-copies_example =
    rollback-copies 2000 51 1 10 50 7 why published
      (record { id = 51; draft_version = 2; file_count = 1 }) rolled_back published-IsSound refl

abbrev session : List BundleOp
session =
    creates 30 20 40 1 10 120 sealed
    ∷ adds 41 20 sealed
    ∷ binds 20 130 0 0 256
    ∷ selects 1 10 3 back_to_first
    ∷ publishes 1000 50 1 10 7 why
    ∷ rolls_back 2000 51 1 10 50 7 why
    ∷ []

apply_all-IsSound_example : IsSound (apply_all session empty_environment)
apply_all-IsSound_example =
    apply_all-IsSound session empty_environment
      (record { files_have_revision = tt; secrets_have_binding = tt; selections_have_binding = tt })

add_secret_version-appends_example :
    All (λ v. v.secret_id ≡ 20 → v.seq < 2) one_secret.secret_versions
    × (blob_of 20 2 two_versions.secret_versions ≡ some (version_row 41 20 2 sealed))
    × ((j q : ℕ)
        → blob_of j q one_secret.secret_versions ≢ none
        → blob_of j q two_versions.secret_versions ≡ blob_of j q one_secret.secret_versions)
unfolding two_versions
add_secret_version-appends_example =
    add_secret_version-appends 41 20 sealed one_secret 2 2 two_versions refl

add_secret_version-selects_example :
    (s : Secret) × (d : Draft) × (find (λ r. r.id == 20) one_secret.secrets ≡ some s)
    × (find (draft_in s.application_id s.environment_id) one_secret.drafts ≡ some d)
    × (find (draft_in s.application_id s.environment_id) two_versions.drafts
        ≡ some (record d { version = 2 }))
    × (2 ≡ d.version + 1)
    × (selected_version d.id 20 one_secret.draft_selections ≢ none
        → selected_version d.id 20 two_versions.draft_selections ≡ some 2)
unfolding two_versions
add_secret_version-selects_example =
    add_secret_version-selects 41 20 sealed one_secret 2 2 two_versions refl (refl, tt)

create_secret_complete_example :
    (find (λ r. r.id == 20) one_secret.secrets ≡ some (new_secret 1 10 20 120))
    × (blob_of 20 1 one_secret.secret_versions ≡ some (version_row 40 20 1 sealed))
    × (find (λ b. b.secret_id == 20) one_secret.file_bindings ≡ some (default_binding 1 10 20 120))
    × ((d : Draft) × (find (draft_in 1 10) one_secret.drafts ≡ some d)
        × (selected_version d.id 20 one_secret.draft_selections ≡ some 1))
unfolding one_secret
create_secret_complete_example =
    create_secret_complete 30 20 40 1 10 120 sealed empty_environment one_secret refl
