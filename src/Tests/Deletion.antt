-- ===== src/Tests/Deletion.antt =====
-- Runs of the deletions of core/internal/database/domain.go on two Applications.
use autosecrets.Prelude.{ℕ, ◌≡◌, refl, false, ◌==◌, [], ◌∷◌, Memᴰ, any}
use autosecrets.Store.Tx.{err, conflict, not_found, transact}
use autosecrets.Store.Rows.{
  Secret, SecretVersion, RevisionFile, Assignment, active, Db, no_rows_at_all,
}
use autosecrets.Store.Deletion.{
  delete_application, delete_environment, delete_secret, application_scope,
}
use autosecrets.Store.Deletion.Refusals.{assigned_bundle_protected}
use autosecrets.Store.Deletion.Erasure.{delete_secret-erases, delete_application-erases}

abbrev secret_of : ℕ → ℕ → ℕ → Secret
secret_of id app env = record { id = id; application_id = app; environment_id = env; name = 120 }

abbrev version_of : ℕ → ℕ → SecretVersion
version_of id secret = record {
  id = id;
  secret_id = secret;
  seq = 1;
  blob = record { wrapped_key = 1 ∷ []; nonce = 2 ∷ []; ciphertext = 3 ∷ [] };
}

abbrev file_in : ℕ → ℕ → RevisionFile
file_in revision secret = record {
  revision_id = revision;
  secret_id = secret;
  path = 130;
  uid = 0;
  gid = 0;
  mode = 256;
  version_seq = 1;
}

-- Application 1 with the Environment 10, the Secret 20 and the Revision 50, and Application 2 with 11 and 21.
abbrev two_applications : Db
two_applications = record no_rows_at_all {
  applications = record { id = 1; name = 101 } ∷ record { id = 2; name = 102 } ∷ [];
  environments =
      record { id = 10; application_id = 1; name = 110 }
      ∷ record { id = 11; application_id = 2; name = 110 }
      ∷ [];
  secrets = secret_of 20 1 10 ∷ secret_of 21 2 11 ∷ [];
  secret_versions = version_of 40 20 ∷ version_of 41 21 ∷ [];
  bundle_revisions =
      record {
        id = 50;
        application_id = 1;
        environment_id = 10;
        draft_version = 2;
        created_at = 900;
        created_by = 7;
        operation_reason = record { category = 1; explanation = 2; external_ref = 3 };
      }
      ∷ [];
  revision_files = file_in 50 20 ∷ file_in 50 21 ∷ [];
}

abbrev an_assignment : Assignment
an_assignment = record {
  id = 80;
  group_id = 71;
  application_id = 1;
  environment_id = 10;
  revision_id = 50;
  status = active;
  created_at = 2500;
}

abbrev assigned_application : Db
assigned_application = record two_applications { assignments = an_assignment ∷ [] }

assigned_bundle_protected_example :
    (transact (delete_application 1) assigned_application ≡ (err conflict, assigned_application))
    × (transact (delete_environment 10 1) assigned_application
        ≡ (err conflict, assigned_application))
    × ((s : Secret)
        → Memᴰ s assigned_application.secrets
        → s.application_id ≡ 1
        → s.environment_id ≡ 10
        → transact (delete_secret s.id) assigned_application ≡ (err conflict, assigned_application))
assigned_bundle_protected_example =
    assigned_bundle_protected an_assignment assigned_application (Memᴰ.head refl) refl

missing_rows :
    ((transact (delete_application 9) two_applications).0 ≡ err not_found)
    × ((transact (delete_environment 10 2) two_applications).0 ≡ err not_found)
    × ((transact (delete_secret 29) two_applications).0 ≡ err not_found)
unfolding delete_application delete_environment delete_secret
missing_rows = (refl, refl, refl)

without_secret : Db
unfolding delete_secret
without_secret = (transact (delete_secret 20) two_applications).1

delete_secret-erases_example :
    (any (λ s. s.id == 20) without_secret.secrets ≡ false)
    × (any (λ v. v.secret_id == 20) without_secret.secret_versions ≡ false)
    × (any (λ f. f.secret_id == 20) without_secret.revision_files ≡ false)
    × (without_secret.bundle_revisions ≡ two_applications.bundle_revisions)
    × ((v : SecretVersion)
        → Memᴰ v two_applications.secret_versions
        → (v.secret_id == 20) ≡ false
        → Memᴰ v without_secret.secret_versions)
    × ((f : RevisionFile)
        → Memᴰ f two_applications.revision_files
        → (f.secret_id == 20) ≡ false
        → Memᴰ f without_secret.revision_files)
unfolding without_secret
delete_secret-erases_example = delete_secret-erases 20 two_applications without_secret refl

without_application : Db
unfolding delete_application
without_application = (transact (delete_application 1) two_applications).1

delete_application-erases_example :
    (any (λ a. a.id == 1) without_application.applications ≡ false)
    × (any (λ s. s.application_id == 1) without_application.secrets ≡ false)
    × (any (λ r. r.application_id == 1) without_application.bundle_revisions ≡ false)
    × ((s : Secret)
        → Memᴰ s two_applications.secrets
        → s.application_id ≡ 1
        → any (λ v. v.secret_id == s.id) without_application.secret_versions ≡ false)
    × ((s : Secret)
        → Memᴰ s two_applications.secrets
        → application_scope 1 two_applications s.application_id s.environment_id ≡ false
        → Memᴰ s without_application.secrets)
unfolding without_application
delete_application-erases_example =
    delete_application-erases 1 two_applications without_application refl
