-- ===== src/Store/Bundles/Keeps.antt =====
-- domain.go: the operations on Secrets, Drafts and Bundle Revisions as one type of requests, and the
-- soundness of the tables after any sequence of them.
mod Secrets
mod Selecting
mod Freezing
use autosecrets.Prelude.{ℕ, ◌≡◌, refl, List, [], ◌∷◌, Dict, arith}
use autosecrets.Store.Tx.{Result, Tx, ok, err, transact, transact-keeps}
use autosecrets.Store.Rows.{OperationReason, Blob, Db, no_rows_at_all}
use autosecrets.Store.Bundles.{
  create_secret_with_value, add_secret_version, update_binding, update_draft_selections, publish,
  rollback,
}
use autosecrets.Store.Bundles.Soundness.{IsSound}
use Secrets.{create_secret-IsSound, add_secret_version-IsSound, update_binding-IsSound}
use Selecting.{update_draft_selections-IsSound}
use Freezing.{publish-IsSound, rollback-IsSound}

pub data BundleOp : Type 0 where
  creates : ℕ → ℕ → ℕ → ℕ → ℕ → ℕ → Blob → BundleOp
  adds : ℕ → ℕ → Blob → BundleOp
  binds : ℕ → ℕ → ℕ → ℕ → ℕ → BundleOp
  selects : ℕ → ℕ → ℕ → Dict ℕ → BundleOp
  publishes : ℕ → ℕ → ℕ → ℕ → ℕ → OperationReason → BundleOp
  rolls_back : ℕ → ℕ → ℕ → ℕ → ℕ → ℕ → OperationReason → BundleOp

-- A request that fails leaves the database as it was.
abbrev pub apply : BundleOp → Db → Db
apply (creates draft k version app env name blob) db =
    (transact (create_secret_with_value draft k version app env name blob) db).1
apply (adds version k blob) db = (transact (add_secret_version version k blob) db).1
apply (binds k path uid gid mode) db = (transact (update_binding k path uid gid mode) db).1
apply (selects app env expected m) db = (transact (update_draft_selections app env expected m) db).1
apply (publishes at id app env actor reason) db =
    (transact (publish at id app env actor reason) db).1
apply (rolls_back at id app env from actor reason) db =
    (transact (rollback at id app env from actor reason) db).1

apply-IsSound : (op : BundleOp) (db : Db) → IsSound db → IsSound (apply op db)
apply-IsSound (creates draft k version app env name blob) db v =
    transact-keeps IsSound (create_secret_with_value draft k version app env name blob) db v
      (λ a db' e. create_secret-IsSound draft k version app env name blob db db' v e)
apply-IsSound (adds version k blob) db v =
    transact-keeps IsSound (add_secret_version version k blob) db v
      (λ r db' e. add_secret_version-IsSound version k blob db r db' v e)
apply-IsSound (binds k path uid gid mode) db v =
    transact-keeps IsSound (update_binding k path uid gid mode) db v
      (λ n db' e. update_binding-IsSound k path uid gid mode db n db' v e)
apply-IsSound (selects app env expected m) db v =
    transact-keeps IsSound (update_draft_selections app env expected m) db v
      (λ n db' e. update_draft_selections-IsSound app env expected m db n db' v e)
apply-IsSound (publishes at id app env actor reason) db v =
    transact-keeps IsSound (publish at id app env actor reason) db v
      (λ r db' e. publish-IsSound at id app env actor reason db r db' v e)
apply-IsSound (rolls_back at id app env from actor reason) db v =
    transact-keeps IsSound (rollback at id app env from actor reason) db v
      (λ r db' e. rollback-IsSound at id app env from actor reason db r db' v e)

abbrev pub apply_all : List BundleOp → Db → Db
apply_all [] db = db
apply_all (op ∷ ops) db = apply_all ops (apply op db)

-- After any sequence of these requests, failed ones included, on a sound database, every frozen file
-- belongs to a Bundle Revision, and every Secret and every selected Secret has a File Binding.
pub apply_all-IsSound : (ops : List BundleOp) (db : Db) → IsSound db → IsSound (apply_all ops db)
apply_all-IsSound [] db v = v
apply_all-IsSound (op ∷ ops) db v = apply_all-IsSound ops (apply op db) (apply-IsSound op db v)
