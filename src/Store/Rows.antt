-- ===== src/Store/Rows.antt =====
-- Rows of the control-plane tables (core/migrations, core/internal/database/gen/models.go), with the
-- columns that the modelled statements read or write. Ids are compared and ordered only, and other
-- texts are compared only, so both are numbers; the empty text is 0. A timestamp is a number.
use autosecrets.Prelude.{ℕ, Bool, true, false, Option, List, []}

pub record Application : Type 0 where
  pub id : ℕ
  pub name : ℕ

pub record Environment : Type 0 where
  pub id : ℕ
  pub application_id : ℕ
  pub name : ℕ

pub record Secret : Type 0 where
  pub id : ℕ
  pub application_id : ℕ
  pub environment_id : ℕ
  pub name : ℕ

-- The wrapped data key, the nonces and the ciphertext that `MasterKey.Seal` returns.
pub record Blob : Type 0 where
  pub wrapped_key : List ℕ
  pub nonce : List ℕ
  pub ciphertext : List ℕ

pub record SecretVersion : Type 0 where
  pub id : ℕ
  pub secret_id : ℕ
  pub seq : ℕ
  pub blob : Blob

pub record FileBinding : Type 0 where
  pub secret_id : ℕ
  pub path : ℕ
  pub uid : ℕ
  pub gid : ℕ
  pub mode : ℕ

pub record Draft : Type 0 where
  pub id : ℕ
  pub application_id : ℕ
  pub environment_id : ℕ
  pub version : ℕ

pub record DraftSelection : Type 0 where
  pub draft_id : ℕ
  pub secret_id : ℕ
  pub version_seq : ℕ

pub record OperationReason : Type 0 where
  pub category : ℕ
  pub explanation : ℕ
  pub external_ref : ℕ

pub record BundleRevision : Type 0 where
  pub id : ℕ
  pub application_id : ℕ
  pub environment_id : ℕ
  pub draft_version : ℕ
  pub created_at : ℕ
  pub created_by : ℕ
  pub operation_reason : OperationReason

pub record RevisionFile : Type 0 where
  pub revision_id : ℕ
  pub secret_id : ℕ
  pub path : ℕ
  pub uid : ℕ
  pub gid : ℕ
  pub mode : ℕ
  pub version_seq : ℕ

-- `nodes.serial`: `PendingSerial(id)` is the text "pending:" and the id, and no serial of a
-- certificate (hexadecimal digits) begins so.
pub data Serial : Type 0 where
  pending_serial issued_serial : ℕ → Serial

-- `none` for a column that is NULL.
pub record Node : Type 0 where
  pub id : ℕ
  pub name : ℕ
  pub serial : Serial
  pub age_pubkey : ℕ
  pub cert_pem : ℕ
  pub cert_expires_at : ℕ
  pub last_seen_at : Option ℕ
  pub desired_etag : ℕ
  pub observed_revision : ℕ
  pub last_result : ℕ
  pub poll_interval_seconds : ℕ
  pub bundle_dir : ℕ

pub record NodeGroup : Type 0 where
  pub id : ℕ
  pub name : ℕ

pub record GroupMember : Type 0 where
  pub group_id : ℕ
  pub node_id : ℕ

-- The texts that the CHECK constraint on `assignments.status` admits.
pub data AssignmentStatus : Type 0 where
  active removing : AssignmentStatus

abbrev pub is_active : AssignmentStatus → Bool
is_active active = true
is_active removing = false

pub record Assignment : Type 0 where
  pub id : ℕ
  pub group_id : ℕ
  pub application_id : ℕ
  pub environment_id : ℕ
  pub revision_id : ℕ
  pub status : AssignmentStatus
  pub created_at : ℕ

pub data TaskStatus : Type 0 where
  pending cleaned failed offline cleanup_unconfirmed : TaskStatus

pub record UnassignmentTask : Type 0 where
  pub assignment_id : ℕ
  pub node_id : ℕ
  pub status : TaskStatus
  pub error : ℕ

pub record EnrollmentToken : Type 0 where
  pub token_hash : ℕ
  pub name : ℕ
  pub expires_at : ℕ
  pub used_at : Option ℕ
  pub node_id : Option ℕ

pub record Db : Type 0 where
  pub applications : List Application
  pub environments : List Environment
  pub secrets : List Secret
  pub secret_versions : List SecretVersion
  pub file_bindings : List FileBinding
  pub drafts : List Draft
  pub draft_selections : List DraftSelection
  pub bundle_revisions : List BundleRevision
  pub revision_files : List RevisionFile
  pub nodes : List Node
  pub node_groups : List NodeGroup
  pub group_members : List GroupMember
  pub assignments : List Assignment
  pub unassignment_tasks : List UnassignmentTask
  pub enrollment_tokens : List EnrollmentToken

abbrev pub no_rows_at_all : Db
no_rows_at_all = record {
  applications = [];
  environments = [];
  secrets = [];
  secret_versions = [];
  file_bindings = [];
  drafts = [];
  draft_selections = [];
  bundle_revisions = [];
  revision_files = [];
  nodes = [];
  node_groups = [];
  group_members = [];
  assignments = [];
  unassignment_tasks = [];
  enrollment_tokens = [];
}
