-- ===== src/Audit/Site.antt =====
-- storage/coordinator.py: what the audit observes of a state directory.
use guildmind.Common.{
  ℕ, String, List, Bool, true, false, ◌&&◌, Option, none, some, Error, Result, ok, err, require,
  if◌then◌else◌, concat,
}
use guildmind.Store.Tables.{Ledger}
use guildmind.Store.Write.{Handle}
use guildmind.Store.Read.{VerifiedRunRoot}
use guildmind.Store.Manifests.{integrity}
use guildmind.Audit.Order.{same_optional}
use guildmind.Audit.Findings.{ArtifactAudit}

pub data PathKind : Type 0 where
  missing directory regular symlink other error : PathKind

-- The `StrEnum` value.
abbrev pub path_kind_value : PathKind → String
path_kind_value missing = "missing"
path_kind_value directory = "directory"
path_kind_value regular = "regular"
path_kind_value symlink = "symlink"
path_kind_value other = "other"
path_kind_value error = "error"

abbrev pub same_kind : PathKind → PathKind → Bool
same_kind missing missing = true
same_kind directory directory = true
same_kind regular regular = true
same_kind symlink symlink = true
same_kind other other = true
same_kind error error = true
same_kind _ _ = false

pub record PathObservation : Type 0 where
  pub kind : PathKind
  pub error_number : Option ℕ
  pub device : Option ℕ
  pub inode : Option ℕ

-- The state directory, `runs.db`, `artifacts`, and the three sidecars of the database.
pub data Location : Type 0 where
  state_directory database artifact_root database_wal database_shm database_journal : Location

-- The names of the diagnostics.
abbrev pub location_name : Location → String
location_name state_directory = "state_directory"
location_name database = "database"
location_name artifact_root = "artifact_root"
location_name database_wal = "database_wal"
location_name database_shm = "database_shm"
location_name database_journal = "database_journal"

-- A state directory and the stores in it, which may change under the audit.
pub record Site (F : Type 0) : Type 0 where
  -- `_observe_path` at a point of the audit, counted in the order of the code
  pub observe : ℕ → Location → PathObservation
  -- `EventStore.open_existing_read_only`
  pub open_ledger : Result (Handle × Ledger)
  -- `FileArtifactStore.open_existing_read_only`, then the claims of `audit_artifact_store`
  pub audit_store : List (VerifiedRunRoot F) → Result ArtifactAudit
  -- the digits of a number
  pub decimal : ℕ → String

-- `(OSError, sqlite3.DatabaseError, StoreIntegrityError, ValueError)`
abbrev pub is_ledger_error : Error → Bool
is_ledger_error (Error.os_error _) = true
is_ledger_error (Error.constraint _) = true
is_ledger_error (Error.store_integrity _) = true
is_ledger_error (Error.value_error _) = true
is_ledger_error Error.validation_error = true
is_ledger_error _ = false

-- `(ArtifactCorruptionError, OSError, StoreIntegrityError, ValueError)`
abbrev pub is_artifact_error : Error → Bool
is_artifact_error (Error.artifact_corruption _) = true
is_artifact_error (Error.os_error _) = true
is_artifact_error (Error.store_integrity _) = true
is_artifact_error (Error.value_error _) = true
is_artifact_error Error.validation_error = true
is_artifact_error _ = false

-- `try: … except classes: handler`
unfoldable pub attempt : {A : Type 0} → (Error → Bool) → Result A → Result A → Result A
attempt catches (ok a) handler = ok a
attempt catches (err raised) handler = if catches raised then handler else err raised

-- `==` of observations
abbrev pub same_observation : PathObservation → PathObservation → Bool
same_observation p q =
    same_kind p.kind q.kind
    && same_optional p.error_number q.error_number
    && same_optional p.device q.device
    && same_optional p.inode q.inode

module _ {F : Type 0} (site : Site F) where
  unfoldable pub require_same_path : ℕ → Location → PathObservation → Result (Unit {0})
  require_same_path point place expected =
      let observed = site.observe point place in
      require
        (same_kind observed.kind expected.kind
          && same_optional observed.device expected.device
          && same_optional observed.inode expected.inode)
        (integrity "the path changed during storage integrity audit")

  abbrev errno_suffix : Option ℕ → String
  errno_suffix none = ""
  errno_suffix (some number) = concat "_errno_" (site.decimal number)

  unfoldable pub path_diagnostic : Location → PathObservation → String
  path_diagnostic place o =
      concat (location_name place)
        (concat "_" (concat (path_kind_value o.kind) (errno_suffix o.error_number)))
