-- ===== src/Audit/Report.antt =====
-- storage/coordinator.py: the report on a state directory, whose state and gates are derived.
use guildmind.Common.{
  String, Bool, true, false, not, ◌&&◌, ◌||◌, Option, none, some, ◌==◌, Error, Result, ok, err,
  require, ◌>>◌, ◌>>=◌, is_some, count_chars, if◌then◌else◌, take_chars,
}
use guildmind.Store.Tables.{any}
use guildmind.Audit.Findings.{ArtifactAudit, ReachableArtifact, has_items, has_owner, same_bool}
use guildmind.Audit.Snapshot.{VerifiedLedgerSnapshot}

pub data StorageIntegrityState : Type 0 where
  uninitialized database_missing_with_artifacts database_invalid initialized_empty
        initialized_empty_with_unreferenced_findings audit_incomplete referenced_evidence_invalid
        healthy_with_unreferenced_findings healthy :
      StorageIntegrityState

-- The `StrEnum` value.
abbrev pub state_value : StorageIntegrityState → String
state_value uninitialized = "uninitialized"
state_value database_missing_with_artifacts = "database_missing_with_artifacts"
state_value database_invalid = "database_invalid"
state_value initialized_empty = "initialized_empty"
state_value initialized_empty_with_unreferenced_findings =
    "initialized_empty_with_unreferenced_findings"
state_value audit_incomplete = "audit_incomplete"
state_value referenced_evidence_invalid = "referenced_evidence_invalid"
state_value healthy_with_unreferenced_findings = "healthy_with_unreferenced_findings"
state_value healthy = "healthy"

pub record Derivation : Type 0 where
  pub state : StorageIntegrityState
  pub initialization_allowed : Bool
  pub references_verified : Bool
  pub read_allowed : Bool
  pub mutation_allowed : Bool
  pub quarantine_allowed : Bool
  pub clean : Bool

-- `value.startswith(prefix)`
unfoldable pub starts_with : String → String → Bool
unfolding count_chars take_chars
starts_with initial value = take_chars (count_chars initial) value == initial

-- A derivation that allows nothing.
abbrev pub closed : StorageIntegrityState → Derivation
closed state = record {
  state = state;
  initialization_allowed = false;
  references_verified = false;
  read_allowed = false;
  mutation_allowed = false;
  quarantine_allowed = false;
  clean = false;
}

unfoldable pub is_state_directory : Option String → Bool
unfolding starts_with
is_state_directory none = false
is_state_directory (some diagnostic) = starts_with "state_directory_" diagnostic

abbrev pub has_content : Option ArtifactAudit → Bool
has_content none = false
has_content (some a) = has_items a.findings || has_items a.reachable

-- The branch `if not database_present`.
unfoldable pub derive_absent : Option ArtifactAudit → Option String → Derivation
unfolding starts_with
derive_absent audit diagnostic =
    if is_state_directory diagnostic
    then closed database_invalid
    else if has_content audit || is_some diagnostic
    then closed database_missing_with_artifacts
    else record (closed uninitialized) { initialization_allowed = true; clean = true }

-- `referenced_failure`
unfoldable pub has_referenced_failure : ArtifactAudit → Bool
has_referenced_failure a =
    any has_owner a.findings || any (λ (r : ReachableArtifact). not r.bytes_verified) a.reachable

-- The ladder of states of a validated database.
unfoldable pub audited_state : VerifiedLedgerSnapshot → ArtifactAudit → StorageIntegrityState
unfolding has_referenced_failure
audited_state s a =
    if has_referenced_failure a
    then referenced_evidence_invalid
    else if not a.complete
    then audit_incomplete
    else if has_items a.findings
    then (if not (has_items s.roots)
        then initialized_empty_with_unreferenced_findings
        else healthy_with_unreferenced_findings)
    else if not (has_items s.roots)
    then initialized_empty
    else healthy

abbrev pub is_clean_state : StorageIntegrityState → Bool
is_clean_state initialized_empty = true
is_clean_state healthy = true
is_clean_state _ = false

unfoldable pub derive_audited : VerifiedLedgerSnapshot → ArtifactAudit → Derivation
unfolding has_referenced_failure audited_state
derive_audited s a =
    let operational = a.complete && not (has_referenced_failure a) in
    record {
      state = audited_state s a;
      initialization_allowed = false;
      references_verified = operational;
      read_allowed = operational;
      mutation_allowed = operational;
      quarantine_allowed = operational && a.quarantine_allowed;
      clean = is_clean_state (audited_state s a);
    }

-- `_derive_report`
unfoldable pub derive_report :
    Bool → Option VerifiedLedgerSnapshot → Option ArtifactAudit → Option String → Result Derivation
unfolding derive_absent derive_audited
derive_report false snapshot audit diagnostic = ok (derive_absent audit diagnostic)
derive_report true none audit diagnostic = ok (closed database_invalid)
derive_report true (some s) audit (some diagnostic) = ok (closed audit_incomplete)
derive_report true (some s) none none =
    err (Error.value_error "a validated database requires a bound artifact audit")
derive_report true (some s) (some a) none = do
  require (a.snapshot_sha256 == s.snapshot_sha256)
      (Error.value_error "artifact audit is not bound to the ledger snapshot")
  ok (derive_audited s a)

pub record StorageIntegrityReport : Type 0 where
  pub state : StorageIntegrityState
  pub database_present : Bool
  pub artifact_root_present : Bool
  pub ledger_snapshot : Option VerifiedLedgerSnapshot
  pub artifact_audit : Option ArtifactAudit
  pub diagnostic : Option String
  pub initialization_allowed : Bool
  pub references_verified : Bool
  pub read_allowed : Bool
  pub mutation_allowed : Bool
  pub quarantine_allowed : Bool
  pub clean : Bool

-- The comparison `observed != expected` of the validator, negated.
unfoldable pub same_gates : StorageIntegrityReport → Derivation → Bool
same_gates r d =
    (state_value r.state == state_value d.state)
    && same_bool r.initialization_allowed d.initialization_allowed
    && same_bool r.references_verified d.references_verified
    && same_bool r.read_allowed d.read_allowed
    && same_bool r.mutation_allowed d.mutation_allowed
    && same_bool r.quarantine_allowed d.quarantine_allowed
    && same_bool r.clean d.clean

-- The audit of the report is of the ledger of the report.
unfoldable pub is_bound : StorageIntegrityReport → Bool
is_bound r = elim r.ledger_snapshot [
  | none ↦ true
  | some s ↦ elim r.artifact_audit [ none ↦ true | some a ↦ s.snapshot_sha256 == a.snapshot_sha256 ]
]

unfoldable pub validate_report : StorageIntegrityReport → Result StorageIntegrityReport
unfolding same_gates is_bound
validate_report r = do
  derivation ← derive_report r.database_present r.ledger_snapshot r.artifact_audit r.diagnostic
  require (same_gates r derivation)
      (Error.value_error "storage integrity state and gates must be derived")
  require (is_bound r) (Error.value_error "artifact audit is not bound to the ledger snapshot")
  ok r

-- The record that `_report` makes.
abbrev pub reported :
    Derivation
    → Bool
    → Bool
    → Option VerifiedLedgerSnapshot
    → Option ArtifactAudit
    → Option String
    → StorageIntegrityReport
reported d database_present artifact_root_present snapshot audit diagnostic = record {
  state = d.state;
  database_present = database_present;
  artifact_root_present = artifact_root_present;
  ledger_snapshot = snapshot;
  artifact_audit = audit;
  diagnostic = diagnostic;
  initialization_allowed = d.initialization_allowed;
  references_verified = d.references_verified;
  read_allowed = d.read_allowed;
  mutation_allowed = d.mutation_allowed;
  quarantine_allowed = d.quarantine_allowed;
  clean = d.clean;
}

-- `_report`
unfoldable pub report :
    Bool
    → Bool
    → Option VerifiedLedgerSnapshot
    → Option ArtifactAudit
    → Option String
    → Result StorageIntegrityReport
unfolding validate_report
report database_present artifact_root_present snapshot audit diagnostic = do
  d ← derive_report database_present snapshot audit diagnostic
  validate_report (reported d database_present artifact_root_present snapshot audit diagnostic)
