-- ===== src/Audit/Tests.antt =====
-- The audit of an empty ledger beside a store with one unreferenced file.
use guildmind.Common.{
  ℕ, String, [], ◌∷◌, true, false, none, some, ◌≡◌, refl, ok, concat, ◌↔◌, is_lower_sha256,
  catch_rules, Catchable-ok,
}
use guildmind.Domain.Float.{tick_float}
use guildmind.Domain.Event.{Canonical}
use guildmind.Store.Read.{verified_roots_locked, roots_of, verified_run_roots_sha256}
use guildmind.Domain.Usage.{no_usage}
use guildmind.Store.Raises.{Reads}
use guildmind.Store.Query.{verify_integrity}
use guildmind.Store.Samples.{sample_wire, sample_handle, no_rows, uncapped}
use guildmind.Audit.Order.{is_canonical, is_sorted_set}
use guildmind.Audit.Findings.{
  ArtifactAudit, ArtifactFinding, valid_finalized_orphan, validate_audit, validate_reachables,
  validate_findings, validate_finding, validate_owners, is_optional_sha256, derived_complete,
  derived_quarantine,
}
use guildmind.Audit.Snapshot.{
  VerifiedLedgerSnapshot, ledger_snapshot, validate_commitments, validate_snapshot,
}
use guildmind.Audit.Report.{
  StorageIntegrityReport, initialized_empty_with_unreferenced_findings, validate_report, report,
  derive_report, derive_audited, has_referenced_failure, audited_state, same_gates, is_bound,
}
use guildmind.Audit.Site.{
  Site, Location, PathKind, missing, directory, regular, state_directory, database, artifact_root,
  attempt, require_same_path,
}
use guildmind.Audit.Coordinator.{
  read_store, audit_for_snapshot, require_same_sidecars, audit_ledger, attempt_ledger, report_found,
  report_ledger, audit_directory, audit_storage,
}
use guildmind.Audit.Consistent.{IsConsistent, observed, validate_report-IsConsistent}
use guildmind.Audit.Gates.{IsTrusted, validate_report-IsTrusted}
use guildmind.Audit.Quarantine.{validate_report-quarantine}
use guildmind.Audit.Raises.{Behaves}
use guildmind.Audit.Total.{audit_storage-Returns}
use guildmind.Audit.Permission.{Permitted, audit_storage-Permitted}

abbrev zeros : String
zeros = "0000000000000000000000000000000000000000000000000000000000000000"

instance abbrev zero_canonical : Canonical ℕ
zero_canonical = record {
  event_json = λ e. e.event_id;
  payload_json = λ _. "payload";
  sha256_hex = λ _. zeros;
}

abbrev orphan : ArtifactFinding
orphan = record {
  kind = valid_finalized_orphan;
  relative_path = concat "sha256/00/" zeros;
  expected_sha256 = some zeros;
  observed_sha256 = some zeros;
  size_bytes = some 3;
  detail = none;
  errno = none;
  owners = [];
}

abbrev orphan_audit : ArtifactAudit
orphan_audit = record {
  snapshot_sha256 = zeros;
  reachable = [];
  findings = orphan ∷ [];
  complete = true;
  quarantine_allowed = true;
}

abbrev empty_snapshot : VerifiedLedgerSnapshot
empty_snapshot = record { snapshot_sha256 = zeros; roots = [] }

abbrev kind_at : Location → PathKind
kind_at state_directory = directory
kind_at database = regular
kind_at artifact_root = directory
kind_at _ = missing

abbrev small_site : Site ℕ
small_site = record {
  observe = λ _ place. record {
    kind = kind_at place;
    error_number = none;
    device = some 1;
    inode = some 2;
  };
  open_ledger = ok (sample_handle, no_rows);
  audit_store = λ _. ok orphan_audit;
  decimal = λ _. "0";
}

abbrev small_report : StorageIntegrityReport
small_report = record {
  state = initialized_empty_with_unreferenced_findings;
  database_present = true;
  artifact_root_present = true;
  ledger_snapshot = some empty_snapshot;
  artifact_audit = some orphan_audit;
  diagnostic = none;
  initialization_allowed = false;
  references_verified = true;
  read_allowed = true;
  mutation_allowed = true;
  quarantine_allowed = true;
  clean = false;
}

small_report_test : validate_report small_report ≡ ok small_report
unfolding validate_report derive_report derive_audited has_referenced_failure audited_state
    same_gates is_bound
small_report_test = refl

orphan_audit_test : validate_audit sample_wire.before orphan_audit ≡ ok orphan_audit
unfolding validate_audit validate_reachables validate_findings validate_finding validate_owners
    is_optional_sha256 is_canonical is_sorted_set derived_complete derived_quarantine
    is_lower_sha256
orphan_audit_test = refl

small_audit : audit_storage sample_wire small_site ≡ ok small_report
unfolding audit_storage audit_directory report_ledger report_found attempt_ledger audit_ledger
    require_same_sidecars audit_for_snapshot read_store attempt require_same_path report
    validate_report derive_report derive_audited has_referenced_failure audited_state same_gates
    is_bound validate_audit validate_reachables validate_findings validate_finding validate_owners
    is_optional_sha256 is_canonical is_sorted_set derived_complete derived_quarantine
    is_lower_sha256 ledger_snapshot validate_commitments validate_snapshot verify_integrity
    verified_roots_locked roots_of verified_run_roots_sha256
small_audit = refl

-- The records that are not on file are refused by the readers.
sample_wire-Reads : Reads sample_wire
sample_wire-Reads = record {
  manifests = λ s. search (catch_rules) depth 24 fits 8000;
  events = λ s. search (catch_rules);
  limits = λ s. Catchable-ok uncapped;
  usages = λ s. Catchable-ok no_usage;
  schema = λ l. Catchable-ok tt;
  sqlite = λ l. Catchable-ok tt;
}

small_site-Behaves : Behaves sample_wire small_site
unfolding is_lower_sha256
small_site-Behaves = record {
  digests = λ t. refl;
  records = sample_wire-Reads;
  opens = Catchable-ok (sample_handle, no_rows);
  inspects = λ l. Catchable-ok tt;
  audits = λ roots. Catchable-ok orphan_audit;
}

validate_report-IsConsistent_example : IsConsistent (observed small_report)
validate_report-IsConsistent_example =
    validate_report-IsConsistent small_report small_report small_report_test

validate_report-IsTrusted_example :
    (true ≡ true) ↔ IsTrusted true (some empty_snapshot) (some orphan_audit) none
validate_report-IsTrusted_example =
    validate_report-IsTrusted small_report small_report small_report_test

validate_report-quarantine_example : small_report.quarantine_allowed ≡ small_report.mutation_allowed
validate_report-quarantine_example =
    validate_report-quarantine sample_wire.before small_report small_report orphan_audit
      orphan_audit small_report_test refl orphan_audit_test

audit_storage-Returns_example :
    (r : StorageIntegrityReport) × (audit_storage sample_wire small_site ≡ ok r)
audit_storage-Returns_example = audit_storage-Returns sample_wire small_site small_site-Behaves

audit_storage-Permitted_example : Permitted sample_wire small_site small_report
audit_storage-Permitted_example =
    audit_storage-Permitted sample_wire small_site small_report small_audit refl
