-- ===== src/Campaign/ReconciledTests.antt =====
-- The reconciliation of a run that succeeded, from its ledger to its evidence.
use guildmind.Common.{none, ok, ◌≡◌, refl, is_lower_sha256, has_text, take_chars}
use guildmind.Domain.Float.{tick_float}
use guildmind.Store.Evaluate.{run_call}
use guildmind.Store.Query.{load_manifest, list_events, verify_integrity}
use guildmind.Audit.Order.{is_canonical, is_sorted_set}
use guildmind.Audit.Findings.{
  validate_audit, validate_reachables, validate_reachable, validate_findings, validate_finding,
  validate_owners, validate_owner, is_optional_sha256, derived_complete, derived_quarantine,
  canonical_relative_path,
}
use guildmind.Audit.Snapshot.{
  ledger_snapshot, validate_commitments, validate_commitment, validate_snapshot,
}
use guildmind.Audit.Report.{
  validate_report, report, derive_report, derive_audited, has_referenced_failure, audited_state,
  same_gates, is_bound,
}
use guildmind.Audit.Site.{attempt, require_same_path}
use guildmind.Audit.Coordinator.{
  read_store, audit_for_snapshot, require_same_sidecars, audit_ledger, attempt_ledger, report_found,
  report_ledger, audit_directory, audit_storage,
}
use guildmind.Campaign.Evidence.{validate_evidence, validate_terminal}
use guildmind.Campaign.Attempt.{attempt_evidence, try_else, identity_matches, terminal_evidence}
use guildmind.Campaign.Reconcile.{
  conclude_attempt, confirm_attempt, read_reference, compare_commitment, replay_attempt, read_run,
  read_attempt, reconcile_snapshot, reconcile_attempt,
}
use guildmind.Campaign.SampleRun.{zero_canonical, run_wire}
use guildmind.Campaign.Samples.{run_campaign, run_attempt, run_archive, run_evidence}
use guildmind.Campaign.Yields.{Grounded}
use guildmind.Campaign.Reconciled.{reconcile_attempt-Grounded}

run_evidence_test :
    reconcile_attempt run_wire run_campaign run_attempt none run_archive ≡ ok run_evidence
unfolding run_call load_manifest list_events verify_integrity is_canonical is_sorted_set
    validate_audit validate_reachables validate_reachable validate_findings validate_finding
    validate_owners validate_owner is_optional_sha256 derived_complete derived_quarantine
    canonical_relative_path ledger_snapshot validate_commitments validate_commitment
    validate_snapshot validate_report report derive_report derive_audited has_referenced_failure
    audited_state same_gates is_bound attempt require_same_path read_store audit_for_snapshot
    require_same_sidecars audit_ledger attempt_ledger report_found report_ledger audit_directory
    audit_storage validate_evidence validate_terminal attempt_evidence try_else identity_matches
    terminal_evidence conclude_attempt confirm_attempt read_reference compare_commitment
    replay_attempt read_run read_attempt reconcile_snapshot reconcile_attempt is_lower_sha256
    has_text take_chars
run_evidence_test = refl

reconcile_attempt-Grounded_example : Grounded run_campaign run_attempt run_evidence
reconcile_attempt-Grounded_example =
    reconcile_attempt-Grounded run_wire run_campaign run_attempt none run_archive run_evidence
      run_evidence_test
