-- ===== src/Campaign/Tests.antt =====
-- A campaign of two fixtures and two rounds, and a report of one attempt.
use guildmind.Common.{
  ℕ, String, [], ◌∷◌, Bool, true, false, none, some, ◌≡◌, ◌+◌, ◌*◌, ◌≤◌, refl, ok, err, Error, ltb,
  ◌==◌, length, contains, ◌&&◌, all,
}
use guildmind.Domain.Float.{tick_float}
use guildmind.Domain.Usage.{no_usage}
use guildmind.Domain.Status.{succeeded}
use guildmind.Store.Samples.{uncapped, sample_wire, id_canonical}
use guildmind.Audit.Report.{
  report, validate_report, derive_report, derive_absent, same_gates, is_bound, is_state_directory,
}
use guildmind.Audit.Site.{Site, missing}
use guildmind.Audit.Coordinator.{audit_storage}
use guildmind.Audit.Order.{is_canonical, is_sorted_set}
use guildmind.Campaign.Manifest.{
  ReliabilityCampaignManifest, ReliabilityCampaignAttempt, ReliabilityCampaignFixture, development,
  local, validate_campaign, fixture_ids, observed_bindings,
}
use guildmind.Campaign.Evidence.{
  ReliabilityCampaignAttemptEvidence, ReliabilityCampaignTerminalEvidence, expected,
  evidence_missing, validate_evidence, is_reconciled_terminal,
}
use guildmind.Campaign.Report.{
  Measure, ReliabilityCampaignReportBody, derived_totals, same_totals, validate_body,
}
use guildmind.Campaign.Schedule.{is_scheduled, validate_campaign-schedule, validate_campaign-length}
use guildmind.Campaign.Attempt.{Archive, attempt_evidence}
use guildmind.Campaign.Reconcile.{reconcile_attempt}
use guildmind.Campaign.Verdict.{validate_body-passed, validate_body-bounds}

-- The order of the texts below.
abbrev first_before : String → String → Bool
first_before a b = (a == "fa") && (b == "fb")

abbrev fixture_of : String → ReliabilityCampaignFixture
fixture_of id = record {
  fixture_id = id;
  fixture_path = id;
  fixture_tree_sha256 = "t";
  solution_patch_sha256 = "p";
}

abbrev attempt_of : String → String → ℕ → ReliabilityCampaignAttempt
attempt_of id fixture round = record {
  attempt_id = id;
  fixture_id = fixture;
  round_index = round;
  seed = 7;
}

abbrev small_campaign : ReliabilityCampaignManifest ℕ
small_campaign = record {
  campaign_id = "campaign";
  evidence_tier = development;
  experiment_id = "ex";
  candidate_id = "ca";
  code_source_sha256 = "s";
  evaluator = record { kind = local; evaluator_version = "1"; environment_digest = "e" };
  model_id = "m";
  budget_limits = uncapped;
  rounds = 2;
  maximum_infrastructure_error_rate = 0;
  fixtures = fixture_of "fa" ∷ fixture_of "fb" ∷ [];
  attempts =
      attempt_of "a0" "fa" 0
      ∷ attempt_of "b0" "fb" 0
      ∷ attempt_of "a1" "fa" 1
      ∷ attempt_of "b1" "fb" 1
      ∷ [];
}

small_campaign_test : validate_campaign first_before small_campaign ≡ ok small_campaign
unfolding validate_campaign is_canonical is_sorted_set
small_campaign_test = refl

abbrev single_campaign : ReliabilityCampaignManifest ℕ
single_campaign = record small_campaign {
  rounds = 1;
  fixtures = fixture_of "fa" ∷ [];
  attempts = attempt_of "a0" "fa" 0 ∷ [];
}

abbrev ended_run : ReliabilityCampaignTerminalEvidence ℕ
ended_run = record {
  run_id = "a0";
  task_id = "fa";
  task_content_sha256 = "t";
  evaluator_version = "1";
  environment_digest = "e";
  requested_model = "m";
  returned_model = some "m";
  code_revision = "r";
  budget_used = no_usage;
  budget_reserved = no_usage;
  run_status = succeeded;
  evaluation_outcome = some "passed";
  manifest_revision = 3;
  manifest_sha256 = "h";
  event_count = 9;
  head_event_sha256 = "h";
  semantic_digest = "d";
  ledger_snapshot_sha256 = "l";
  storage_state = "healthy";
  references_verified = true;
  storage_clean = true;
}

abbrev expected_attempt : ReliabilityCampaignAttemptEvidence ℕ
expected_attempt = record {
  attempt = attempt_of "a0" "fa" 0;
  disposition = expected;
  observed_run_ids = "a0" ∷ [];
  terminal = some ended_run;
  recovery_attempted = false;
  recovery_succeeded = false;
  execution_error_type = none;
  diagnostic = none;
}

abbrev whole_measure : Measure ℕ
whole_measure = record { quotient = λ a b. a; content_sha256 = λ m. m.campaign_id }

abbrev small_body : ReliabilityCampaignReportBody ℕ
small_body = record {
  manifest = single_campaign;
  source_manifest_sha256 = "s";
  campaign_manifest_sha256 = "campaign";
  git_revision = "g";
  recorded_at = 4;
  state_manifest_verified = true;
  code_identity_verified = true;
  attempts = expected_attempt ∷ [];
  totals = record {
    intended_attempt_count = 1;
    terminal_attempt_count = 1;
    reconciled_attempt_count = 1;
    expected_attempt_count = 1;
    infrastructure_error_count = 0;
    infrastructure_error_rate = 0;
    complete = true;
    all_expected = true;
    threshold_met = true;
    campaign_passed = true;
  };
}

small_body_test : validate_body whole_measure small_body ≡ ok small_body
unfolding validate_body derived_totals same_totals is_reconciled_terminal
small_body_test = refl

validate_campaign-schedule_example :
    is_scheduled "fb" 1 (observed_bindings small_campaign.attempts)
    ≡ (contains "fb" (fixture_ids small_campaign.fixtures) && ltb 1 2)
validate_campaign-schedule_example =
    validate_campaign-schedule first_before small_campaign small_campaign "fb" 1 small_campaign_test

validate_campaign-length_example :
    length small_campaign.attempts ≡ small_campaign.rounds * length small_campaign.fixtures
validate_campaign-length_example =
    validate_campaign-length first_before small_campaign small_campaign small_campaign_test

validate_body-passed_example : true ≡ (all is_reconciled_terminal small_body.attempts && true)
unfolding is_reconciled_terminal
validate_body-passed_example =
    validate_body-passed whole_measure small_body small_body small_body_test

validate_body-bounds_example : 1 + 0 ≤ 1
validate_body-bounds_example =
    validate_body-bounds whole_measure small_body small_body small_body_test

-- An attempt whose state directory was never made.
abbrev absent_site : Site ℕ
absent_site = record {
  observe = λ _ _. record { kind = missing; error_number = none; device = none; inode = none };
  open_ledger = err (Error.store_integrity "no database");
  audit_store = λ _. err (Error.store_integrity "no store");
  decimal = λ _. "0";
}

abbrev absent_archive : Archive ℕ
absent_archive = record {
  first = absent_site;
  second = absent_site;
  open_ledger = err (Error.store_integrity "no database");
  read_task = λ _. err Error.validation_error;
  semantic_digest = λ _. "digest";
  error_name = λ _. "Error";
}

abbrev absent_attempt : ReliabilityCampaignAttemptEvidence ℕ
absent_attempt = record {
  attempt = attempt_of "a0" "fa" 0;
  disposition = evidence_missing;
  observed_run_ids = [];
  terminal = none;
  recovery_attempted = false;
  recovery_succeeded = false;
  execution_error_type = none;
  diagnostic = some "attempt_database_missing";
}

absent_attempt_test :
    reconcile_attempt sample_wire single_campaign (attempt_of "a0" "fa" 0) none absent_archive
    ≡ ok absent_attempt
unfolding reconcile_attempt audit_storage report validate_report derive_report derive_absent
    same_gates is_state_directory is_bound attempt_evidence validate_evidence is_sorted_set
    is_canonical
absent_attempt_test = refl
