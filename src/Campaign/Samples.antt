-- ===== src/Campaign/Samples.antt =====
-- The directory of a run that succeeded, and its reconciled evidence.
use guildmind.Common.{ℕ, [], ◌∷◌, true, false, none, some, ok, concat}
use guildmind.Domain.Float.{tick_float}
use guildmind.Domain.Usage.{no_usage}
use guildmind.Domain.Status.{succeeded}
use guildmind.Audit.Findings.{ArtifactAudit}
use guildmind.Audit.Site.{
  Site, Location, PathKind, missing, directory, regular, state_directory, database, artifact_root,
}
use guildmind.Campaign.Manifest.{
  ReliabilityCampaignManifest, ReliabilityCampaignAttempt, development, local,
}
use guildmind.Campaign.Evidence.{ReliabilityCampaignAttemptEvidence, expected}
use guildmind.Campaign.Attempt.{Archive}
use guildmind.Campaign.SampleRun.{zeros, one_call, caps, done_ledger}

-- The one file that all artifacts of the run refer to is there and was read.
abbrev verified_audit : ArtifactAudit
verified_audit = record {
  snapshot_sha256 = zeros;
  reachable =
      record {
        sha256 = zeros;
        size_bytes = 7;
        storage_ref = concat "sha256/00/" zeros;
        media_types = "text/plain" ∷ [];
        owners = record { run_id = "a0"; path = "manifest" ∷ [] } ∷ [];
        bytes_verified = true;
      }
      ∷ [];
  findings = [];
  complete = true;
  quarantine_allowed = true;
}

abbrev kind_at : Location → PathKind
kind_at state_directory = directory
kind_at database = regular
kind_at artifact_root = directory
kind_at _ = missing

abbrev run_site : Site ℕ
run_site = record {
  observe = λ _ place. record {
    kind = kind_at place;
    error_number = none;
    device = some 1;
    inode = some 2;
  };
  open_ledger = ok (record { read_only = true; opens_existing = true }, done_ledger);
  audit_store = λ _. ok verified_audit;
  decimal = λ _. "0";
}

abbrev pub run_archive : Archive ℕ
run_archive = record {
  first = run_site;
  second = run_site;
  open_ledger = ok (record { read_only = true; opens_existing = true }, done_ledger);
  read_task = λ _. ok (record {
    task_id = "fa";
    task_content_hash = "t";
    image_digest = concat "sha256:" zeros;
    evaluator_version = some "1";
  });
  semantic_digest = λ _. "digest";
  error_name = λ _. "Error";
}

abbrev pub run_attempt : ReliabilityCampaignAttempt
run_attempt = record { attempt_id = "a0"; fixture_id = "fa"; round_index = 0; seed = 7 }

abbrev pub run_campaign : ReliabilityCampaignManifest ℕ
run_campaign = record {
  campaign_id = "campaign";
  evidence_tier = development;
  experiment_id = "ex";
  candidate_id = "ca";
  code_source_sha256 = "s";
  evaluator = record {
    kind = local;
    evaluator_version = "1";
    environment_digest = concat "sha256:" zeros;
  };
  model_id = "m";
  budget_limits = caps;
  rounds = 1;
  maximum_infrastructure_error_rate = 0;
  fixtures =
      record {
        fixture_id = "fa";
        fixture_path = "fa";
        fixture_tree_sha256 = "t";
        solution_patch_sha256 = "p";
      }
      ∷ [];
  attempts = run_attempt ∷ [];
}

abbrev pub run_evidence : ReliabilityCampaignAttemptEvidence ℕ
run_evidence = record {
  attempt = run_attempt;
  disposition = expected;
  observed_run_ids = "a0" ∷ [];
  terminal = some (record {
    run_id = "a0";
    task_id = "fa";
    task_content_sha256 = "t";
    evaluator_version = "1";
    environment_digest = concat "sha256:" zeros;
    requested_model = "m";
    returned_model = some "m";
    code_revision = "source-sha256:s";
    budget_used = one_call;
    budget_reserved = no_usage;
    run_status = succeeded;
    evaluation_outcome = some "passed";
    manifest_revision = 2;
    manifest_sha256 = zeros;
    event_count = 13;
    head_event_sha256 = zeros;
    semantic_digest = "digest";
    ledger_snapshot_sha256 = zeros;
    storage_state = "healthy";
    references_verified = true;
    storage_clean = true;
  });
  recovery_attempted = false;
  recovery_succeeded = false;
  execution_error_type = none;
  diagnostic = none;
}
