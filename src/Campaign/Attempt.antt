-- ===== src/Campaign/Attempt.antt =====
-- runtime/campaign.py: the reconciliation of one attempt with its evidence directory.
use guildmind.Common.{
  String, List, [], map, Bool, true, false, not, ◌&&◌, ◌||◌, Option, none, some, ◌==◌, eqb, is_some,
  concat, if◌then◌else◌, Error, Result, ok, err,
}
use guildmind.Domain.Float.{Float}
use guildmind.Domain.Event.{ArtifactRef, EventRecord}
use guildmind.Domain.Manifest.{RunManifest}
use guildmind.Replay.State.{ReplayState}
use guildmind.Store.Tables.{Ledger}
use guildmind.Store.Write.{Handle}
use guildmind.Store.Manifests.{same_text, same_limits}
use guildmind.Audit.Order.{same_list}
use guildmind.Audit.Snapshot.{VerifiedLedgerSnapshot, VerifiedRunRootCommitment}
use guildmind.Audit.Report.{StorageIntegrityReport, state_value}
use guildmind.Audit.Site.{Site}
use guildmind.Campaign.Manifest.{ReliabilityCampaignManifest, ReliabilityCampaignAttempt}
use guildmind.Campaign.Evidence.{
  ReliabilityCampaignAttemptEvidence, ReliabilityCampaignTerminalEvidence, AttemptExecutionNote,
  CampaignAttemptDisposition, validate_evidence, validate_terminal,
}

-- What the code reads of a `TaskSpec`; the version is `metadata.get("evaluator_version")` if a text.
pub record Task : Type 0 where
  pub task_id : String
  pub task_content_hash : String
  pub image_digest : String
  pub evaluator_version : Option String

-- An attempt's state directory: as its two audits see it, as the event store opens in between, and
-- the canonical task of an artifact reference.
pub record Archive (F : Type 0) : Type 0 where
  pub first : Site F
  pub second : Site F
  pub open_ledger : Result (Handle × Ledger)
  pub read_task : ArtifactRef → Result Task
  pub semantic_digest : List (EventRecord F) → String
  -- `type(error).__name__`
  pub error_name : Error → String

-- `value or default`
abbrev pub text_or : Option String → String → String
text_or none default = default
text_or (some s) default = if s == "" then default else s

abbrev pub same_commitment : VerifiedRunRootCommitment → VerifiedRunRootCommitment → Bool
same_commitment a b =
    a.run_id == b.run_id
    && eqb a.manifest_revision b.manifest_revision
    && a.manifest_sha256 == b.manifest_sha256
    && eqb a.event_count b.event_count
    && a.head_event_sha256 == b.head_event_sha256

-- `final_snapshot == snapshot`
abbrev pub is_same_snapshot : Option VerifiedLedgerSnapshot → VerifiedLedgerSnapshot → Bool
is_same_snapshot none s = false
is_same_snapshot (some t) s =
    t.snapshot_sha256 == s.snapshot_sha256 && same_list same_commitment t.roots s.roots

abbrev pub observed_ids : Option VerifiedLedgerSnapshot → List String
observed_ids none = []
observed_ids (some s) = map (λ (r : VerifiedRunRootCommitment). r.run_id) s.roots

-- `(KeyError, OSError, StoreIntegrityError, ValueError)`
abbrev pub is_read_error : Error → Bool
is_read_error (Error.store_integrity _) = true
is_read_error (Error.os_error _) = true
is_read_error (Error.value_error _) = true
is_read_error (Error.key_error _) = true
is_read_error Error.validation_error = true
is_read_error _ = false

abbrev pub is_replay_error : Error → Bool
is_replay_error (Error.replay_integrity _) = true
is_replay_error _ = false

-- `(ArtifactCorruptionError, OSError, ValidationError, ValueError)`
abbrev pub is_task_error : Error → Bool
is_task_error (Error.artifact_corruption _) = true
is_task_error (Error.os_error _) = true
is_task_error (Error.value_error _) = true
is_task_error Error.validation_error = true
is_task_error _ = false

-- `try: value = step; except classes as error: return handler(error)`, and the rest after it.
unfoldable pub try_else :
    {A B : Type 0} → (Error → Bool) → Result A → (Error → Result B) → (A → Result B) → Result B
try_else catches (ok value) handler rest = rest value
try_else catches (err raised) handler rest = if catches raised then handler raised else err raised

abbrev pub note_flag : (AttemptExecutionNote → Bool) → Option AttemptExecutionNote → Bool
note_flag flag none = false
note_flag flag (some note) = flag note

abbrev pub note_text :
    (AttemptExecutionNote → Option String) → Option AttemptExecutionNote → Option String
note_text field none = none
note_text field (some note) = field note

-- `_attempt_evidence`
unfoldable pub attempt_evidence :
    {F : Type 0}
    → (String → String → Bool)
    → ReliabilityCampaignAttempt
    → List String
    → Option AttemptExecutionNote
    → CampaignAttemptDisposition
    → Option String
    → Option (ReliabilityCampaignTerminalEvidence F)
    → Result (ReliabilityCampaignAttemptEvidence F)
unfolding validate_evidence
attempt_evidence before attempt ids note disposition diagnostic terminal =
    validate_evidence before (record {
      attempt = attempt;
      disposition = disposition;
      observed_run_ids = ids;
      terminal = terminal;
      recovery_attempted = note_flag (λ n. n.recovery_attempted) note;
      recovery_succeeded = note_flag (λ n. n.recovery_succeeded) note;
      execution_error_type = note_text (λ n. n.error_type) note;
      diagnostic = diagnostic;
    })

-- What the audits and the readers have shown of an ended run.
pub record Observation (F : Type 0) : Type 0 where
  pub manifest : RunManifest F
  pub events : List (EventRecord F)
  pub replay : ReplayState F
  pub commitment : VerifiedRunRootCommitment
  pub task : Task
  pub task_evaluator_version : String
  pub final_snapshot_sha256 : String
  pub final : StorageIntegrityReport

-- `manifest.returned_model in {None, model_id}`
abbrev pub is_none_or : Option String → String → Bool
is_none_or none model = true
is_none_or (some s) model = s == model

module _ {F : Type 0} ⦃fl : Float F⦄ where
  unfoldable pub identity_matches :
      ReliabilityCampaignManifest F → ReliabilityCampaignAttempt → Observation F → Bool
  unfolding same_limits
  identity_matches m attempt o =
      o.manifest.experiment_id == m.experiment_id
      && o.manifest.task_id == attempt.fixture_id
      && o.task.task_id == attempt.fixture_id
      && o.manifest.candidate_id == m.candidate_id
      && o.manifest.requested_model == m.model_id
      && is_none_or o.manifest.returned_model m.model_id
      && (not (is_some o.replay.evaluation_outcome)
          || same_text o.manifest.returned_model (some m.model_id))
      && eqb o.manifest.seed attempt.seed
      && o.manifest.environment_digest == m.evaluator.environment_digest
      && o.task.image_digest == m.evaluator.environment_digest
      && o.task_evaluator_version == m.evaluator.evaluator_version
      && o.manifest.code_revision == concat "source-sha256:" m.code_source_sha256
      && same_limits o.manifest.budget_limits m.budget_limits

  unfoldable pub terminal_evidence :
      (List (EventRecord F) → String)
      → Observation F
      → Result (ReliabilityCampaignTerminalEvidence F)
  unfolding validate_terminal
  terminal_evidence digest o = validate_terminal (record {
    run_id = o.manifest.run_id;
    task_id = o.manifest.task_id;
    task_content_sha256 = o.task.task_content_hash;
    evaluator_version = o.task_evaluator_version;
    environment_digest = o.manifest.environment_digest;
    requested_model = o.manifest.requested_model;
    returned_model = o.manifest.returned_model;
    code_revision = o.manifest.code_revision;
    budget_used = o.replay.budget_used;
    budget_reserved = o.replay.budget_reserved;
    run_status = o.manifest.status;
    evaluation_outcome = o.replay.evaluation_outcome;
    manifest_revision = o.commitment.manifest_revision;
    manifest_sha256 = o.commitment.manifest_sha256;
    event_count = o.commitment.event_count;
    head_event_sha256 = o.commitment.head_event_sha256;
    semantic_digest = digest o.events;
    ledger_snapshot_sha256 = o.final_snapshot_sha256;
    storage_state = state_value o.final.state;
    references_verified = o.final.references_verified;
    storage_clean = o.final.clean;
  })
