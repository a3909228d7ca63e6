-- ===== src/Campaign/Reconcile.antt =====
-- runtime/campaign.py: `_reconcile_attempt`, one function for each stage between its early returns.
use guildmind.Common.{
  String, List, [], ◌∷◌, length, Bool, true, false, not, ◌&&◌, ◌||◌, Option, none, some, ◌==◌, eqb,
  is_some, concat, has_text, lookup, contains, if◌then◌else◌, Error, Result, ok, or_raise, require,
  ◌>>=◌, ◌>>◌,
}
use guildmind.Domain.Float.{Float}
use guildmind.Domain.Status.{is_terminal, same_status, succeeded, value}
use guildmind.Domain.Event.{ArtifactRef, EventRecord, Canonical, content_hash}
use guildmind.Domain.Manifest.{RunManifest}
use guildmind.Replay.State.{ReplayState}
use guildmind.Replay.Stream.{replay_events}
use guildmind.Store.Wire.{Wire}
use guildmind.Store.Manifests.{same_text}
use guildmind.Store.Read.{manifest_hash, first, last}
use guildmind.Store.Query.{load_manifest, list_events}
use guildmind.Audit.Order.{same_texts}
use guildmind.Audit.Snapshot.{VerifiedLedgerSnapshot, VerifiedRunRootCommitment}
use guildmind.Audit.Coordinator.{audit_storage}
use guildmind.Campaign.Manifest.{
  ReliabilityCampaignManifest, ReliabilityCampaignAttempt, fixture_ids,
}
use guildmind.Campaign.Evidence.{
  ReliabilityCampaignAttemptEvidence, ReliabilityCampaignTerminalEvidence, AttemptExecutionNote,
  CampaignAttemptDisposition, expected, unexpected_result, infrastructure_error, evidence_missing,
  evidence_run_set_invalid, evidence_nonterminal, evidence_invalid, post_commit_maintenance_error,
}
use guildmind.Campaign.Attempt.{
  Task, Archive, Observation, text_or, is_same_snapshot, observed_ids, is_read_error,
  is_replay_error, is_task_error, try_else, note_flag, note_text, attempt_evidence,
  identity_matches, terminal_evidence,
}

-- `manifest.status is RunStatus.INFRASTRUCTURE_ERROR`
abbrev pub is_infrastructure_status : {F : Type 0} → RunManifest F → Bool
is_infrastructure_status m = value m.status == "infrastructure_error"

module _ {F : Type 0} ⦃fl : Float F⦄ ⦃cn : Canonical F⦄ (w : Wire F)
    (m : ReliabilityCampaignManifest F) (attempt : ReliabilityCampaignAttempt)
    (note : Option AttemptExecutionNote) (archive : Archive F) where
  -- `return _attempt_evidence(…)` with the run IDs that were observed.
  abbrev pub evidence :
      List String
      → CampaignAttemptDisposition
      → String
      → Option (ReliabilityCampaignTerminalEvidence F)
      → Result (ReliabilityCampaignAttemptEvidence F)
  evidence ids disposition diagnostic terminal =
      attempt_evidence w.before attempt ids note disposition (some diagnostic) terminal

  abbrev pub invalid : List String → String → Result (ReliabilityCampaignAttemptEvidence F)
  invalid ids diagnostic = evidence ids evidence_invalid diagnostic none

  -- The known outcome of every fixture: the run succeeded and the evaluation passed.
  abbrev pub is_as_expected : Observation F → Bool
  is_as_expected o =
      same_status o.manifest.status succeeded
      && same_text o.replay.evaluation_outcome (some "passed")

  -- From `if not identity_matches` on.
  unfoldable pub conclude_attempt :
      List String
      → Observation F
      → ReliabilityCampaignTerminalEvidence F
      → Result (ReliabilityCampaignAttemptEvidence F)
  conclude_attempt ids o terminal =
      if not (identity_matches m attempt o)
      then evidence ids evidence_invalid "attempt_identity_mismatch" (some terminal)
      else if note_flag (λ n. n.post_commit_maintenance_error) note
      then evidence ids post_commit_maintenance_error
          (text_or (note_text (λ n. n.diagnostic) note) "post_commit_maintenance_release_failed")
          (some terminal)
      else if is_some (note_text (λ n. n.error_type) note)
      then evidence ids infrastructure_error
          (text_or (note_text (λ n. n.diagnostic) note) "execution_raised") (some terminal)
      else if is_infrastructure_status o.manifest
          || same_text o.replay.evaluation_outcome (some "error")
      then evidence ids infrastructure_error "attempt_terminalized_as_infrastructure_error"
          (some terminal)
      else if is_as_expected o
      then attempt_evidence w.before attempt ids note expected none (some terminal)
      else evidence ids unexpected_result "attempt_terminal_result_did_not_match_expectation"
          (some terminal)

  -- The second audit and the terminal evidence.
  unfoldable pub confirm_attempt :
      VerifiedLedgerSnapshot
      → RunManifest F
      → List (EventRecord F)
      → ReplayState F
      → VerifiedRunRootCommitment
      → Task
      → String
      → Result (ReliabilityCampaignAttemptEvidence F)
  confirm_attempt s manifest events replay commitment task version = do
    final ← audit_storage w archive.second
    if not (is_same_snapshot final.ledger_snapshot s)
          || not final.references_verified
          || not final.clean
        then invalid (observed_ids (some s)) "attempt_changed_during_reconciliation"
        else (do
          let o : Observation F = record {
            manifest = manifest;
            events = events;
            replay = replay;
            commitment = commitment;
            task = task;
            task_evaluator_version = version;
            final_snapshot_sha256 = s.snapshot_sha256;
            final = final;
          }
          terminal ← terminal_evidence archive.semantic_digest o
          conclude_attempt (observed_ids (some s)) o terminal)

  -- `if not isinstance(task_evaluator_version, str) or not task_evaluator_version.strip()`
  abbrev pub has_version : Option String → Bool
  has_version none = false
  has_version (some version) = has_text version

  -- The task of the run and its evaluator version, for the reference in the manifest.
  unfoldable pub read_reference :
      Option ArtifactRef
      → VerifiedLedgerSnapshot
      → RunManifest F
      → List (EventRecord F)
      → ReplayState F
      → VerifiedRunRootCommitment
      → Result (ReliabilityCampaignAttemptEvidence F)
  read_reference none s manifest events replay commitment =
      invalid (observed_ids (some s)) "attempt_task_spec_missing"
  read_reference (some reference) s manifest events replay commitment =
      try_else is_task_error (archive.read_task reference)
        (λ raised.
          invalid (observed_ids (some s))
            (concat "attempt_task_spec_invalid:" (archive.error_name raised)))
        (λ task.
          if not (has_version task.evaluator_version)
          then invalid (observed_ids (some s)) "attempt_evaluator_version_missing"
          else confirm_attempt s manifest events replay commitment task
              (text_or task.evaluator_version ""))

  -- The first root of the snapshot against what was read, from `commitment = snapshot.roots[0]` on.
  unfoldable pub compare_commitment :
      VerifiedLedgerSnapshot
      → RunManifest F
      → List (EventRecord F)
      → ReplayState F
      → Result (ReliabilityCampaignAttemptEvidence F)
  compare_commitment s manifest events replay = do
    commitment ← or_raise (first s.roots) (Error.index_error "tuple index out of range")
    head ← or_raise (last events) (Error.index_error "list index out of range")
    if not (commitment.manifest_sha256 == manifest_hash w manifest)
          || not (eqb commitment.event_count (length events))
          || not (commitment.head_event_sha256 == content_hash head)
        then invalid (observed_ids (some s)) "attempt_changed_after_initial_audit"
        else read_reference (lookup "task_spec" manifest.artifacts) s manifest events replay
            commitment

  -- The status of the run and the replay of its events.
  unfoldable pub replay_attempt :
      VerifiedLedgerSnapshot
      → RunManifest F
      → List (EventRecord F)
      → Result (ReliabilityCampaignAttemptEvidence F)
  replay_attempt s manifest events =
      if not (is_terminal manifest.status)
      then evidence (observed_ids (some s)) evidence_nonterminal "attempt_run_is_nonterminal" none
      else try_else is_replay_error (replay_events true events)
          (λ raised.
            invalid (observed_ids (some s))
              (concat "attempt_replay_invalid:" (archive.error_name raised)))
          (λ replay. compare_commitment s manifest events replay)

  -- The two reads of the event store.
  unfoldable pub read_run : Result (RunManifest F × List (EventRecord F))
  read_run = do
    opened ← archive.open_ledger
    manifest ← load_manifest w attempt.attempt_id opened.1
    events ← list_events w attempt.attempt_id opened.1
    ok (manifest, events)

  -- The part for a ledger snapshot.
  unfoldable pub read_attempt :
      VerifiedLedgerSnapshot → Result (ReliabilityCampaignAttemptEvidence F)
  read_attempt s =
      if not (same_texts (observed_ids (some s)) (attempt.attempt_id ∷ []))
      then evidence (observed_ids (some s)) evidence_run_set_invalid
          "attempt_run_set_does_not_match_schedule" none
      else try_else is_read_error read_run
          (λ raised.
            invalid (observed_ids (some s))
              (concat "attempt_event_store_invalid:" (archive.error_name raised)))
          (λ run. replay_attempt s run.0 run.1)

  -- What follows `if not integrity.database_present`.
  unfoldable pub reconcile_snapshot :
      Option VerifiedLedgerSnapshot → Option String → Result (ReliabilityCampaignAttemptEvidence F)
  reconcile_snapshot none diagnostic =
      invalid [] (text_or diagnostic "attempt_ledger_snapshot_missing")
  reconcile_snapshot (some s) diagnostic = read_attempt s

  -- `_reconcile_attempt`; the loaded fixtures are those of the manifest.
  unfoldable pub reconcile_attempt : Result (ReliabilityCampaignAttemptEvidence F)
  reconcile_attempt = do
    require (contains attempt.fixture_id (fixture_ids m.fixtures))
        (Error.key_error "unknown campaign fixture")
    integrity ← audit_storage w archive.first
    if not integrity.database_present
        then evidence (observed_ids integrity.ledger_snapshot) evidence_missing
            "attempt_database_missing" none
        else reconcile_snapshot integrity.ledger_snapshot integrity.diagnostic
