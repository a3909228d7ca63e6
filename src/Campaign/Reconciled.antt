-- ===== src/Campaign/Reconciled.antt =====
-- An attempt counts as expected only on grounds: the stages of its reconciliation.
use guildmind.Common.{
  String, List, [], ◌∷◌, length, true, not, ◌&&◌, ◌||◌, Option, none, some, ◌≡◌, refl, sym, ap, ◌∙◌,
  arith, ◌==◌, eqb, lookup, contains, ok, or_raise, require, is_some, inr, concat, eq_iff,
}
use guildmind.Domain.Float.{Float}
use guildmind.Domain.Usage.{same_usage, no_usage}
use guildmind.Domain.Status.{is_terminal}
use guildmind.Domain.Event.{ArtifactRef, EventRecord, Canonical, content_hash}
use guildmind.Domain.Manifest.{RunManifest}
use guildmind.Replay.State.{ReplayState}
use guildmind.Replay.Stream.{replay_events}
use guildmind.Store.Wire.{Wire}
use guildmind.Store.Manifests.{same_text}
use guildmind.Store.Read.{manifest_hash, first, last}
use guildmind.Audit.Order.{same_texts}
use guildmind.Audit.Snapshot.{VerifiedLedgerSnapshot, VerifiedRunRootCommitment}
use guildmind.Audit.Coordinator.{audit_storage}
use guildmind.Campaign.Manifest.{
  ReliabilityCampaignManifest, ReliabilityCampaignAttempt, fixture_ids,
}
use guildmind.Campaign.Evidence.{
  ReliabilityCampaignAttemptEvidence, ReliabilityCampaignTerminalEvidence, AttemptExecutionNote,
  CampaignAttemptDisposition, expected, unexpected_result, has_own_terminal, is_reconciled_terminal,
}
use guildmind.Campaign.Attempt.{
  Task, Archive, Observation, observed_ids, is_same_snapshot, is_read_error, is_replay_error,
  is_task_error, identity_matches, is_none_or, terminal_evidence, note_flag, note_text, text_or,
}
use guildmind.Campaign.Reconcile.{
  invalid, is_as_expected, is_infrastructure_status, conclude_attempt, confirm_attempt,
  read_reference, reconcile_snapshot, compare_commitment, replay_attempt, read_run, read_attempt,
  reconcile_attempt, has_version,
}
use guildmind.Campaign.Yields.{
  Declared, Identified, Grounded, made, Yields, Yields-bind, Yields-if, Yields-try_else,
  Yields-other, Yields-Grounded, validate_terminal-same,
}

module _ {F : Type 0} ⦃fl : Float F⦄ where
  -- What the terminal evidence takes from the observation.
  record Taken (o : Observation F) (t : ReliabilityCampaignTerminalEvidence F) : Type 0 where
    run : t.run_id ≡ o.manifest.run_id
    task : t.task_id ≡ o.manifest.task_id
    model : t.requested_model ≡ o.manifest.requested_model
    returned_model : t.returned_model ≡ o.manifest.returned_model
    environment : t.environment_digest ≡ o.manifest.environment_digest
    evaluator : t.evaluator_version ≡ o.task_evaluator_version
    code : t.code_revision ≡ o.manifest.code_revision
    status : t.run_status ≡ o.manifest.status
    outcome : t.evaluation_outcome ≡ o.replay.evaluation_outcome
    references : t.references_verified ≡ o.final.references_verified
    clean : t.storage_clean ≡ o.final.clean
    settled : same_usage t.budget_reserved no_usage ≡ true
    terminal : is_terminal t.run_status ≡ true

  terminal_evidence-Taken :
      (digest : List (EventRecord F) → String) (o : Observation F)
      (t : ReliabilityCampaignTerminalEvidence F)
      → terminal_evidence digest o ≡ ok t
      → Taken o t
  unfolding terminal_evidence
  terminal_evidence-Taken digest o t h =
      let (same, settled, ended) = validate_terminal-same _ t h in
      let e = sym same in
      record {
        run = ap (λ (x : ReliabilityCampaignTerminalEvidence F). x.run_id) e;
        task = ap (λ (x : ReliabilityCampaignTerminalEvidence F). x.task_id) e;
        model = ap (λ (x : ReliabilityCampaignTerminalEvidence F). x.requested_model) e;
        returned_model = ap (λ (x : ReliabilityCampaignTerminalEvidence F). x.returned_model) e;
        environment = ap (λ (x : ReliabilityCampaignTerminalEvidence F). x.environment_digest) e;
        evaluator = ap (λ (x : ReliabilityCampaignTerminalEvidence F). x.evaluator_version) e;
        code = ap (λ (x : ReliabilityCampaignTerminalEvidence F). x.code_revision) e;
        status = ap (λ (x : ReliabilityCampaignTerminalEvidence F). x.run_status) e;
        outcome = ap (λ (x : ReliabilityCampaignTerminalEvidence F). x.evaluation_outcome) e;
        references = ap (λ (x : ReliabilityCampaignTerminalEvidence F). x.references_verified) e;
        clean = ap (λ (x : ReliabilityCampaignTerminalEvidence F). x.storage_clean) e;
        settled =
            ap
              (λ (x : ReliabilityCampaignTerminalEvidence F). same_usage x.budget_reserved no_usage)
              e
            ∙ settled;
        terminal =
            ap (λ (x : ReliabilityCampaignTerminalEvidence F). is_terminal x.run_status) e ∙ ended;
      }

  -- The identity check of an observation, read on the terminal evidence that is taken from it.
  identity_matches-Declared :
      (m : ReliabilityCampaignManifest F) (attempt : ReliabilityCampaignAttempt) (o : Observation F)
      (t : ReliabilityCampaignTerminalEvidence F)
      → Taken o t
      → identity_matches m attempt o ≡ true
      → Declared m attempt t
  unfolding identity_matches
  identity_matches-Declared m attempt o t k h =
      let task : (o.manifest.task_id == attempt.fixture_id) ≡ true = ground arith in
      let model : (o.manifest.requested_model == m.model_id) ≡ true = ground arith in
      let returned : is_none_or o.manifest.returned_model m.model_id ≡ true = ground arith in
      let evaluated : (not (is_some o.replay.evaluation_outcome)
            || same_text o.manifest.returned_model (some m.model_id))
          ≡ true =
        ground arith in
      let environment : (o.manifest.environment_digest == m.evaluator.environment_digest) ≡ true =
        ground arith in
      let evaluator : (o.task_evaluator_version == m.evaluator.evaluator_version) ≡ true =
        ground arith in
      let code : (o.manifest.code_revision == concat "source-sha256:" m.code_source_sha256) ≡ true =
        ground arith in
      record {
        task = k.task ∙ (eq_iff _ _).0 task;
        model = k.model ∙ (eq_iff _ _).0 model;
        returned_model = ap (λ x. is_none_or x m.model_id) k.returned_model ∙ returned;
        evaluated_model =
            ap (λ x. not (is_some x) || same_text t.returned_model (some m.model_id)) k.outcome
            ∙ ap (λ x. not (is_some o.replay.evaluation_outcome) || same_text x (some m.model_id))
                k.returned_model
            ∙ evaluated;
        environment = k.environment ∙ (eq_iff _ _).0 environment;
        evaluator = k.evaluator ∙ (eq_iff _ _).0 evaluator;
        code = k.code ∙ (eq_iff _ _).0 code;
        terminal = k.terminal;
        settled = k.settled;
      }

module _ {F : Type 0} ⦃fl : Float F⦄ ⦃cn : Canonical F⦄ (w : Wire F)
    (m : ReliabilityCampaignManifest F) (attempt : ReliabilityCampaignAttempt)
    (note : Option AttemptExecutionNote) (archive : Archive F) where
  conclude_attempt-Yields :
      (ids : List String) (o : Observation F) (t : ReliabilityCampaignTerminalEvidence F)
      → Taken o t
      → same_texts ids (attempt.attempt_id ∷ []) ≡ true
      → o.final.references_verified ≡ true
      → o.final.clean ≡ true
      → Yields m attempt (conclude_attempt w m attempt note archive ids o t)
  unfolding conclude_attempt is_reconciled_terminal
  conclude_attempt-Yields ids o t k own verified clean =
      let reconciled : ((t.references_verified && t.storage_clean)
            && same_texts ids (attempt.attempt_id ∷ []))
          ≡ true =
        ground (arith, k.references, k.clean) in
      let identified : (d : CampaignAttemptDisposition) (g : Option String)
          → identity_matches m attempt o ≡ true
          → has_own_terminal (some t) attempt.attempt_id ≡ true
          → Identified m attempt (made m w.before attempt ids note d g (some t)) =
        λ d g matched same. record {
          found = t;
          here = refl;
          run = (eq_iff t.run_id attempt.attempt_id).0 same;
          declared = identity_matches-Declared m attempt o t k matched;
          reconciled = reconciled;
        } in
      Yields-if (not (identity_matches m attempt o)) _ _
        (λ _. Yields-other m w.before attempt ids note _ _ _ refl refl)
        (λ passed.
          let matched : identity_matches m attempt o ≡ true = ground arith in
          Yields-if (note_flag (λ n. n.post_commit_maintenance_error) note) _ _
            (λ _. Yields-other m w.before attempt ids note _ _ _ refl refl)
            (λ _.
              Yields-if (is_some (note_text (λ n. n.error_type) note)) _ _
                (λ _. Yields-other m w.before attempt ids note _ _ _ refl refl)
                (λ _.
                  Yields-if
                    (is_infrastructure_status o.manifest
                      || same_text o.replay.evaluation_outcome (some "error"))
                    _ _ (λ _. Yields-other m w.before attempt ids note _ _ _ refl refl)
                    (λ _.
                      Yields-if (is_as_expected w m attempt note archive o) _ _
                        (λ good.
                          Yields-Grounded m w.before attempt ids note expected none (some t)
                            (λ same. record {
                              own = refl;
                              sound = inr (identified _ _ matched same);
                              successful = ground (arith, k.status, k.outcome, k.settled);
                            }))
                        (λ _.
                          Yields-Grounded m w.before attempt ids note unexpected_result _ (some t)
                            (λ same. record {
                              own = refl;
                              sound = inr (identified _ _ matched same);
                              successful = refl;
                            }))))))

  -- Refused with `invalid`, or with another diagnostic.
  refused :
      (ids : List String) (g : String) → Yields m attempt (invalid w m attempt note archive ids g)
  refused ids g = Yields-other m w.before attempt ids note _ _ _ refl refl

  confirm_attempt-Yields :
      (s : VerifiedLedgerSnapshot) (manifest : RunManifest F) (events : List (EventRecord F))
      (replay : ReplayState F) (c : VerifiedRunRootCommitment) (task : Task) (version : String)
      → same_texts (observed_ids (some s)) (attempt.attempt_id ∷ []) ≡ true
      → Yields m attempt
          (confirm_attempt w m attempt note archive s manifest events replay c task version)
  unfolding confirm_attempt
  confirm_attempt-Yields s manifest events replay c task version own =
      Yields-bind (audit_storage w archive.second) _ (λ final _.
        Yields-if
          (not (is_same_snapshot final.ledger_snapshot s)
            || not final.references_verified
            || not final.clean)
          _ _ (λ _. refused _ _)
          (λ kept. Yields-bind (terminal_evidence archive.semantic_digest _) _ (λ t h.
            conclude_attempt-Yields (observed_ids (some s)) _ t
              (terminal_evidence-Taken archive.semantic_digest _ t h) own (ground arith)
              (ground arith))))

  read_reference-Yields :
      (o : Option ArtifactRef) (s : VerifiedLedgerSnapshot) (manifest : RunManifest F)
      (events : List (EventRecord F)) (replay : ReplayState F) (c : VerifiedRunRootCommitment)
      → same_texts (observed_ids (some s)) (attempt.attempt_id ∷ []) ≡ true
      → Yields m attempt (read_reference w m attempt note archive o s manifest events replay c)
  unfolding read_reference
  read_reference-Yields none s manifest events replay c own = refused _ _
  read_reference-Yields (some reference) s manifest events replay c own =
      Yields-try_else is_task_error (archive.read_task reference) _ _ (λ _. refused _ _)
        (λ task _.
          Yields-if (not (has_version w m attempt note archive task.evaluator_version)) _ _
            (λ _. refused _ _)
            (λ _.
              confirm_attempt-Yields s manifest events replay c task
                (text_or task.evaluator_version "") own))

  compare_commitment-Yields :
      (s : VerifiedLedgerSnapshot) (manifest : RunManifest F) (events : List (EventRecord F))
      (replay : ReplayState F)
      → same_texts (observed_ids (some s)) (attempt.attempt_id ∷ []) ≡ true
      → Yields m attempt (compare_commitment w m attempt note archive s manifest events replay)
  unfolding compare_commitment
  compare_commitment-Yields s manifest events replay own =
      Yields-bind (or_raise (first s.roots) _) _ (λ c _.
        Yields-bind (or_raise (last events) _) _ (λ head _.
          Yields-if
            (not (c.manifest_sha256 == manifest_hash w manifest)
              || not (eqb c.event_count (length events))
              || not (c.head_event_sha256 == content_hash head))
            _ _ (λ _. refused _ _)
            (λ _.
              read_reference-Yields (lookup "task_spec" manifest.artifacts) s manifest events replay
                c own)))

  replay_attempt-Yields :
      (s : VerifiedLedgerSnapshot) (manifest : RunManifest F) (events : List (EventRecord F))
      → same_texts (observed_ids (some s)) (attempt.attempt_id ∷ []) ≡ true
      → Yields m attempt (replay_attempt w m attempt note archive s manifest events)
  unfolding replay_attempt
  replay_attempt-Yields s manifest events own =
      Yields-if (not (is_terminal manifest.status)) _ _
        (λ _. Yields-other m w.before attempt (observed_ids (some s)) note _ _ _ refl refl)
        (λ _.
          Yields-try_else is_replay_error (replay_events true events) _ _ (λ _. refused _ _)
            (λ replay _. compare_commitment-Yields s manifest events replay own))

  read_attempt-Yields :
      (s : VerifiedLedgerSnapshot) → Yields m attempt (read_attempt w m attempt note archive s)
  unfolding read_attempt
  read_attempt-Yields s =
      Yields-if (not (same_texts (observed_ids (some s)) (attempt.attempt_id ∷ []))) _ _
        (λ _. Yields-other m w.before attempt (observed_ids (some s)) note _ _ _ refl refl)
        (λ own.
          Yields-try_else is_read_error (read_run w m attempt note archive) _ _ (λ _. refused _ _)
            (λ run _. replay_attempt-Yields s run.0 run.1 (ground arith)))

  reconcile_snapshot-Yields :
      (o : Option VerifiedLedgerSnapshot) (g : Option String)
      → Yields m attempt (reconcile_snapshot w m attempt note archive o g)
  unfolding reconcile_snapshot
  reconcile_snapshot-Yields none g = refused _ _
  reconcile_snapshot-Yields (some s) g = read_attempt-Yields s

  reconcile_attempt-Yields : Yields m attempt (reconcile_attempt w m attempt note archive)
  unfolding reconcile_attempt
  reconcile_attempt-Yields =
      Yields-bind (require (contains attempt.fixture_id (fixture_ids m.fixtures)) _) _ (λ _ _.
        Yields-bind (audit_storage w archive.first) _ (λ integrity _.
          Yields-if (not integrity.database_present) _ _
            (λ _.
              Yields-other m w.before attempt (observed_ids integrity.ledger_snapshot) note _ _ _
                refl refl)
            (λ _. reconcile_snapshot-Yields integrity.ledger_snapshot integrity.diagnostic)))

  -- If the reconciliation of an attempt returns evidence, then it is evidence of this attempt, and
  -- unless its disposition counts as an infrastructure error, it has terminal evidence, is reconciled,
  -- and that terminal evidence has the run ID of the attempt, the task of its fixture, the campaign's
  -- model, environment, evaluator version and code, a returned model that is the campaign's or absent
  -- (and not absent if there is an evaluation outcome), an ended run, and no reserved budget. If the
  -- disposition is expected, then the run succeeded and passed its evaluation.
  pub reconcile_attempt-Grounded :
      (e : ReliabilityCampaignAttemptEvidence F)
      → reconcile_attempt w m attempt note archive ≡ ok e
      → Grounded m attempt e
  reconcile_attempt-Grounded e h = reconcile_attempt-Yields.at e h
