-- ===== src/Store/Finality.antt =====
-- The lifecycle methods on a run that has ended.
use guildmind.Common.{ℕ, String, some, none, Option, Dict, ◌≡◌, ok, if◌then◌else◌}
use guildmind.Domain.Float.{Float}
use guildmind.Domain.Json.{Fields}
use guildmind.Domain.Usage.{BudgetUsage}
use guildmind.Domain.Status.{RunStatus, is_terminal, value}
use guildmind.Domain.Event.{ArtifactRef, Canonical}
use guildmind.Domain.Manifest.{RunManifest}
use guildmind.Replay.State.{ReplayState}
use guildmind.Store.Exec.{Exec, reads, ◌>>=◌, ◌>>◌}
use guildmind.Store.Tables.{Ledger}
use guildmind.Store.Wire.{Wire}
use guildmind.Store.Read.{manifest_hash, load_manifest_locked, validated_state_locked}
use guildmind.Store.Write.{Handle}
use guildmind.Store.Settled.{
  Ended, Settled, Settled-bind, Settled-Refused, Settled-if, Settled-load, Refused-load,
  Refused-check, Refused-rest, Refused-first, settled_rules, Settled-check, Settled-reads,
  Settled-pure,
}
use guildmind.Store.Refusal.{
  not_pending, not_running, and_false, transaction-Settled, save-Refused, insert_run-Refused,
}
use guildmind.Store.Isolation.{ledger_rules}
use guildmind.Store.Lifecycle.{
  create_rows, create_run, start_rows, start_run, artifact_rows, record_artifact, request_rows,
  start_model_request, response_rows, complete_model_response,
}
use guildmind.Store.Terminal.{
  Guard, EventStoreTerminalResult, evaluation_rows, check_roles, complete_evaluation_with_events,
  report_terminal, compare_snapshot, recovery_rows, check_request, recover_run_with_events,
  exhaustion_rows, complete_budget_exhaustion_with_events,
}
use guildmind.Store.Operation.{
  Operation, create, begin, record_task, request, respond, evaluate, recover, refuse, subject,
  forget, perform,
}

module _ {F : Type 0} ⦃fl : Float F⦄ ⦃cn : Canonical F⦄ (w : Wire F) (h : Handle) where
  create-Settled : (m : RunManifest F) → Settled m.run_id (create_run w h m)
  unfolding create_run create_rows
  create-Settled m = Settled-bind m.run_id _ _ (Settled-check m.run_id _ _) (λ u.
      transaction-Settled w m.run_id h _ _ (
        Settled-Refused m.run_id _ (
          Refused-first m.run_id _ _ (
            insert_run-Refused (record {
              run_id = m.run_id;
              status = value m.status;
              manifest_revision = 0;
              manifest_json = w.manifest_json m;
              manifest_sha256 = manifest_hash w m;
            })))))

  start-Settled : (id : String) (t : ℕ) (model : String) → Settled id (start_run w h id t model)
  unfolding start_run start_rows
  start-Settled id t model = transaction-Settled w id h _ _ (
      Settled-Refused id _
        (Refused-load id w _ (λ m ended. Refused-check id _ _ _ (not_pending m.status ended))))

  artifact-Settled :
      (id name : String) (a : ArtifactRef) → Settled id (record_artifact w h id name a)
  unfolding record_artifact artifact_rows
  artifact-Settled id name a = Settled-bind id _ _ (Settled-check id _ _) (λ u.
      transaction-Settled w id h _ _ (
        Settled-Refused id _ (
          Refused-load id w _ (λ m ended.
            Refused-rest id _ _ (search ledger_rules)
              (λ state. Refused-check id _ _ _ (and_false _ _ (not_running m.status ended)))))))

  request-Settled :
      (id request_id : String) (maximum used reserved : BudgetUsage F)
      → Settled id (start_model_request w h id request_id maximum used reserved)
  unfolding start_model_request request_rows
  request-Settled id request_id maximum used reserved =
      Settled-bind id _ _ (Settled-check id _ _) (λ u.
        Settled-bind id _ _ (Settled-check id _ _) (λ v. transaction-Settled w id h _ _ (
          Settled-Refused id _ (
            Refused-load id w _ (λ m ended. Refused-check id _ _ _ (not_running m.status ended))))))

  -- The last write of the response is the one that an ended run refuses.
  response-Settled :
      (id request_id model : String) (actual : BudgetUsage F) (patch : ArtifactRef)
      (used reserved : BudgetUsage F)
      → Settled id (complete_model_response w h id request_id model actual patch used reserved)
  unfolding complete_model_response response_rows
  response-Settled id request_id model actual patch used reserved = transaction-Settled w id h _ _ (
      Settled-Refused id _
        (search (Refused-rest, Refused-first, save-Refused, ledger_rules) depth 60 fits 40000))

  evaluation-Settled :
      (id : String) (files : Dict ArtifactRef) (payload : Fields F) (status : RunStatus) (t : ℕ)
      (reason : Option String) (used reserved : BudgetUsage F)
      → Settled id
          (complete_evaluation_with_events w h id files payload status t reason used reserved)
  unfolding complete_evaluation_with_events check_roles evaluation_rows
  evaluation-Settled id files payload status t reason used reserved =
      Settled-bind id _ _ (search settled_rules depth 24) (λ u. transaction-Settled w id h _ _ (
        Settled-Refused id _ (
          Refused-load id w _ (λ m ended.
            Refused-rest id _ _ (search ledger_rules)
              (λ state. Refused-check id _ _ _ (not_running m.status ended))))))

  compare-Settled :
      (id : String) (expected : Option String) (guard : Guard F)
      → Settled id (compare_snapshot w h expected guard)
  compare-Settled id none guard = search settled_rules
  compare-Settled id (some expected) guard = search settled_rules depth 24

  report-Settled : (id : String) (m : RunManifest F) → Settled id (report_terminal w h id m)
  unfolding report_terminal
  report-Settled id m = search settled_rules depth 24

  -- Past the snapshot both methods report what an ended run is, whatever they would do to another.
  reported :
      (id : String) (expected : Option String) (guard : Guard F)
      (rows : RunManifest F → ReplayState F → Exec Ledger (EventStoreTerminalResult F))
      → Settled id (do
        reads w.inspect_schema
        compare_snapshot w h expected guard
        current ← reads (load_manifest_locked w id)
        state ← reads (validated_state_locked w id current)
        if is_terminal current.status then report_terminal w h id current else rows current state)
  reported id expected guard rows = Settled-bind id _ _ (Settled-reads id _) (λ u.
      Settled-bind id _ _ (compare-Settled id expected guard) (λ v. Settled-load id w _ (λ m ended.
        Settled-bind id _ _ (Settled-reads id _)
          (λ state. Settled-if id _ _ _ ended (report-Settled id m)))))

  check_request-Settled :
      (id reason : String) (expected : Option String) (guard : Guard F)
      → Settled id (check_request w h reason expected guard)
  unfolding check_request
  check_request-Settled id reason expected guard = search settled_rules depth 24

  recovery-Settled :
      (id : String) (t : ℕ) (reason : String) (expected : Option String) (guard : Guard F)
      → Settled id (recover_run_with_events w h id t reason expected guard)
  unfolding recover_run_with_events recovery_rows
  recovery-Settled id t reason expected guard =
      Settled-bind id _ _ (check_request-Settled id reason expected guard)
        (λ u. transaction-Settled w id h _ _ (reported id expected guard _))

  exhaustion-Settled :
      (id : String) (t : ℕ) (reason : String) (expected : Option String) (guard : Guard F)
      → Settled id (complete_budget_exhaustion_with_events w h id t reason expected guard)
  unfolding complete_budget_exhaustion_with_events exhaustion_rows
  exhaustion-Settled id t reason expected guard =
      Settled-bind id _ _ (check_request-Settled id reason expected guard)
        (λ u. transaction-Settled w id h _ _ (reported id expected guard _))

  forget-Settled :
      {A : Type 0} (id : String) (m : Exec Ledger A) → Settled id m → Settled id (forget m)
  forget-Settled id m inner = Settled-bind id m _ inner (λ a. Settled-pure id tt)

  perform-Settled : (op : Operation F) → Settled (subject op) (perform w h op)
  unfolding perform
  perform-Settled (create m) = forget-Settled m.run_id _ (create-Settled m)
  perform-Settled (begin id t model) = forget-Settled id _ (start-Settled id t model)
  perform-Settled (record_task id name a) = forget-Settled id _ (artifact-Settled id name a)
  perform-Settled (request id r m u v) = forget-Settled id _ (request-Settled id r m u v)
  perform-Settled (respond id r model a p u v) =
      forget-Settled id _ (response-Settled id r model a p u v)
  perform-Settled (evaluate id files p s t r u v) =
      forget-Settled id _ (evaluation-Settled id files p s t r u v)
  perform-Settled (recover id t r e g) = forget-Settled id _ (recovery-Settled id t r e g)
  perform-Settled (refuse id t r e g) = forget-Settled id _ (exhaustion-Settled id t r e g)

  -- A call on a run that has ended either raises or returns with the whole ledger as it was: no
  -- event, no manifest, no budget and no status of any run is written.
  pub perform-Ended :
      (op : Operation F) (s t : Ledger)
      → Ended (subject op) s
      → perform w h op s ≡ ok (tt, t)
      → t ≡ s
  perform-Ended op s t ended returned = (perform-Settled op).at s t tt ended returned
