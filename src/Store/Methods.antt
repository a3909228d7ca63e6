-- ===== src/Store/Methods.antt =====
-- Every lifecycle method extends the ledger for its own run alone.
use guildmind.Common.{String, ℕ, Option, some, none, Dict}
use guildmind.Domain.Float.{Float}
use guildmind.Domain.Json.{Fields}
use guildmind.Domain.Usage.{BudgetUsage}
use guildmind.Domain.Status.{RunStatus}
use guildmind.Domain.Event.{ArtifactRef, Canonical}
use guildmind.Domain.Manifest.{RunManifest}
use guildmind.Replay.State.{ReplayState, started, same_request_state}
use guildmind.Store.Exec.{Respects, Respects-if}
use guildmind.Store.Wire.{Wire}
use guildmind.Store.Write.{Handle}
use guildmind.Store.Extends.{Extends}
use guildmind.Store.Statements.{insert_run-Extends, insert_manifest-Extends, insert_budget-Extends}
use guildmind.Store.Isolation.{ledger_rules}
use guildmind.Store.Lifecycle.{
  create_rows, create_run, start_rows, start_run, artifact_rows, record_artifact, request_rows,
  start_model_request, response_rows, complete_model_response,
}
use guildmind.Store.Terminal.{
  Guard, conclude, append_artifact, evaluation_rows, check_roles, complete_evaluation_with_events,
  report_terminal, compare_snapshot, settle_request, interrupt, recovery_rows, check_request,
  recover_run_with_events, exhaust, exhaustion_rows, complete_budget_exhaustion_with_events,
}
use guildmind.Store.Operation.{
  Operation, create, begin, record_task, request, respond, evaluate, recover, refuse, subject,
  perform,
}

module _ {F : Type 0} ⦃fl : Float F⦄ ⦃cn : Canonical F⦄ (w : Wire F) (h : Handle) where
  create_run-Extends : (m : RunManifest F) → Respects (Extends m.run_id) (create_run w h m)
  unfolding create_run create_rows
  create_run-Extends m =
      search (ledger_rules, insert_run-Extends, insert_manifest-Extends, insert_budget-Extends)
        depth 24 fits 8000

  start_run-Extends :
      (id : String) (t : ℕ) (model : String) → Respects (Extends id) (start_run w h id t model)
  unfolding start_run start_rows
  start_run-Extends id t model = search (ledger_rules) depth 24 fits 8000

  request-Extends :
      (id request_id : String) (maximum used reserved : BudgetUsage F)
      → Respects (Extends id) (start_model_request w h id request_id maximum used reserved)
  unfolding start_model_request request_rows
  request-Extends id request_id maximum used reserved = search (ledger_rules) depth 24 fits 8000

  record_artifact-Extends :
      (id name : String) (a : ArtifactRef) → Respects (Extends id) (record_artifact w h id name a)
  unfolding record_artifact artifact_rows
  record_artifact-Extends id name a = search (ledger_rules) depth 24 fits 8000

  response-Extends :
      (id request_id model : String) (actual : BudgetUsage F) (patch : ArtifactRef)
      (used reserved : BudgetUsage F)
      → Respects
          (Extends id)
          (complete_model_response w h id request_id model actual patch used reserved)
  unfolding complete_model_response response_rows
  response-Extends id request_id model actual patch used reserved =
      search (ledger_rules) depth 40 fits 20000

  conclude-Extends :
      (id : String) (final : RunManifest F) (used reserved : BudgetUsage F)
      → Respects (Extends id) (conclude w h id final used reserved)
  unfolding conclude
  conclude-Extends id final used reserved = search (ledger_rules) depth 24 fits 8000

  append_artifact-Extends :
      (id : String) (files : Dict ArtifactRef) (name : String)
      → Respects (Extends id) (append_artifact w h id files name)
  unfolding append_artifact
  append_artifact-Extends id files name = search (ledger_rules) depth 24 fits 8000

  evaluation-Extends :
      (id : String) (files : Dict ArtifactRef) (payload : Fields F) (status : RunStatus) (t : ℕ)
      (reason : Option String) (used reserved : BudgetUsage F)
      → Respects
          (Extends id)
          (complete_evaluation_with_events w h id files payload status t reason used reserved)
  unfolding complete_evaluation_with_events check_roles evaluation_rows
  evaluation-Extends id files payload status t reason used reserved =
      search (ledger_rules, conclude-Extends, append_artifact-Extends) depth 40 fits 20000

  report_terminal-Extends :
      (id : String) (m : RunManifest F) → Respects (Extends id) (report_terminal w h id m)
  unfolding report_terminal
  report_terminal-Extends id m = search (ledger_rules) depth 24 fits 8000

  compare_snapshot-Extends :
      (id : String) (expected : Option String) (guard : Guard F)
      → Respects (Extends id) (compare_snapshot w h expected guard)
  compare_snapshot-Extends id none guard = search (ledger_rules)
  compare_snapshot-Extends id (some expected) guard = search (ledger_rules) depth 24 fits 8000

  settle_request-Extends :
      (id : String) (state : ReplayState F) (reason : String) (used reserved : BudgetUsage F)
      → Respects (Extends id) (settle_request w h id state reason used reserved)
  unfolding settle_request
  settle_request-Extends id state reason used reserved =
      Respects-if (Extends id) (same_request_state state.model_request_state started) _ _
        (search (ledger_rules) depth 24 fits 8000) (search (ledger_rules) depth 24 fits 8000)

  interrupt-Extends :
      (id : String) (m : RunManifest F) (state : ReplayState F) (t : ℕ) (reason : String)
      → Respects (Extends id) (interrupt w h id m state t reason)
  unfolding interrupt
  interrupt-Extends id m state t reason =
      search (ledger_rules, settle_request-Extends, conclude-Extends) depth 40 fits 20000

  exhaust-Extends :
      (id : String) (m : RunManifest F) (state : ReplayState F) (t : ℕ) (reason : String)
      → Respects (Extends id) (exhaust w h id m state t reason)
  unfolding exhaust
  exhaust-Extends id m state t reason = search (ledger_rules, conclude-Extends) depth 40 fits 20000

  recovery-Extends :
      (id : String) (t : ℕ) (reason : String) (expected : Option String) (guard : Guard F)
      → Respects (Extends id) (recover_run_with_events w h id t reason expected guard)
  unfolding recover_run_with_events recovery_rows check_request
  recovery-Extends id t reason expected guard =
      search (ledger_rules, compare_snapshot-Extends, report_terminal-Extends, interrupt-Extends)
        depth 40 fits 20000

  exhaustion-Extends :
      (id : String) (t : ℕ) (reason : String) (expected : Option String) (guard : Guard F)
      → Respects
          (Extends id)
          (complete_budget_exhaustion_with_events w h id t reason expected guard)
  unfolding complete_budget_exhaustion_with_events exhaustion_rows check_request
  exhaustion-Extends id t reason expected guard =
      search (ledger_rules, compare_snapshot-Extends, report_terminal-Extends, exhaust-Extends)
        depth 40 fits 20000

  pub perform-Extends : (op : Operation F) → Respects (Extends (subject op)) (perform w h op)
  unfolding perform
  perform-Extends (create m) = search (ledger_rules, create_run-Extends)
  perform-Extends (begin id t model) = search (ledger_rules, start_run-Extends)
  perform-Extends (record_task id name a) = search (ledger_rules, record_artifact-Extends)
  perform-Extends (request id r m u v) = search (ledger_rules, request-Extends)
  perform-Extends (respond id r model a p u v) = search (ledger_rules, response-Extends)
  perform-Extends (evaluate id files p s t r u v) = search (ledger_rules, evaluation-Extends)
  perform-Extends (recover id t r e g) = search (ledger_rules, recovery-Extends)
  perform-Extends (refuse id t r e g) = search (ledger_rules, exhaustion-Extends)
