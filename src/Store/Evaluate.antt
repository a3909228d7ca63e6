-- ===== src/Store/Evaluate.antt =====
-- `perform` opened down to its helpers, for evaluation on concrete ledgers.
use guildmind.Common.{Result}
use guildmind.Domain.Float.{Float}
use guildmind.Domain.Event.{Canonical, validate_event}
use guildmind.Domain.Limits.{exceeded_limits}
use guildmind.Domain.Manifest.{validate_manifest}
use guildmind.Replay.Evaluate.{evaluate}
use guildmind.Store.Exec.{pure, raise, lift, reads, writes, check, for_each, ◌>>=◌}
use guildmind.Store.Tables.{
  Ledger, run_row, budget_row, manifest_row, manifest_rows, event_rows, insert_run, insert_manifest,
  insert_event, insert_budget, update_run, update_budget, tick,
}
use guildmind.Store.Wire.{Wire}
use guildmind.Store.Manifests.{
  check_kept, check_status_change, same_limits, same_fixed, same_manifest, check_rebound,
  validate_manifest_transition, artifact_payload, manifest_creation_payload,
}
use guildmind.Store.Read.{
  require_run, load_manifest_locked, history_from, validate_manifest_history_locked,
  load_budget_locked, events_from, list_events_locked, check_indices, validated_state_locked,
  validate_terminal_state_locked, validate_budget_update_locked, verified_root, roots_of,
  verified_roots_locked, verified_run_roots_sha256,
}
use guildmind.Store.Write.{
  Handle, take_stamp, next_event, event_row, append_locked, append_budget_snapshot_locked,
  save_manifest_locked, update_budget_locked, validate_full_ledger_locked, entry_checks, exit_roots,
  transaction,
}
use guildmind.Store.Lifecycle.{
  create_rows, create_run, start_rows, start_run, artifact_rows, record_artifact, request_rows,
  start_model_request, response_rows, complete_model_response,
}
use guildmind.Store.Terminal.{
  check_roles, append_artifact, conclude, evaluation_rows, complete_evaluation_with_events,
  check_request, report_terminal, settle_request, interrupt, recovery_rows, recover_run_with_events,
  exhaust, exhaustion_rows, complete_budget_exhaustion_with_events,
}
use guildmind.Store.Operation.{Operation, perform}

unfoldable pub run_call :
    {F : Type 0} ⦃fl : Float F⦄ ⦃cn : Canonical F⦄
    → Wire F
    → Handle
    → Operation F
    → Ledger
    → Result (Unit {0} × Ledger)
unfolding evaluate validate_event exceeded_limits validate_manifest pure raise lift reads writes
    check for_each ◌>>=◌ run_row budget_row manifest_row manifest_rows event_rows insert_run
    insert_manifest insert_event insert_budget update_run update_budget tick check_kept
    check_status_change same_limits same_fixed same_manifest check_rebound
    validate_manifest_transition artifact_payload manifest_creation_payload require_run
    load_manifest_locked history_from validate_manifest_history_locked load_budget_locked
    events_from list_events_locked check_indices validated_state_locked
    validate_terminal_state_locked validate_budget_update_locked verified_root roots_of
    verified_roots_locked verified_run_roots_sha256 take_stamp next_event event_row append_locked
    append_budget_snapshot_locked save_manifest_locked update_budget_locked
    validate_full_ledger_locked entry_checks exit_roots transaction create_rows create_run
    start_rows start_run artifact_rows record_artifact request_rows start_model_request
    response_rows complete_model_response check_roles append_artifact conclude evaluation_rows
    complete_evaluation_with_events check_request report_terminal settle_request interrupt
    recovery_rows recover_run_with_events exhaust exhaustion_rows
    complete_budget_exhaustion_with_events perform
run_call w h op l = perform w h op l
