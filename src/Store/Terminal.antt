-- ===== src/Store/Terminal.antt =====
-- events.py: the methods that end a run: `complete_evaluation_with_events`,
-- `recover_run_with_events`, `complete_budget_exhaustion_with_events`.
use guildmind.Common.{
  ℕ, String, List, [], ◌∷◌, ◌++◌, Bool, true, false, not, ◌||◌, Option, none, some, Dict, ◌==◌,
  if◌then◌else◌, leb, has_key, keys, difference, insert, is_subset, is_some, all, Error, Result, ok,
  or_raise, has_text, is_lower_sha256, lookup,
}
use guildmind.Domain.Float.{Float}
use guildmind.Domain.Json.{null, boolean, text, Json, Fields, end, field, get}
use guildmind.Domain.Usage.{BudgetUsage, no_usage, same_usage, add_usage}
use guildmind.Domain.Status.{
  RunStatus, running, infrastructure_error, budget_exhausted, is_terminal, same_status, value,
  terminal_status_matches_outcome,
}
use guildmind.Domain.Event.{ArtifactRef, EventRecord, Canonical}
use guildmind.Domain.Manifest.{RunManifest, validate_manifest}
use guildmind.Replay.State.{
  ReplayState, not_started, started, completed, same_request_state, expected_artifact_names,
  optional_evaluation_artifact_names,
}
use guildmind.Replay.Payload.{json_text}
use guildmind.Store.Exec.{Exec, pure, lift, reads, check, for_each, ◌>>=◌, ◌>>◌}
use guildmind.Store.Tables.{Ledger, order_by, select}
use guildmind.Store.Wire.{Wire}
use guildmind.Store.Manifests.{integrity, artifact_payload, text_or_null}
use guildmind.Store.Read.{
  VerifiedRunRoot, load_manifest_locked, load_budget_locked, list_events_locked,
  validated_state_locked, validate_terminal_state_locked, validate_budget_update_locked,
  verified_roots_locked, verified_run_roots_sha256,
}
use guildmind.Store.Write.{
  Handle, append_locked, append_budget_snapshot_locked, save_manifest_locked, update_budget_locked,
  validate_full_ledger_locked, transaction, no_guard,
}

-- `EventStoreTerminalResult`
pub record EventStoreTerminalResult (F : Type 0) : Type 0 where
  pub manifest : RunManifest F
  pub events : List (EventRecord F)

abbrev pub Guard : Type 0 → Type 0
Guard F = Option (List (VerifiedRunRoot F) → Result (Unit {0}))

abbrev required_evaluation : List String
required_evaluation = "evaluation" ∷ "evaluation_stderr" ∷ "evaluation_stdout" ∷ []

abbrev preferred_order : List String
preferred_order =
    "evaluation_stdout" ∷ "evaluation_stderr" ∷ "evaluation_candidate_stdout"
    ∷ "evaluation_scorer_stdout" ∷ "evaluation" ∷ []

-- `a.update(b)`
abbrev pub update : {A : Type 0} → Dict A → Dict A → Dict A
update a [] = a
update a ((k, v) ∷ b) = update (insert k v a) b

-- `not any(name in taken for name in names)`
abbrev pub none_bound : List String → Dict ArtifactRef → Bool
none_bound names taken = all (λ name. not (has_key name taken)) names

-- `max(finished_at, started_at or created_at)`
abbrev pub safe_finish : ℕ → Option ℕ → ℕ → ℕ
safe_finish finished_at (some started_at) created_at =
    if leb started_at finished_at then finished_at else started_at
safe_finish finished_at none created_at =
    if leb created_at finished_at then finished_at else created_at

abbrev is_outcome : RunStatus → Option String → Bool
is_outcome status none = false
is_outcome status (some outcome) = terminal_status_matches_outcome status (some outcome)

abbrev or_null : {F : Type 0} → Option (Json F) → Json F
or_null none = null
or_null (some j) = j

abbrev run_guard : {F : Type 0} → Guard F → List (VerifiedRunRoot F) → Result (Unit {0})
run_guard none roots = ok tt
run_guard (some guard) roots = guard roots

-- `sorted(EXPECTED_ARTIFACT_NAMES - set(state.artifacts))`, without the names already absent; the
-- list of the expected names is in order.
abbrev pub unaccounted : {F : Type 0} → ReplayState F → List String
unaccounted state =
    difference (difference expected_artifact_names (keys state.artifacts))
      (keys state.absent_artifacts)

module _ {F : Type 0} ⦃fl : Float F⦄ ⦃cn : Canonical F⦄ (w : Wire F) (h : Handle) where
  -- The refusals of `complete_evaluation_with_events` before its transaction.
  unfoldable pub check_roles : RunStatus → Dict ArtifactRef → Exec Ledger (Unit {0})
  check_roles status artifacts = do
    check (is_terminal status)
        (Error.value_error "evaluation completion requires a terminal status")
    check (is_subset required_evaluation (keys artifacts))
        (Error.value_error "evaluation artifacts are missing")
    check (is_subset (keys artifacts) (required_evaluation ++ optional_evaluation_artifact_names))
        (Error.value_error "evaluation artifacts have unknown roles")
    check
        (not (has_key "evaluation_scorer_stdout" artifacts)
          || has_key "evaluation_candidate_stdout" artifacts)
        (Error.value_error "a scorer transcript requires a candidate transcript")

  abbrev ordered_names : Dict ArtifactRef → List String
  ordered_names artifacts =
      let preferred = select (λ name. has_key name artifacts) preferred_order in
      preferred ++ order_by w.before (difference (keys artifacts) preferred)

  -- `self._append_locked(…, payload=_artifact_payload(name, artifacts[name]))`
  unfoldable pub append_artifact : String → Dict ArtifactRef → String → Exec Ledger (Unit {0})
  append_artifact id artifacts name = do
    artifact ← lift (or_raise (lookup name artifacts) (Error.key_error name))
    event ← append_locked w id "artifact.recorded" (artifact_payload name artifact)
    pure tt

  -- What each method does last: the manifest, the budget, the terminal checks and the result.
  unfoldable pub conclude :
      String
      → RunManifest F
      → BudgetUsage F
      → BudgetUsage F
      → Exec Ledger (EventStoreTerminalResult F)
  conclude id final used reserved = do
    save_manifest_locked w id final
    update_budget_locked w id used reserved
    reads (validate_terminal_state_locked w id final)
    events ← reads (list_events_locked w id)
    pure (record { manifest = final; events = events })

  unfoldable pub evaluation_rows :
      String
      → Dict ArtifactRef
      → Fields F
      → RunStatus
      → ℕ
      → Option String
      → BudgetUsage F
      → BudgetUsage F
      → Exec Ledger (EventStoreTerminalResult F)
  evaluation_rows id artifacts payload status finished_at reason used reserved = do
    current ← reads (load_manifest_locked w id)
    state ← reads (validated_state_locked w id current)
    check (same_status current.status running)
        (integrity "evaluation completion requires a running manifest")
    check (same_request_state state.model_request_state completed)
        (integrity "evaluation completion requires a model response")
    check (is_outcome status (json_text (get "outcome" payload)))
        (integrity "evaluation outcome disagrees with terminal status")
    reads (validate_budget_update_locked w id used reserved)
    check (same_usage reserved no_usage) (integrity "terminal runs cannot retain reservations")
    check (none_bound (keys artifacts) current.artifacts)
        (integrity "artifact name is already bound")
    final ← lift (
        validate_manifest (record current {
          status = status;
          finished_at = some finished_at;
          terminal_reason = reason;
          artifacts = update current.artifacts artifacts;
        }))
    for_each (append_artifact id artifacts) (ordered_names artifacts)
    evaluation ← append_locked w id "evaluation.completed" payload
    snapshot ← append_budget_snapshot_locked w id used reserved
    terminal ← append_locked w id "run.terminal" (
        field "evaluation_outcome" (or_null (get "outcome" payload)) (
          field "status" (text (value status)) (field "terminal_reason" (text_or_null reason) end)))
    conclude id final used reserved

  unfoldable pub complete_evaluation_with_events :
      String
      → Dict ArtifactRef
      → Fields F
      → RunStatus
      → ℕ
      → Option String
      → BudgetUsage F
      → BudgetUsage F
      → Exec Ledger (EventStoreTerminalResult F)
  complete_evaluation_with_events id artifacts payload status finished_at reason used reserved = do
    check_roles status artifacts
    transaction w h no_guard
        (evaluation_rows id artifacts payload status finished_at reason used reserved)

  -- The refusals of the two other methods before their transaction.
  unfoldable pub check_request : String → Option String → Guard F → Exec Ledger (Unit {0})
  check_request reason expected guard = do
    check (has_text reason) (Error.value_error "terminal_reason cannot be empty")
    check (is_digest expected)
        (Error.value_error "expected_snapshot_sha256 must be a lowercase SHA-256")
    check (not (is_some guard) || is_some expected)
        (Error.value_error "integrity_guard requires expected_snapshot_sha256")
    where
      is_digest : Option String → Bool
      is_digest none = true
      is_digest (some s) = is_lower_sha256 s

  -- `observed_snapshot_sha256 != expected_snapshot_sha256` and the first call of the guard
  abbrev pub compare_snapshot : Option String → Guard F → Exec Ledger (Unit {0})
  compare_snapshot none guard = pure tt
  compare_snapshot (some expected) guard = do
    roots ← reads (verified_roots_locked w)
    observed ← lift (verified_run_roots_sha256 w roots)
    check (observed == expected) (integrity "verified run root snapshot changed")
    lift (run_guard guard roots)

  abbrev append_absence : String → String → String → Exec Ledger (Unit {0})
  append_absence id reason name = do
    event ←
        append_locked w id "artifact.not_produced"
          (field "name" (text name) (field "reason" (text reason) end))
    pure tt

  -- `if current.status.is_terminal: …`
  unfoldable pub report_terminal : String → RunManifest F → Exec Ledger (EventStoreTerminalResult F)
  report_terminal id current = do
    reads (validate_terminal_state_locked w id current)
    events ← reads (list_events_locked w id)
    pure (record { manifest = current; events = events })

  -- The branches on the outstanding request; they return the used and the reserved budget and the
  -- terminal reason.
  unfoldable pub settle_request :
      String
      → ReplayState F
      → String
      → BudgetUsage F
      → BudgetUsage F
      → Exec Ledger (BudgetUsage F × BudgetUsage F × String)
  settle_request id state reason used reserved =
      if same_request_state state.model_request_state started
      then (do
        request_id ←
            lift (or_raise state.model_request_id (integrity "outstanding model request has no ID"))
        event ←
            append_locked w id "model.request_ambiguous" (field "request_id" (text request_id) end)
        charged ← lift (add_usage used reserved)
        pure (charged, no_usage, "ambiguous_model_request"))
      else (do
        check (same_usage reserved no_usage)
            (integrity "run has a reservation without outstanding work")
        pure (used, reserved, reason))

  -- What `recover_run_with_events` does to a run that has not ended.
  unfoldable pub interrupt :
      String → RunManifest F → ReplayState F → ℕ → String → Exec Ledger (EventStoreTerminalResult F)
  interrupt id current state finished_at terminal_reason = do
    for_each (append_absence id "interrupted") (unaccounted state)
    (used_before, reserved_before) ← reads (load_budget_locked w id)
    (used, reserved, reason) ← settle_request id state terminal_reason used_before reserved_before
    snapshot ← append_budget_snapshot_locked w id used reserved
    final ← lift (
        validate_manifest (record current {
          status = infrastructure_error;
          finished_at = some (safe_finish finished_at current.started_at current.created_at);
          terminal_reason = some reason;
        }))
    terminal ← append_locked w id "run.terminal" (
        field "recovered" (boolean true) (
          field "status" (text (value infrastructure_error))
            (field "terminal_reason" (text reason) end)))
    result ← conclude id final used reserved
    roots ← reads (validate_full_ledger_locked w)
    pure result

  unfoldable pub recovery_rows :
      String → ℕ → String → Option String → Guard F → Exec Ledger (EventStoreTerminalResult F)
  recovery_rows id finished_at reason expected guard = do
    reads w.inspect_schema
    compare_snapshot expected guard
    current ← reads (load_manifest_locked w id)
    state ← reads (validated_state_locked w id current)
    if is_terminal current.status
        then report_terminal id current
        else interrupt id current state finished_at reason

  unfoldable pub recover_run_with_events :
      String → ℕ → String → Option String → Guard F → Exec Ledger (EventStoreTerminalResult F)
  recover_run_with_events id finished_at reason expected guard = do
    check_request reason expected guard
    transaction w h (run_guard guard) (recovery_rows id finished_at reason expected guard)

  -- What `complete_budget_exhaustion_with_events` does to a run that has not ended.
  unfoldable pub exhaust :
      String → RunManifest F → ReplayState F → ℕ → String → Exec Ledger (EventStoreTerminalResult F)
  exhaust id current state finished_at reason = do
    check (same_request_state state.model_request_state not_started)
        (integrity "budget refusal terminalization must precede dispatch")
    (used, reserved) ← reads (load_budget_locked w id)
    check (same_usage reserved no_usage) (integrity "budget refusal cannot retain a reservation")
    for_each (append_absence id "budget_exhausted") (unaccounted state)
    snapshot ← append_budget_snapshot_locked w id used reserved
    final ← lift (
        validate_manifest (record current {
          status = budget_exhausted;
          finished_at = some (safe_finish finished_at current.started_at current.created_at);
          terminal_reason = some reason;
        }))
    terminal ←
        append_locked w id "run.terminal" (
          field "status" (text (value budget_exhausted))
            (field "terminal_reason" (text reason) end))
    conclude id final used reserved

  unfoldable pub exhaustion_rows :
      String → ℕ → String → Option String → Guard F → Exec Ledger (EventStoreTerminalResult F)
  exhaustion_rows id finished_at reason expected guard = do
    reads w.inspect_schema
    compare_snapshot expected guard
    current ← reads (load_manifest_locked w id)
    state ← reads (validated_state_locked w id current)
    if is_terminal current.status
        then report_terminal id current
        else exhaust id current state finished_at reason

  unfoldable pub complete_budget_exhaustion_with_events :
      String → ℕ → String → Option String → Guard F → Exec Ledger (EventStoreTerminalResult F)
  complete_budget_exhaustion_with_events id finished_at reason expected guard = do
    check_request reason expected guard
    transaction w h (run_guard guard) (exhaustion_rows id finished_at reason expected guard)
