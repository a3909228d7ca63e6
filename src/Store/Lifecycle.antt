-- ===== src/Store/Lifecycle.antt =====
-- events.py: `create_run`, `start_run`, `record_artifact`, `start_model_request` and
-- `complete_model_response`.
use guildmind.Common.{
  ℕ, String, List, [], ◌∷◌, Bool, true, false, not, ◌&&◌, some, eqb, ◌==◌, has_key, insert, Error,
  or_raise,
}
use guildmind.Domain.Float.{Float}
use guildmind.Domain.Json.{text, object, end, field}
use guildmind.Domain.Usage.{
  BudgetUsage, no_usage, same_usage, usage_at_most, add_usage, subtract_usage,
}
use guildmind.Domain.Limits.{exceeded_limits}
use guildmind.Domain.Status.{pending, running, same_status, value}
use guildmind.Domain.Event.{ArtifactRef, EventRecord, Canonical}
use guildmind.Domain.Manifest.{RunManifest, validate_manifest}
use guildmind.Replay.State.{not_started, started, same_request_state}
use guildmind.Store.Exec.{Exec, pure, lift, reads, writes, check, ◌>>=◌, ◌>>◌}
use guildmind.Store.Tables.{Ledger, insert_run, insert_manifest, insert_budget}
use guildmind.Store.Wire.{Wire}
use guildmind.Store.Manifests.{integrity, same_text, artifact_payload, manifest_creation_payload}
use guildmind.Store.Read.{
  load_manifest_locked, load_budget_locked, validated_state_locked, manifest_hash,
}
use guildmind.Store.Write.{
  Handle, append_locked, append_budget_snapshot_locked, save_manifest_locked, update_budget_locked,
  transaction, no_guard,
}

-- `not exceeded`
abbrev pub is_nil : {A : Type 0} → List A → Bool
is_nil [] = true
is_nil (x ∷ xs) = false

module _ {F : Type 0} ⦃fl : Float F⦄ ⦃cn : Canonical F⦄ (w : Wire F) (h : Handle) where
  -- The body of the transaction of `create_run`.
  unfoldable pub create_rows : RunManifest F → Exec Ledger (EventRecord F)
  create_rows m = do
    writes (
        insert_run (record {
          run_id = m.run_id;
          status = value m.status;
          manifest_revision = 0;
          manifest_json = w.manifest_json m;
          manifest_sha256 = manifest_hash w m;
        }))
    writes (
        insert_manifest (record {
          run_id = m.run_id;
          revision = 0;
          manifest_json = w.manifest_json m;
          manifest_sha256 = manifest_hash w m;
        }))
    writes (
        insert_budget (record {
          run_id = m.run_id;
          limits_json = w.limits_json m.budget_limits;
          used_json = w.usage_json no_usage;
          reserved_json = w.usage_json no_usage;
        }))
    append_locked w m.run_id "run.created" (manifest_creation_payload w.limits_payload m)

  unfoldable pub create_run : RunManifest F → Exec Ledger (EventRecord F)
  create_run m = do
    check (same_status m.status pending) (Error.value_error "new run manifests must be pending")
    transaction w h no_guard (create_rows m)

  -- The body of the transaction of `start_run`.
  unfoldable pub start_rows : String → ℕ → String → Exec Ledger (RunManifest F)
  start_rows id started_at requested_model = do
    current ← reads (load_manifest_locked w id)
    check (same_status current.status pending) (integrity "run start requires a pending manifest")
    check (requested_model == current.requested_model)
        (integrity "run start model disagrees with the manifest")
    next ←
        lift (validate_manifest (record current { status = running; started_at = some started_at }))
    event ← append_locked w id "run.started" (field "requested_model" (text requested_model) end)
    save_manifest_locked w id next
    pure next

  unfoldable pub start_run : String → ℕ → String → Exec Ledger (RunManifest F)
  start_run id started_at requested_model =
      transaction w h no_guard (start_rows id started_at requested_model)

  -- The body of the transaction of `record_artifact`.
  unfoldable pub artifact_rows : String → String → ArtifactRef → Exec Ledger (EventRecord F)
  artifact_rows id name artifact = do
    current ← reads (load_manifest_locked w id)
    state ← reads (validated_state_locked w id current)
    check
        (same_status current.status running
          && same_request_state state.model_request_state not_started)
        (integrity "task_spec must be bound before model work starts")
    check (not (has_key name current.artifacts)) (integrity "artifact name is already bound")
    updated ←
        lift (
          validate_manifest (record current { artifacts = insert name artifact current.artifacts }))
    event ← append_locked w id "artifact.recorded" (artifact_payload name artifact)
    save_manifest_locked w id updated
    pure event

  unfoldable pub record_artifact : String → String → ArtifactRef → Exec Ledger (EventRecord F)
  record_artifact id name artifact = do
    check (name == "task_spec")
        (Error.value_error "record_artifact may only bind the initial task_spec")
    transaction w h no_guard (artifact_rows id name artifact)

  -- The body of the transaction of `start_model_request`.
  unfoldable pub request_rows :
      String
      → String
      → BudgetUsage F
      → BudgetUsage F
      → BudgetUsage F
      → Exec Ledger (EventRecord F × EventRecord F)
  request_rows id request_id maximum used reserved = do
    manifest ← reads (load_manifest_locked w id)
    check (same_status manifest.status running)
        (integrity "model requests require a running manifest")
    (used_before, reserved_before) ← reads (load_budget_locked w id)
    check (same_usage used used_before) (integrity "request reservation changed used budget")
    expected ← lift (add_usage reserved_before maximum)
    check (same_usage reserved expected)
        (integrity "request reservation does not match its maximum")
    projected ← lift (add_usage used reserved)
    check (is_nil (exceeded_limits projected manifest.budget_limits))
        (integrity "request reservation exceeds budget")
    request ← append_locked w id "model.request_started" (
        field "maximum" (object (w.usage_payload maximum))
          (field "request_id" (text request_id) end))
    snapshot ← append_budget_snapshot_locked w id used reserved
    update_budget_locked w id used reserved
    pure (request, snapshot)

  unfoldable pub start_model_request :
      String
      → String
      → BudgetUsage F
      → BudgetUsage F
      → BudgetUsage F
      → Exec Ledger (EventRecord F × EventRecord F)
  start_model_request id request_id maximum used reserved = do
    check (not (request_id == "")) (Error.value_error "request_id cannot be empty")
    check (eqb maximum.model_calls 1)
        (integrity "one model request must reserve exactly one model call")
    transaction w h no_guard (request_rows id request_id maximum used reserved)

  -- The body of the transaction of `complete_model_response`.
  unfoldable pub response_rows :
      String
      → String
      → String
      → BudgetUsage F
      → ArtifactRef
      → BudgetUsage F
      → BudgetUsage F
      → Exec Ledger (RunManifest F)
  response_rows id request_id returned_model actual patch used reserved = do
    current ← reads (load_manifest_locked w id)
    state ← reads (validated_state_locked w id current)
    check
        (same_request_state state.model_request_state started
          && same_text state.model_request_id (some request_id))
        (integrity "model response has no matching outstanding request")
    maximum ← lift (
        or_raise state.model_request_maximum
          (integrity "actual model usage exceeds its reservation"))
    check (usage_at_most actual maximum) (integrity "actual model usage exceeds its reservation")
    check (eqb actual.model_calls 1)
        (integrity "one model response must report exactly one model call")
    (used_before, reserved_before) ← reads (load_budget_locked w id)
    expected_used ← lift (add_usage used_before actual)
    expected_reserved ← lift (subtract_usage integrity reserved_before maximum)
    check (same_usage used expected_used && same_usage reserved expected_reserved)
        (integrity "model response budget reconciliation is inconsistent")
    check (not (has_key "patch" current.artifacts))
        (integrity "artifact name is already bound: patch")
    updated ← lift (
        validate_manifest (record current {
          returned_model = some returned_model;
          artifacts = insert "patch" patch current.artifacts;
        }))
    response ← append_locked w id "model.response_completed" (
        field "actual" (object (w.usage_payload actual))
          (field "request_id" (text request_id) (field "returned_model" (text returned_model) end)))
    snapshot ← append_budget_snapshot_locked w id used reserved
    recorded ← append_locked w id "artifact.recorded" (artifact_payload "patch" patch)
    save_manifest_locked w id updated
    update_budget_locked w id used reserved
    pure updated

  unfoldable pub complete_model_response :
      String
      → String
      → String
      → BudgetUsage F
      → ArtifactRef
      → BudgetUsage F
      → BudgetUsage F
      → Exec Ledger (RunManifest F)
  complete_model_response id request_id returned_model actual patch used reserved =
      transaction w h no_guard
        (response_rows id request_id returned_model actual patch used reserved)
