-- ===== src/Store/Manifests.antt =====
-- events.py: equality of manifests, `_validate_manifest_transition`, `_artifact_payload` and
-- `_manifest_creation_payload`.
use guildmind.Common.{
  ℕ, String, [], ◌∷◌, ◌++◌, Bool, true, false, not, ◌&&◌, ◌||◌, Option, none, some, Dict, lookup,
  keys, all, is_some, eqb, ◌==◌, Error, Result, ok, err, require, ◌>>◌,
}
use guildmind.Domain.Float.{Float}
use guildmind.Domain.Json.{pos, Json, null, integer, text, object, Fields, end, field}
use guildmind.Domain.Limits.{BudgetLimits}
use guildmind.Domain.Status.{
  RunStatus, pending, running, succeeded, is_terminal, same_status, value,
}
use guildmind.Domain.Event.{ArtifactRef}
use guildmind.Domain.Manifest.{RunManifest}
use guildmind.Store.Wire.{Wire}

abbrev pub integrity : String → Error
integrity message = Error.store_integrity message

-- `a == b` where either may be `None`
abbrev pub same_option : {A : Type 0} → (A → A → Bool) → Option A → Option A → Bool
same_option same none none = true
same_option same (some a) (some b) = same a b
same_option same _ _ = false

abbrev pub same_text : Option String → Option String → Bool
same_text a b = same_option (λ x y. x == y) a b

abbrev pub same_nat : Option ℕ → Option ℕ → Bool
same_nat a b = same_option eqb a b

-- `==` of dictionaries, where the order of insertion does not count
abbrev pub same_dict : {A : Type 0} → (A → A → Bool) → Dict A → Dict A → Bool
same_dict same a b = all (λ k. same_option same (lookup k a) (lookup k b)) (keys a ++ keys b)

abbrev pub same_artifact : ArtifactRef → ArtifactRef → Bool
same_artifact a b =
    a.media_type == b.media_type
    && eqb a.size_bytes b.size_bytes
    && a.sha256 == b.sha256
    && a.storage_ref == b.storage_ref

-- `for name, reference in current.artifacts.items(): …`
unfoldable pub check_kept : Dict ArtifactRef → Dict ArtifactRef → Result (Unit {0})
check_kept [] proposed = ok tt
check_kept ((name, reference) ∷ rest) proposed = do
  require (same_option same_artifact (lookup name proposed) (some reference))
      (integrity "manifest artifact cannot be removed or rebound")
  check_kept rest proposed

-- The branches on the status; a terminal manifest has been refused before.
unfoldable pub check_status_change : RunStatus → RunStatus → Result (Unit {0})
check_status_change pending proposed =
    require (not (same_status proposed succeeded))
      (integrity "pending manifests cannot succeed without running")
check_status_change running proposed =
    require (not (same_status proposed pending))
      (integrity "running manifests cannot return to pending")
check_status_change _ proposed = err (integrity "unsupported manifest state")

module _ {F : Type 0} ⦃fl : Float F⦄ where
  unfoldable pub same_limits : BudgetLimits F → BudgetLimits F → Bool
  same_limits a b =
      same_nat a.max_input_tokens b.max_input_tokens
      && same_nat a.max_output_tokens b.max_output_tokens
      && same_nat a.max_total_tokens b.max_total_tokens
      && same_nat a.max_model_calls b.max_model_calls
      && same_nat a.max_model_retries b.max_model_retries
      && same_nat a.max_tool_calls b.max_tool_calls
      && same_option fl.eq a.max_tool_cpu_seconds b.max_tool_cpu_seconds
      && same_option fl.eq a.max_container_wall_seconds b.max_container_wall_seconds
      && same_option fl.eq a.max_elapsed_seconds b.max_elapsed_seconds
      && same_option fl.eq a.max_estimated_cost_usd b.max_estimated_cost_usd

  -- `model_dump(exclude=_MANIFEST_MUTABLE_FIELDS)` of both, compared
  unfoldable pub same_fixed : Wire F → RunManifest F → RunManifest F → Bool
  same_fixed w a b =
      a.run_id == b.run_id
      && a.experiment_id == b.experiment_id
      && a.task_id == b.task_id
      && a.candidate_id == b.candidate_id
      && same_text a.genome_hash b.genome_hash
      && a.requested_model == b.requested_model
      && w.same_json a.model_parameters b.model_parameters
      && eqb a.seed b.seed
      && a.environment_digest == b.environment_digest
      && a.code_revision == b.code_revision
      && same_limits a.budget_limits b.budget_limits
      && eqb a.created_at b.created_at

  unfoldable pub same_manifest : Wire F → RunManifest F → RunManifest F → Bool
  same_manifest w a b =
      same_fixed w a b
      && same_text a.returned_model b.returned_model
      && same_status a.status b.status
      && same_nat a.started_at b.started_at
      && same_nat a.finished_at b.finished_at
      && same_text a.terminal_reason b.terminal_reason
      && same_dict same_artifact a.artifacts b.artifacts

  -- What has been written once is not written again.
  unfoldable pub check_rebound : RunManifest F → RunManifest F → Result (Unit {0})
  check_rebound current proposed = do
    require (not (is_some current.started_at) || same_nat proposed.started_at current.started_at)
        (integrity "manifest start timestamp cannot change")
    require
        (not (is_some current.returned_model)
          || same_text proposed.returned_model current.returned_model)
        (integrity "returned model cannot be rebound")
    check_kept current.artifacts proposed.artifacts

  unfoldable pub validate_manifest_transition :
      Wire F → RunManifest F → RunManifest F → Result (Unit {0})
  validate_manifest_transition w current proposed = do
    require (current.run_id == proposed.run_id) (Error.value_error "manifest run ID cannot change")
    require (same_fixed w current proposed) (integrity "immutable manifest identity changed")
    require (not (is_terminal current.status)) (integrity "terminal manifests cannot transition")
    check_status_change current.status proposed.status
    check_rebound current proposed

  unfoldable pub artifact_payload : String → ArtifactRef → Fields F
  artifact_payload name artifact = field "media_type" (text artifact.media_type) (
      field "name" (text name) (
        field "sha256" (text artifact.sha256) (
          field "size_bytes" (integer (pos artifact.size_bytes))
            (field "storage_ref" (text artifact.storage_ref) end))))

  abbrev pub text_or_null : Option String → Json F
  text_or_null none = null
  text_or_null (some s) = text s

  unfoldable pub manifest_creation_payload : (BudgetLimits F → Fields F) → RunManifest F → Fields F
  manifest_creation_payload limits_payload m =
      field "budget_limits" (object (limits_payload m.budget_limits)) (
        field "candidate_id" (text m.candidate_id) (
          field "code_revision" (text m.code_revision) (
            field "environment_digest" (text m.environment_digest) (
              field "experiment_id" (text m.experiment_id) (
                field "genome_hash" (text_or_null m.genome_hash) (
                  field "model_parameters" (object m.model_parameters) (
                    field "requested_model" (text m.requested_model) (
                      field "seed" (integer (pos m.seed)) (
                        field "status" (text (value pending))
                          (field "task_id" (text m.task_id) end))))))))))
