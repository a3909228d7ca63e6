-- ===== src/Replay/Artifacts.antt =====
-- replay.py: the branches for artifacts and the evaluation, and `_validate_artifact_position`.
use guildmind.Common.{
  String, List, [], ◌∷◌, insert, has_key, keys, contains, is_subset, is_same_set, difference, Bool,
  not, ◌&&◌, ◌||◌, Option, none, some, is_some, Result, ok, require, or_raise, ◌>>=◌, ◌>>◌, ◌==◌,
  if◌then◌else◌,
}
use guildmind.Domain.Float.{Float}
use guildmind.Domain.Json.{Fields}
use guildmind.Domain.Status.{running, same_status}
use guildmind.Replay.State.{
  ReplayState, Cursor, not_started, completed, same_request_state, expected_artifact_names,
  optional_evaluation_artifact_names,
}
use guildmind.Replay.Payload.{reject, require_text, require_sha256, validate_artifact_payload}

abbrev evidence_predecessors : List String
evidence_predecessors = "evaluation_stderr" ∷ "evaluation_stdout" ∷ "patch" ∷ "task_spec" ∷ []

-- Whether a role may be bound when these roles are; `none` for an unknown role.
unfoldable pub artifact_position : String → List String → Option Bool
artifact_position name recorded =
    if name == "task_spec"
    then some (is_same_set recorded [])
    else if name == "patch"
    then some (is_same_set recorded ("task_spec" ∷ []))
    else if name == "evaluation_stdout"
    then some (is_same_set recorded ("patch" ∷ "task_spec" ∷ []))
    else if name == "evaluation_stderr"
    then some (is_same_set recorded ("evaluation_stdout" ∷ "patch" ∷ "task_spec" ∷ []))
    else if name == "evaluation_candidate_stdout"
    then some (is_same_set recorded evidence_predecessors)
    else if name == "evaluation_scorer_stdout"
    then some (is_same_set recorded ("evaluation_candidate_stdout" ∷ evidence_predecessors))
    else if name == "evaluation"
    then some (
        is_subset evidence_predecessors recorded
        && is_subset (difference recorded evidence_predecessors) optional_evaluation_artifact_names)
    else none

abbrev required_evidence : List String
required_evidence = "evaluation" ∷ "evaluation_stderr" ∷ "evaluation_stdout" ∷ "patch" ∷ []

module _ {F : Type 0} ⦃fl : Float F⦄ where
  -- `_validate_artifact_position`
  unfoldable pub validate_artifact_position : ReplayState F → String → Result (Unit {0})
  validate_artifact_position s name = do
    correctly_positioned ←
        or_raise (artifact_position name (keys s.artifacts)) (reject "unknown artifact role")
    require correctly_positioned (reject "artifact role is out of phase")
    require (not (name == "task_spec") || same_request_state s.model_request_state not_started)
        (reject "task_spec must precede model work")
    require (name == "task_spec" || same_request_state s.model_request_state completed)
        (reject "artifact requires a completed model response")

  unfoldable pub on_artifact_recorded : Fields F → Cursor F → Result (Cursor F)
  on_artifact_recorded payload c = do
    require (same_status c.state.status running)
        (reject "artifacts can only be bound to a running run")
    name ← require_text payload "name"
    digest ← require_sha256 payload "sha256"
    require (not (has_key name c.state.artifacts || has_key name c.state.absent_artifacts))
        (reject "artifact name is already bound")
    validate_artifact_payload payload
    validate_artifact_position c.state name
    ok (record c { state = record c.state { artifacts = insert name digest c.state.artifacts } })

  unfoldable pub on_artifact_not_produced : Fields F → Cursor F → Result (Cursor F)
  on_artifact_not_produced payload c = do
    name ← require_text payload "name"
    reason ← require_text payload "reason"
    require (contains name expected_artifact_names) (reject "unknown absent artifact role")
    require (not (has_key name c.state.artifacts || has_key name c.state.absent_artifacts))
        (reject "artifact name is already accounted for")
    ok (record c {
      state = record c.state { absent_artifacts = insert name reason c.state.absent_artifacts };
    })

  unfoldable pub on_evaluation_completed : Fields F → Cursor F → Result (Cursor F)
  on_evaluation_completed payload c = do
    require (same_status c.state.status running) (reject "evaluations require a running run")
    require (same_request_state c.state.model_request_state completed)
        (reject "evaluation requires a completed model response")
    require (not (is_some c.state.evaluation_outcome))
        (reject "an evaluation has already been recorded")
    require (is_subset required_evidence (keys c.state.artifacts))
        (reject "evaluation evidence is not fully bound")
    outcome ← require_text payload "outcome"
    require (outcome == "passed" || outcome == "failed" || outcome == "error")
        (reject "evaluation has an unknown outcome")
    result ← require_sha256 payload "result_sha256"
    ok (record c { state = record c.state { evaluation_outcome = some outcome } })
