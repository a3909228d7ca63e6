-- ===== src/Replay/State.antt =====
-- replay.py: `ReplayState`, `_BudgetTransition`, the artifact names and the event types.
use guildmind.Common.{
  ℕ, String, List, [], ◌∷◌, Dict, Bool, true, false, Option, none, ◌==◌, if◌then◌else◌,
}
use guildmind.Domain.Float.{Float}
use guildmind.Domain.Usage.{BudgetUsage, no_usage}
use guildmind.Domain.Status.{RunStatus, pending}

abbrev pub expected_artifact_names : List String
expected_artifact_names =
    "evaluation" ∷ "evaluation_stderr" ∷ "evaluation_stdout" ∷ "patch" ∷ "task_spec" ∷ []

abbrev pub optional_evaluation_artifact_names : List String
optional_evaluation_artifact_names = "evaluation_candidate_stdout" ∷ "evaluation_scorer_stdout" ∷ []

-- `ModelRequestState`
pub data RequestState : Type 0 where
  not_started started completed ambiguous : RequestState

abbrev pub same_request_state : RequestState → RequestState → Bool
same_request_state not_started not_started = true
same_request_state started started = true
same_request_state completed completed = true
same_request_state ambiguous ambiguous = true
same_request_state _ _ = false

pub record ReplayState (F : Type 0) : Type 0 where
  pub run_id : String
  pub status : RunStatus
  pub budget_used : BudgetUsage F
  pub budget_reserved : BudgetUsage F
  pub artifacts : Dict String
  pub absent_artifacts : Dict String
  pub evaluation_outcome : Option String
  pub requested_model : Option String
  pub model_request_id : Option String
  pub model_request_state : RequestState
  pub model_request_maximum : Option (BudgetUsage F)
  pub returned_model : Option String
  pub terminal_reason : Option String
  pub event_count : ℕ

pub data TransitionKind : Type 0 where
  reserve reconcile charge : TransitionKind

-- `charge` is the source's kind "ambiguous".
pub record BudgetTransition (F : Type 0) : Type 0 where
  pub kind : TransitionKind
  pub used_before : BudgetUsage F
  pub reserved_before : BudgetUsage F
  pub amount : BudgetUsage F

-- The variables of the loop: `state`, `created` and `pending_budget`.
pub record Cursor (F : Type 0) : Type 0 where
  pub state : ReplayState F
  pub created : Bool
  pub pending_budget : Option (BudgetTransition F)

pub data EventKind : Type 0 where
  run_created run_started model_request_started model_response_completed model_request_ambiguous
        budget_snapshot artifact_recorded artifact_not_produced evaluation_completed run_terminal
        unknown :
      EventKind

unfoldable pub event_kind : String → EventKind
event_kind s =
    if s == "run.created"
    then run_created
    else if s == "run.started"
    then run_started
    else if s == "model.request_started"
    then model_request_started
    else if s == "model.response_completed"
    then model_response_completed
    else if s == "model.request_ambiguous"
    then model_request_ambiguous
    else if s == "budget.snapshot"
    then budget_snapshot
    else if s == "artifact.recorded"
    then artifact_recorded
    else if s == "artifact.not_produced"
    then artifact_not_produced
    else if s == "evaluation.completed"
    then evaluation_completed
    else if s == "run.terminal"
    then run_terminal
    else unknown

abbrev pub is_budget_snapshot : EventKind → Bool
is_budget_snapshot budget_snapshot = true
is_budget_snapshot _ = false

module _ {F : Type 0} ⦃fl : Float F⦄ where
  -- `ReplayState(run_id=run_id)`
  abbrev pub new_state : String → ReplayState F
  new_state id = record {
    run_id = id;
    status = pending;
    budget_used = no_usage;
    budget_reserved = no_usage;
    artifacts = [];
    absent_artifacts = [];
    evaluation_outcome = none;
    requested_model = none;
    model_request_id = none;
    model_request_state = not_started;
    model_request_maximum = none;
    returned_model = none;
    terminal_reason = none;
    event_count = 0;
  }

  abbrev pub start : String → Cursor F
  start id = record { state = new_state id; created = false; pending_budget = none }
