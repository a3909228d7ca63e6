-- ===== src/Replay/Lifecycle.antt =====
-- replay.py: the branches "run.created", "run.started" and "run.terminal".
use guildmind.Common.{
  ℕ, String, Bool, true, false, not, ◌&&◌, ◌||◌, Option, none, some, is_some, Result, ok, require,
  or_raise, ◌>>=◌, ◌>>◌, eqb,
}
use guildmind.Domain.Float.{Float}
use guildmind.Domain.Json.{Fields, get}
use guildmind.Domain.Status.{
  RunStatus, pending, running, succeeded, failed, timed_out, infrastructure_error, is_terminal,
  of_value, same_status, terminal_status_matches_outcome,
}
use guildmind.Replay.State.{
  ReplayState, Cursor, RequestState, started, ambiguous, same_request_state,
}
use guildmind.Replay.Payload.{
  reject, is_text, json_text, is_null, require_text, terminal_reason_of, validate_creation_payload,
}

abbrev pub needs_evaluation : RunStatus → Bool
needs_evaluation succeeded = true
needs_evaluation failed = true
needs_evaluation timed_out = true
needs_evaluation _ = false

abbrev pub is_ambiguous_reason : Option String → Bool
is_ambiguous_reason reason = is_text reason "ambiguous_model_request"

-- Successful runs have no reason, all others have one.
unfoldable pub check_terminal_reason : RunStatus → Option String → Result (Unit {0})
check_terminal_reason succeeded reason =
    require (not (is_some reason)) (reject "successful runs cannot have a terminal reason")
check_terminal_reason _ reason =
    require (is_some reason) (reject "non-success terminal runs require a terminal reason")

-- Ambiguous model work ends as an infrastructure error with its own reason.
unfoldable pub check_ambiguous : RequestState → RunStatus → Option String → Result (Unit {0})
check_ambiguous ambiguous status reason = do
  require (same_status status infrastructure_error)
      (reject "ambiguous model work is an infrastructure error")
  require (is_ambiguous_reason reason) (reject "ambiguous model work has the wrong terminal reason")
check_ambiguous _ status reason = ok tt

module _ {F : Type 0} ⦃fl : Float F⦄ where
  unfoldable pub on_run_created : ℕ → Fields F → Cursor F → Result (Cursor F)
  on_run_created sequence payload c = do
    require (not c.created && eqb sequence 0)
        (reject "run.created must be the first and only creation event")
    require (is_text (json_text (get "status" payload)) "pending")
        (reject "run.created must declare pending status")
    validate_creation_payload payload
    requested_model ← require_text payload "requested_model"
    ok (record c {
      state = record c.state { requested_model = some requested_model };
      created = true;
    })

module _ {F : Type 0} where
  unfoldable pub on_run_started : Fields F → Cursor F → Result (Cursor F)
  on_run_started payload c = do
    require (same_status c.state.status pending) (reject "run.started is only legal from pending")
    requested_model ← require_text payload "requested_model"
    require (is_text c.state.requested_model requested_model)
        (reject "run.started model disagrees with run.created")
    ok (record c { state = record c.state { status = running } })

  -- `event.payload.get("evaluation_outcome")` against the recorded outcome.
  unfoldable pub check_declared_outcome : Fields F → Option String → Result (Unit {0})
  check_declared_outcome payload none =
      require (is_null (get "evaluation_outcome" payload))
        (reject "terminal event invents an evaluation outcome")
  check_declared_outcome payload (some outcome) =
      require (is_text (json_text (get "evaluation_outcome" payload)) outcome)
        (reject "terminal outcome disagrees with the evaluation")

  -- The checks of "run.terminal", which yield the terminal status and reason.
  unfoldable pub terminal_verdict : Fields F → ReplayState F → Result (RunStatus × Option String)
  terminal_verdict payload s = do
    raw_status ← require_text payload "status"
    status ← or_raise (of_value raw_status) (reject "unknown terminal run status")
    require (is_terminal status) (reject "run.terminal cannot contain a nonterminal status")
    require (not (same_request_state s.model_request_state started))
        (reject "outstanding model work must be classified before terminal")
    require (not (needs_evaluation status) || is_some s.evaluation_outcome)
        (reject "evaluation-derived terminal status lacks an evaluation")
    check_declared_outcome payload s.evaluation_outcome
    require (terminal_status_matches_outcome status s.evaluation_outcome)
        (reject "terminal status disagrees with the evaluation outcome")
    reason ← terminal_reason_of (get "terminal_reason" payload)
    check_terminal_reason status reason
    check_ambiguous s.model_request_state status reason
    ok (status, reason)

  unfoldable pub on_run_terminal : Fields F → Cursor F → Result (Cursor F)
  on_run_terminal payload c = do
    verdict ← terminal_verdict payload c.state
    ok (record c { state = record c.state { status = verdict.0; terminal_reason = verdict.1 } })
