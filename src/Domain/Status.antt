-- ===== src/Domain/Status.antt =====
-- domain/models.py: `RunStatus` and `EvaluationOutcome`.
use guildmind.Common.{
  String, Bool, true, false, ◌||◌, Option, none, some, ◌≡◌, refl, ◌==◌, if◌then◌else◌,
}

pub data RunStatus : Type 0 where
  pending running succeeded failed cancelled timed_out budget_exhausted infrastructure_error :
      RunStatus

abbrev pub is_terminal : RunStatus → Bool
is_terminal pending = false
is_terminal running = false
is_terminal _ = true

-- The `StrEnum` value.
abbrev pub value : RunStatus → String
value pending = "pending"
value running = "running"
value succeeded = "succeeded"
value failed = "failed"
value cancelled = "cancelled"
value timed_out = "timed_out"
value budget_exhausted = "budget_exhausted"
value infrastructure_error = "infrastructure_error"

-- `RunStatus(raw)`; `none` is the `ValueError`.
unfoldable pub of_value : String → Option RunStatus
of_value s =
    if s == "pending"
    then some pending
    else if s == "running"
    then some running
    else if s == "succeeded"
    then some succeeded
    else if s == "failed"
    then some failed
    else if s == "cancelled"
    then some cancelled
    else if s == "timed_out"
    then some timed_out
    else if s == "budget_exhausted"
    then some budget_exhausted
    else if s == "infrastructure_error"
    then some infrastructure_error
    else none

pub of_value-value : (s : RunStatus) → of_value (value s) ≡ some s
unfolding of_value
of_value-value pending = refl
of_value-value running = refl
of_value-value succeeded = refl
of_value-value failed = refl
of_value-value cancelled = refl
of_value-value timed_out = refl
of_value-value budget_exhausted = refl
of_value-value infrastructure_error = refl

-- `a is b`
abbrev pub same_status : RunStatus → RunStatus → Bool
same_status pending pending = true
same_status running running = true
same_status succeeded succeeded = true
same_status failed failed = true
same_status cancelled cancelled = true
same_status timed_out timed_out = true
same_status budget_exhausted budget_exhausted = true
same_status infrastructure_error infrastructure_error = true
same_status _ _ = false

-- replay.py: `_terminal_status_matches_outcome`
unfoldable pub terminal_status_matches_outcome : RunStatus → Option String → Bool
terminal_status_matches_outcome status none =
    same_status status cancelled
    || same_status status budget_exhausted
    || same_status status infrastructure_error
terminal_status_matches_outcome status (some outcome) =
    if outcome == "passed"
    then same_status status succeeded
    else if outcome == "failed"
    then same_status status failed || same_status status timed_out
    else if outcome == "error"
    then same_status status infrastructure_error
    else false
