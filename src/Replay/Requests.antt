-- ===== src/Replay/Requests.antt =====
-- replay.py: the branches for model requests and `_apply_budget_snapshot`.
use guildmind.Common.{
  [], ◌∷◌, keys, is_same_set, Bool, false, ◌&&◌, Option, none, some, Result, ok, require, or_raise,
  ◌>>=◌, ◌>>◌, eqb,
}
use guildmind.Domain.Float.{Float}
use guildmind.Domain.Json.{Fields}
use guildmind.Domain.Usage.{
  BudgetUsage, no_usage, same_usage, usage_at_most, add_usage, subtract_usage,
}
use guildmind.Domain.Status.{running, same_status}
use guildmind.Replay.State.{
  ReplayState, Cursor, BudgetTransition, reserve, reconcile, charge, not_started, started,
  completed, ambiguous, same_request_state,
}
use guildmind.Replay.Payload.{reject, is_text, require_text, usage_from_payload}

module _ {F : Type 0} ⦃fl : Float F⦄ where
  unfoldable pub on_model_request_started : Fields F → Cursor F → Result (Cursor F)
  on_model_request_started payload c = do
    require (same_status c.state.status running) (reject "model requests require a running run")
    require (same_request_state c.state.model_request_state not_started)
        (reject "a model request has already been recorded")
    require (is_same_set (keys c.state.artifacts) ("task_spec" ∷ []))
        (reject "model request requires exactly one task_spec artifact")
    request_id ← require_text payload "request_id"
    maximum ← usage_from_payload payload "maximum"
    require (eqb maximum.model_calls 1) (reject "one model request must reserve exactly one call")
    ok (record c {
      state = record c.state {
        model_request_id = some request_id;
        model_request_maximum = some maximum;
        model_request_state = started;
      };
      pending_budget = some (record {
        kind = reserve;
        used_before = c.state.budget_used;
        reserved_before = c.state.budget_reserved;
        amount = maximum;
      });
    })

  -- `maximum is not None and _usage_at_most(actual, maximum)`
  abbrev pub is_within : BudgetUsage F → Option (BudgetUsage F) → Bool
  is_within actual none = false
  is_within actual (some maximum) = usage_at_most actual maximum

  unfoldable pub on_model_response_completed : Fields F → Cursor F → Result (Cursor F)
  on_model_response_completed payload c = do
    require (same_status c.state.status running) (reject "model responses require a running run")
    require (same_request_state c.state.model_request_state started)
        (reject "model response has no outstanding request")
    request_id ← require_text payload "request_id"
    require (is_text c.state.model_request_id request_id)
        (reject "model response request ID does not match")
    actual ← usage_from_payload payload "actual"
    require (eqb actual.model_calls 1) (reject "one model response must report exactly one call")
    require (is_within actual c.state.model_request_maximum)
        (reject "model response exceeds its reservation")
    returned_model ← require_text payload "returned_model"
    ok (record c {
      state = record c.state {
        returned_model = some returned_model;
        model_request_state = completed;
      };
      pending_budget = some (record {
        kind = reconcile;
        used_before = c.state.budget_used;
        reserved_before = c.state.budget_reserved;
        amount = actual;
      });
    })

  unfoldable pub on_model_request_ambiguous : Fields F → Cursor F → Result (Cursor F)
  on_model_request_ambiguous payload c = do
    require (same_status c.state.status running)
        (reject "ambiguous model work requires a running run")
    require (same_request_state c.state.model_request_state started)
        (reject "no outstanding model request can be ambiguous")
    request_id ← require_text payload "request_id"
    require (is_text c.state.model_request_id request_id)
        (reject "ambiguous model request ID does not match")
    ok (record c {
      state = record c.state { model_request_state = ambiguous };
      pending_budget = some (record {
        kind = charge;
        used_before = c.state.budget_used;
        reserved_before = c.state.budget_reserved;
        amount = c.state.budget_reserved;
      });
    })

  -- The usage that a snapshot must show after a transition.
  unfoldable pub expected_budget :
      ReplayState F → BudgetTransition F → Result (BudgetUsage F × BudgetUsage F)
  expected_budget s t = elim t.kind [
    | reserve ↦ (do reserved ← add_usage t.reserved_before t.amount; ok (t.used_before, reserved))
    | reconcile ↦ (do
      used ← add_usage t.used_before t.amount
      maximum ← or_raise s.model_request_maximum (reject "model response has no recorded maximum")
      reserved ← subtract_usage reject t.reserved_before maximum
      ok (used, reserved))
    | charge ↦ (do used ← add_usage t.used_before t.reserved_before; ok (used, no_usage))
  ]

  abbrev pub is_expected : BudgetUsage F → BudgetUsage F → BudgetUsage F × BudgetUsage F → Bool
  is_expected used reserved e = same_usage used e.0 && same_usage reserved e.1

  -- The comparison of a snapshot with what the pending transition allows.
  unfoldable pub check_snapshot :
      ReplayState F
      → Option (BudgetTransition F)
      → BudgetUsage F
      → BudgetUsage F
      → Result (Unit {0})
  check_snapshot s none used reserved =
      require (same_usage used s.budget_used && same_usage reserved s.budget_reserved)
        (reject "budget changed without a lifecycle event")
  check_snapshot s (some t) used reserved = do
    expected ← expected_budget s t
    require (is_expected used reserved expected)
        (reject "budget snapshot does not match its transition")

  -- `_apply_budget_snapshot`, with the reset of `pending_budget` that follows it
  unfoldable pub on_budget_snapshot : Fields F → Cursor F → Result (Cursor F)
  on_budget_snapshot payload c = do
    used ← usage_from_payload payload "used"
    reserved ← usage_from_payload payload "reserved"
    require (usage_at_most c.state.budget_used used) (reject "budget usage decreased")
    check_snapshot c.state c.pending_budget used reserved
    ok (record c {
      state = record c.state { budget_used = used; budget_reserved = reserved };
      pending_budget = none;
    })
