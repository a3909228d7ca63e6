-- ===== src/Replay/Raises.antt =====
-- replay.py: which exceptions the replay raises.
use guildmind.Common.{
  ℕ, String, List, [], ◌∷◌, Bool, Option, none, some, refl, ok, ◌>>=◌, catch_rules, Catchable-ok,
  Catchable-bind, Catchable-raise, or_raise,
}
use guildmind.Domain.Float.{Float}
use guildmind.Domain.Json.{Fields}
use guildmind.Domain.Usage.{BudgetUsage, no_usage, add_usage, subtract_usage}
use guildmind.Domain.Status.{
  RunStatus, pending, running, succeeded, failed, cancelled, timed_out, budget_exhausted,
  infrastructure_error,
}
use guildmind.Domain.Event.{EventRecord, Canonical}
use guildmind.Replay.State.{
  ReplayState, Cursor, RequestState, not_started, started, completed, ambiguous, BudgetTransition,
  TransitionKind, reserve, reconcile, charge, start, EventKind, run_created, run_started,
  model_request_started, model_response_completed, model_request_ambiguous, budget_snapshot,
  artifact_recorded, artifact_not_produced, evaluation_completed, run_terminal, unknown,
}
use guildmind.Replay.Payload.{reject, validate_artifact_payload, validate_creation_payload}
use guildmind.Replay.Chain.{check_link, verify_from, verify_event_chain}
use guildmind.Replay.Lifecycle.{
  check_terminal_reason, check_ambiguous, check_declared_outcome, on_run_created, on_run_started,
  terminal_verdict, on_run_terminal,
}
use guildmind.Replay.Requests.{
  on_model_request_started, on_model_response_completed, on_model_request_ambiguous,
  expected_budget, check_snapshot, on_budget_snapshot,
}
use guildmind.Replay.Artifacts.{
  validate_artifact_position, on_artifact_recorded, on_artifact_not_produced,
  on_evaluation_completed,
}
use guildmind.Replay.Stream.{
  dispatch, after_creation, apply_event, replay_step, replay_from, check_terminal, replay_events,
}
use guildmind.Replay.PayloadRaises.{Rejects, payload_rules}

check_terminal_reason-Catchable :
    (s : RunStatus) (r : Option String) → Rejects (check_terminal_reason s r)
unfolding check_terminal_reason
check_terminal_reason-Catchable pending r = search (catch_rules)
check_terminal_reason-Catchable running r = search (catch_rules)
check_terminal_reason-Catchable succeeded r = search (catch_rules)
check_terminal_reason-Catchable failed r = search (catch_rules)
check_terminal_reason-Catchable cancelled r = search (catch_rules)
check_terminal_reason-Catchable timed_out r = search (catch_rules)
check_terminal_reason-Catchable budget_exhausted r = search (catch_rules)
check_terminal_reason-Catchable infrastructure_error r = search (catch_rules)

check_ambiguous-Catchable :
    (q : RequestState) (s : RunStatus) (r : Option String) → Rejects (check_ambiguous q s r)
unfolding check_ambiguous
check_ambiguous-Catchable not_started s r = search (catch_rules)
check_ambiguous-Catchable started s r = search (catch_rules)
check_ambiguous-Catchable completed s r = search (catch_rules)
check_ambiguous-Catchable ambiguous s r = search (catch_rules)

module _ {F : Type 0} where
  check_declared_outcome-Catchable :
      (p : Fields F) (o : Option String) → Rejects (check_declared_outcome p o)
  unfolding check_declared_outcome
  check_declared_outcome-Catchable p none = search (catch_rules)
  check_declared_outcome-Catchable p (some s) = search (catch_rules)

  on_run_terminal-Catchable : (p : Fields F) (c : Cursor F) → Rejects (on_run_terminal p c)
  unfolding on_run_terminal terminal_verdict
  on_run_terminal-Catchable p c =
      search
        (
          payload_rules, check_declared_outcome-Catchable, check_terminal_reason-Catchable,
          check_ambiguous-Catchable,
        )
        depth 40 fits 16000

  on_run_started-Catchable : (p : Fields F) (c : Cursor F) → Rejects (on_run_started p c)
  unfolding on_run_started
  on_run_started-Catchable p c = search (payload_rules) depth 24 fits 8000

module _ {F : Type 0} ⦃fl : Float F⦄ where
  on_run_created-Catchable : (n : ℕ) (p : Fields F) (c : Cursor F) → Rejects (on_run_created n p c)
  unfolding on_run_created validate_creation_payload
  on_run_created-Catchable n p c = search (payload_rules) depth 50 fits 20000

  on_model_request_started-Catchable :
      (p : Fields F) (c : Cursor F) → Rejects (on_model_request_started p c)
  unfolding on_model_request_started
  on_model_request_started-Catchable p c = search (payload_rules) depth 40 fits 16000

  on_model_response_completed-Catchable :
      (p : Fields F) (c : Cursor F) → Rejects (on_model_response_completed p c)
  unfolding on_model_response_completed
  on_model_response_completed-Catchable p c = search (payload_rules) depth 40 fits 16000

  on_model_request_ambiguous-Catchable :
      (p : Fields F) (c : Cursor F) → Rejects (on_model_request_ambiguous p c)
  unfolding on_model_request_ambiguous
  on_model_request_ambiguous-Catchable p c = search (payload_rules) depth 40 fits 16000

  expected_budget-Catchable :
      (s : ReplayState F) (t : BudgetTransition F) → Rejects (expected_budget s t)
  unfolding expected_budget
  expected_budget-Catchable s t = by_kind t.kind
    where
      by_kind :
          (kind : TransitionKind)
          → Rejects {A = BudgetUsage F × BudgetUsage F} (elim kind [
            | reserve ↦ (do
              reserved ← add_usage t.reserved_before t.amount
              ok (t.used_before, reserved))
            | reconcile ↦ (do
              used ← add_usage t.used_before t.amount
              maximum ←
                  or_raise s.model_request_maximum (reject "model response has no recorded maximum")
              reserved ← subtract_usage reject t.reserved_before maximum
              ok (used, reserved))
            | charge ↦ (do used ← add_usage t.used_before t.reserved_before; ok (used, no_usage))
          ])
      by_kind reserve = search (payload_rules) depth 24 fits 8000
      by_kind reconcile = search (payload_rules) depth 24 fits 8000
      by_kind charge = search (payload_rules) depth 24 fits 8000

  check_snapshot-Catchable :
      (s : ReplayState F) (t : Option (BudgetTransition F)) (u v : BudgetUsage F)
      → Rejects (check_snapshot s t u v)
  unfolding check_snapshot
  check_snapshot-Catchable s none u v = search (catch_rules)
  check_snapshot-Catchable s (some t) u v = search (catch_rules, expected_budget-Catchable)

  on_budget_snapshot-Catchable : (p : Fields F) (c : Cursor F) → Rejects (on_budget_snapshot p c)
  unfolding on_budget_snapshot
  on_budget_snapshot-Catchable p c =
      search (payload_rules, check_snapshot-Catchable) depth 40 fits 16000

  validate_artifact_payload-Catchable : (p : Fields F) → Rejects (validate_artifact_payload p)
  unfolding validate_artifact_payload
  validate_artifact_payload-Catchable p = search (payload_rules) depth 24 fits 8000

  on_artifact_recorded-Catchable :
      (p : Fields F) (c : Cursor F) → Rejects (on_artifact_recorded p c)
  unfolding on_artifact_recorded validate_artifact_position
  on_artifact_recorded-Catchable p c =
      search (payload_rules, validate_artifact_payload-Catchable) depth 40 fits 16000

  on_artifact_not_produced-Catchable :
      (p : Fields F) (c : Cursor F) → Rejects (on_artifact_not_produced p c)
  unfolding on_artifact_not_produced
  on_artifact_not_produced-Catchable p c = search (payload_rules) depth 40 fits 16000

  on_evaluation_completed-Catchable :
      (p : Fields F) (c : Cursor F) → Rejects (on_evaluation_completed p c)
  unfolding on_evaluation_completed
  on_evaluation_completed-Catchable p c = search (payload_rules) depth 40 fits 16000

  dispatch-Catchable : (k : EventKind) (p : Fields F) (c : Cursor F) → Rejects (dispatch k p c)
  unfolding dispatch
  dispatch-Catchable run_created p c = Catchable-raise _ refl
  dispatch-Catchable run_started p c = on_run_started-Catchable p c
  dispatch-Catchable model_request_started p c = on_model_request_started-Catchable p c
  dispatch-Catchable model_response_completed p c = on_model_response_completed-Catchable p c
  dispatch-Catchable model_request_ambiguous p c = on_model_request_ambiguous-Catchable p c
  dispatch-Catchable budget_snapshot p c = on_budget_snapshot-Catchable p c
  dispatch-Catchable artifact_recorded p c = on_artifact_recorded-Catchable p c
  dispatch-Catchable artifact_not_produced p c = on_artifact_not_produced-Catchable p c
  dispatch-Catchable evaluation_completed p c = on_evaluation_completed-Catchable p c
  dispatch-Catchable run_terminal p c = on_run_terminal-Catchable p c
  dispatch-Catchable unknown p c = Catchable-raise _ refl

  after_creation-Catchable :
      (k : EventKind) (p : Fields F) (c : Cursor F) → Rejects (after_creation k p c)
  after_creation-Catchable k p c = search (catch_rules, dispatch-Catchable)

  apply_event-Catchable :
      (k : EventKind) (e : EventRecord F) (c : Cursor F) → Rejects (apply_event k e c)
  unfolding apply_event
  apply_event-Catchable run_created e c = on_run_created-Catchable e.sequence e.payload c
  apply_event-Catchable run_started e c = after_creation-Catchable _ e.payload c
  apply_event-Catchable model_request_started e c = after_creation-Catchable _ e.payload c
  apply_event-Catchable model_response_completed e c = after_creation-Catchable _ e.payload c
  apply_event-Catchable model_request_ambiguous e c = after_creation-Catchable _ e.payload c
  apply_event-Catchable budget_snapshot e c = after_creation-Catchable _ e.payload c
  apply_event-Catchable artifact_recorded e c = after_creation-Catchable _ e.payload c
  apply_event-Catchable artifact_not_produced e c = after_creation-Catchable _ e.payload c
  apply_event-Catchable evaluation_completed e c = after_creation-Catchable _ e.payload c
  apply_event-Catchable run_terminal e c = after_creation-Catchable _ e.payload c
  apply_event-Catchable unknown e c = after_creation-Catchable _ e.payload c

  replay_step-Catchable : (e : EventRecord F) (c : Cursor F) → Rejects (replay_step e c)
  unfolding replay_step
  replay_step-Catchable e c = search (catch_rules, apply_event-Catchable) depth 24 fits 8000

  replay_from-Catchable : (c : Cursor F) (es : List (EventRecord F)) → Rejects (replay_from c es)
  unfolding replay_from
  replay_from-Catchable c [] = Catchable-ok c
  replay_from-Catchable c (e ∷ es) =
      Catchable-bind (replay_step e c) _ (replay_step-Catchable e c)
        (λ c'. replay_from-Catchable c' es)

module _ {F : Type 0} ⦃fl : Float F⦄ ⦃cn : Canonical F⦄ where
  check_link-Catchable : (p : Option (EventRecord F)) (e : EventRecord F) → Rejects (check_link p e)
  unfolding check_link
  check_link-Catchable none e = search (catch_rules)
  check_link-Catchable (some p) e = search (catch_rules)

  verify_from-Catchable :
      (n : ℕ) (p : Option (EventRecord F)) (seen : List String) (es : List (EventRecord F))
      → Rejects (verify_from n p seen es)
  unfolding verify_from
  verify_from-Catchable n p seen [] = Catchable-ok tt
  verify_from-Catchable n p seen (e ∷ es) =
      let others : (n : ℕ) (p : Option (EventRecord F)) (seen : List String)
          → Rejects (verify_from n p seen es) =
        λ n p seen. verify_from-Catchable n p seen es in
      search (catch_rules, check_link-Catchable, others) depth 40 fits 16000

  pub replay_events-Catchable :
      (ended : Bool) (es : List (EventRecord F)) → Rejects (replay_events ended es)
  unfolding replay_events verify_event_chain check_terminal
  replay_events-Catchable ended [] = Catchable-raise _ refl
  replay_events-Catchable ended (e ∷ es) =
      Catchable-bind _ _ (verify_from-Catchable 0 none [] (e ∷ es)) (λ _.
        Catchable-bind _ _ (replay_from-Catchable (start e.run_id) (e ∷ es))
          (λ c. search (catch_rules) depth 32 fits 8000))
