-- ===== src/Replay/Stream.antt =====
-- replay.py: `replay_events`, the loop over the events of one run.
use guildmind.Common.{
  suc, List, [], ◌∷◌, Bool, not, ◌||◌, is_some, Result, ok, err, require, ◌>>=◌, ◌>>◌, ◌==◌, all,
  keys, contains, ◌++◌, if◌then◌else◌,
}
use guildmind.Domain.Float.{Float}
use guildmind.Domain.Json.{Fields}
use guildmind.Domain.Usage.{no_usage, same_usage}
use guildmind.Domain.Status.{is_terminal}
use guildmind.Domain.Event.{EventRecord, Canonical}
use guildmind.Replay.State.{
  ReplayState, Cursor, start, EventKind, run_created, run_started, model_request_started,
  model_response_completed, model_request_ambiguous, budget_snapshot, artifact_recorded,
  artifact_not_produced, evaluation_completed, run_terminal, unknown, event_kind,
  is_budget_snapshot, started, same_request_state, expected_artifact_names,
}
use guildmind.Replay.Payload.{reject}
use guildmind.Replay.Chain.{verify_event_chain}
use guildmind.Replay.Artifacts.{
  on_artifact_recorded, on_artifact_not_produced, on_evaluation_completed,
}
use guildmind.Replay.Lifecycle.{on_run_created, on_run_started, on_run_terminal}
use guildmind.Replay.Requests.{
  on_model_request_started, on_model_response_completed, on_model_request_ambiguous,
  on_budget_snapshot,
}

module _ {F : Type 0} ⦃fl : Float F⦄ where
  -- The branches after `elif not created`.
  unfoldable pub dispatch : EventKind → Fields F → Cursor F → Result (Cursor F)
  dispatch run_created payload c =
      err (reject "run.created must be the first and only creation event")
  dispatch run_started payload c = on_run_started payload c
  dispatch model_request_started payload c = on_model_request_started payload c
  dispatch model_response_completed payload c = on_model_response_completed payload c
  dispatch model_request_ambiguous payload c = on_model_request_ambiguous payload c
  dispatch budget_snapshot payload c = on_budget_snapshot payload c
  dispatch artifact_recorded payload c = on_artifact_recorded payload c
  dispatch artifact_not_produced payload c = on_artifact_not_produced payload c
  dispatch evaluation_completed payload c = on_evaluation_completed payload c
  dispatch run_terminal payload c = on_run_terminal payload c
  dispatch unknown payload c = err (reject "unknown event type")

  abbrev pub after_creation : EventKind → Fields F → Cursor F → Result (Cursor F)
  after_creation kind payload c = do
    require c.created (reject "event stream does not begin with run.created")
    dispatch kind payload c

  unfoldable pub apply_event : EventKind → EventRecord F → Cursor F → Result (Cursor F)
  apply_event run_created e c = on_run_created e.sequence e.payload c
  apply_event run_started e c = after_creation run_started e.payload c
  apply_event kind e c = after_creation kind e.payload c

  -- `state.event_count += 1`
  abbrev pub count_event : Cursor F → Cursor F
  count_event c = record c { state = record c.state { event_count = suc c.state.event_count } }

  -- One round of the loop.
  unfoldable pub replay_step : EventRecord F → Cursor F → Result (Cursor F)
  replay_step e c = do
    require (e.run_id == c.state.run_id) (reject "event stream contains multiple run IDs")
    require (not (is_terminal c.state.status))
        (reject "event appears after the terminal transition")
    require (not (is_some c.pending_budget) || is_budget_snapshot (event_kind e.event_type))
        (reject "a budget transition must be followed by a budget snapshot")
    c' ← apply_event (event_kind e.event_type) e c
    ok (count_event c')

  unfoldable pub replay_from : Cursor F → List (EventRecord F) → Result (Cursor F)
  replay_from c [] = ok c
  replay_from c (e ∷ es) = do c' ← replay_step e c; replay_from c' es

  -- The checks under `require_terminal`.
  unfoldable pub check_terminal : Cursor F → Result (Unit {0})
  check_terminal c = do
    require (not (is_some c.pending_budget))
        (reject "terminal stream has an unapplied budget transition")
    require (is_terminal c.state.status) (reject "event stream is not terminal")
    require (same_usage c.state.budget_reserved no_usage)
        (reject "terminal stream retains a budget reservation")
    require (not (same_request_state c.state.model_request_state started))
        (reject "terminal stream has ambiguous unclassified model work")
    require
        (all (λ n. contains n (keys c.state.artifacts ++ keys c.state.absent_artifacts))
          expected_artifact_names)
        (reject "terminal stream does not account for artifacts")

  abbrev pub finish : Bool → Cursor F → Result (ReplayState F)
  finish require_terminal c = do
    require c.created (reject "event stream does not contain run.created")
    (if require_terminal then check_terminal c else ok tt)
    ok c.state

module _ {F : Type 0} ⦃fl : Float F⦄ ⦃cn : Canonical F⦄ where
  unfoldable pub replay_events : Bool → List (EventRecord F) → Result (ReplayState F)
  replay_events require_terminal [] = err (reject "cannot replay an empty event stream")
  replay_events require_terminal (e ∷ es) = do
    verify_event_chain (e ∷ es)
    c ← replay_from (start e.run_id) (e ∷ es)
    finish require_terminal c
