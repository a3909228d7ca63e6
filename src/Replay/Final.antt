-- ===== src/Replay/Final.antt =====
-- Terminal runs: no event but "run.terminal" ends a run, and none follows it, so a terminal state
-- still has what that event has checked.
use mathlib.Core.Path.{subst}
use guildmind.Common.{
  List, [], ◌∷◌, true, false, none, ◌≡◌, arith, ok, Result-cases, sym, inl, inr, ok-injective,
}
use guildmind.Domain.Float.{Float}
use guildmind.Domain.Json.{Fields}
use guildmind.Domain.Status.{is_terminal}
use guildmind.Domain.Event.{EventRecord}
use guildmind.Replay.State.{
  Cursor, EventKind, run_created, run_started, model_request_started, model_response_completed,
  model_request_ambiguous, budget_snapshot, artifact_recorded, artifact_not_produced,
  evaluation_completed, run_terminal, unknown,
}
use guildmind.Replay.Lifecycle.{on_run_created, on_run_started, on_run_terminal, terminal_verdict}
use guildmind.Replay.Artifacts.{
  on_artifact_recorded, on_artifact_not_produced, on_evaluation_completed,
}
use guildmind.Replay.Stream.{dispatch, apply_event, replay_step, replay_from}
use guildmind.Replay.Steps.{
  on_model_request_started-Requested, on_model_response_completed-Responded,
  on_model_request_ambiguous-Doubted,
}
use guildmind.Replay.Accounts.{on_budget_snapshot-Snapshotted}
use guildmind.Replay.Soundness.{replay_step-Stepped, gate, dispatched, no_pending}
use guildmind.Replay.Verdict.{Verdict, terminal_verdict-Verdict}

module _ {F : Type 0} ⦃fl : Float F⦄ where
  pub record Ended (c : Cursor F) : Type 0 where
    pub settled : c.pending_budget ≡ none
    pub verdict : Verdict c.state c.state.status c.state.terminal_reason

  -- If the run is over, it ended properly.
  abbrev pub IsFinal : Cursor F → Type 0
  IsFinal c = is_terminal c.state.status ≡ true → Ended c

  running-IsFinal : (c : Cursor F) → is_terminal c.state.status ≡ false → IsFinal c
  running-IsFinal c open_run over = absurd (ground arith)

  on_run_terminal-Ended :
      (p : Fields F) (c c' : Cursor F)
      → on_run_terminal p c ≡ ok c'
      → c.pending_budget ≡ none
      → Ended c'
  unfolding on_run_terminal
  on_run_terminal-Ended p c c' h g = elim (Result-cases (terminal_verdict p c.state)) [
    | inl (_, bad) ↦ absurd (ground arith)
    | inr (v, checked) ↦
        let ending : c'
            ≡ record c { state = record c.state { status = v.0; terminal_reason = v.1 } } =
          ground arith in
        let verdict = terminal_verdict-Verdict p c.state v checked in
        subst Ended (sym ending) (record {
          settled = g;
          verdict = record {
            final = verdict.final;
            answered = verdict.answered;
            evaluated = verdict.evaluated;
            agrees = verdict.agrees;
            explained = verdict.explained;
            classified = verdict.classified;
          };
        })
  ]

  apply_event-IsFinal :
      (kind : EventKind) (e : EventRecord F) (c c' : Cursor F)
      → apply_event kind e c ≡ ok c'
      → gate kind c ≡ true
      → is_terminal c.state.status ≡ false
      → IsFinal c'
  unfolding apply_event dispatch on_run_created on_run_started on_artifact_recorded
      on_artifact_not_produced on_evaluation_completed
  apply_event-IsFinal run_created e c c' h g o = running-IsFinal c' (ground arith)
  apply_event-IsFinal run_started e c c' h g o =
      let d = dispatched run_started e.payload c c' h in running-IsFinal c' (ground (arith, d))
  apply_event-IsFinal model_request_started e c c' h g o =
      let r =
        on_model_request_started-Requested e.payload c c'
          (dispatched model_request_started e.payload c c' h) in
      running-IsFinal c' (ground (arith, r.result))
  apply_event-IsFinal model_response_completed e c c' h g o =
      let r =
        on_model_response_completed-Responded e.payload c c'
          (dispatched model_response_completed e.payload c c' h) in
      running-IsFinal c' (ground (arith, r.result))
  apply_event-IsFinal model_request_ambiguous e c c' h g o =
      let r =
        on_model_request_ambiguous-Doubted e.payload c c'
          (dispatched model_request_ambiguous e.payload c c' h) in
      running-IsFinal c' (ground (arith, r.result))
  apply_event-IsFinal budget_snapshot e c c' h g o =
      let r =
        on_budget_snapshot-Snapshotted e.payload c c'
          (dispatched budget_snapshot e.payload c c' h) in
      running-IsFinal c' (ground (arith, r.result))
  apply_event-IsFinal artifact_recorded e c c' h g o =
      let d = dispatched artifact_recorded e.payload c c' h in
      running-IsFinal c' (ground (arith, d))
  apply_event-IsFinal artifact_not_produced e c c' h g o =
      let d = dispatched artifact_not_produced e.payload c c' h in
      running-IsFinal c' (ground (arith, d))
  apply_event-IsFinal evaluation_completed e c c' h g o =
      let d = dispatched evaluation_completed e.payload c c' h in
      running-IsFinal c' (ground (arith, d))
  apply_event-IsFinal run_terminal e c c' h g o = λ over.
      on_run_terminal-Ended e.payload c c' (dispatched run_terminal e.payload c c' h)
        (no_pending c g)
  apply_event-IsFinal unknown e c c' h g o = absurd (cc (dispatched unknown e.payload c c' h))

  pub replay_step-IsFinal :
      (e : EventRecord F) (c c' : Cursor F) → replay_step e c ≡ ok c' → IsFinal c'
  replay_step-IsFinal e c c' h =
      let s = replay_step-Stepped e c c' h in
      let final = apply_event-IsFinal _ e c s.next s.applied s.passed s.not_over in
      subst IsFinal (sym s.result) (λ over.
        let ended = final over in
        record {
          settled = ended.settled;
          verdict = record {
            final = ended.verdict.final;
            answered = ended.verdict.answered;
            evaluated = ended.verdict.evaluated;
            agrees = ended.verdict.agrees;
            explained = ended.verdict.explained;
            classified = ended.verdict.classified;
          };
        })

  pub replay_from-IsFinal :
      (c c' : Cursor F) (es : List (EventRecord F))
      → replay_from c es ≡ ok c'
      → IsFinal c
      → IsFinal c'
  unfolding replay_from
  replay_from-IsFinal c c' [] h f = subst IsFinal (ok-injective c c' h) f
  replay_from-IsFinal c c' (e ∷ es) h f = elim (Result-cases (replay_step e c)) [
    | inl (_, bad) ↦ absurd (ground arith)
    | inr (next, stepped) ↦
        replay_from-IsFinal next c' es (rw stepped at h) (replay_step-IsFinal e c next stepped)
  ]
