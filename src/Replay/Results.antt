-- ===== src/Replay/Results.antt =====
-- What a successful replay guarantees about the state that it returns.
use mathlib.Core.Path.{subst}
use guildmind.Common.{
  String, List, [], ◌∷◌, Bool, true, false, Option, none, some, ◌≡◌, ◌≢◌, ◌∙◌, arith, ok,
  Result-cases, sym, inl, inr, eq_iff, ap,
}
use guildmind.Domain.Float.{Float, IsFloat}
use guildmind.Domain.Usage.{BudgetUsage, no_usage, usage_at_most}
use guildmind.Domain.Usage.Laws.{usage_at_most_refl, nought_at_most}
use guildmind.Domain.Status.{RunStatus, is_terminal, infrastructure_error}
use guildmind.Domain.Event.{EventRecord, Canonical}
use guildmind.Replay.State.{ReplayState, Cursor, started, ambiguous, start}
use guildmind.Replay.Chain.{verify_event_chain}
use guildmind.Replay.Lifecycle.{check_ambiguous}
use guildmind.Replay.Stream.{replay_from, finish, replay_events, check_terminal}
use guildmind.Replay.Balance.{
  Balance, idle, reserving, outstanding, reconciling, spent, charging, charged,
}
use guildmind.Replay.Soundness.{replay_from-Balance, Balance-start}
use guildmind.Replay.Final.{Ended, replay_from-IsFinal}

module _ {F : Type 0} ⦃fl : Float F⦄ ⦃cn : Canonical F⦄ where
  -- A successful replay: the chain is intact, and the loop ran to a cursor with this state.
  pub record Replayed (final : Bool) (es : List (EventRecord F)) (s : ReplayState F) : Type 0 where
    pub first : String
    pub cursor : Cursor F
    pub chain : verify_event_chain es ≡ ok tt
    pub ran : replay_from (start first) es ≡ ok cursor
    pub finished : finish final cursor ≡ ok s
    pub state : cursor.state ≡ s

  finish-state :
      (final : Bool) (c : Cursor F) (s : ReplayState F) → finish final c ≡ ok s → c.state ≡ s
  finish-state false c s h = ground arith
  finish-state true c s h = elim (Result-cases (check_terminal c)) [
    | inl (_, bad) ↦ absurd (ground arith)
    | inr (_, good) ↦ ground arith
  ]

  pub replay_events-Replayed :
      (final : Bool) (es : List (EventRecord F)) (s : ReplayState F)
      → replay_events final es ≡ ok s
      → Replayed final es s
  unfolding replay_events
  replay_events-Replayed final [] s h = cc
  replay_events-Replayed final (e ∷ es) s h = elim (Result-cases (verify_event_chain (e ∷ es))) [
    | inl (_, bad) ↦ absurd (ground arith)
    | inr (_, chain) ↦ elim (Result-cases (replay_from (start e.run_id) (e ∷ es))) [
      | inl (_, bad) ↦ absurd (ground arith)
      | inr (c, ran) ↦
          let finished : finish final c ≡ ok s = ground arith in
          record {
            first = e.run_id;
            cursor = c;
            chain = chain;
            ran = ran;
            finished = finished;
            state = finish-state final c s finished;
          }
    ]
  ]

  Replayed-Ended :
      (final : Bool) (es : List (EventRecord F)) (s : ReplayState F) (r : Replayed final es s)
      → is_terminal s.status ≡ true
      → Ended r.cursor
  Replayed-Ended final es s r over =
      replay_from-IsFinal (start r.first) r.cursor es r.ran (λ bad. absurd (cc bad))
        (rw r.state over)

module _ {F : Type 0} ⦃fl : Float F⦄ ⦃cn : Canonical F⦄ (laws : IsFloat F) where
  Replayed-Balance :
      (final : Bool) (es : List (EventRecord F)) (s : ReplayState F) (r : Replayed final es s)
      → Balance r.cursor
  Replayed-Balance final es s r =
      replay_from-Balance laws (start r.first) r.cursor es r.ran (Balance-start laws r.first)

  settled-reserved :
      (c : Cursor F)
      → Balance c
      → c.pending_budget ≡ none
      → c.state.model_request_state ≢ started
      → c.state.budget_reserved ≡ no_usage
  settled-reserved c (idle a b d e f) p n = f
  settled-reserved c (reserving m v a b d e f) p n = absurd (n a)
  settled-reserved c (outstanding m v a b d e f) p n = absurd (n a)
  settled-reserved c (reconciling m u v w l a b d e f) p n = absurd (cc (p, b))
  settled-reserved c (spent m v l a b d f) p n = f
  settled-reserved c (charging m v a b d e f) p n = absurd (cc (p, b))
  settled-reserved c (charged m v a b d e f) p n = f

  -- If a stream replays to a terminal status, then no budget is left reserved and no model request
  -- is left without an answer, whether or not the caller asked for the terminal checks.
  pub replay_terminal_settled :
      (final : Bool) (es : List (EventRecord F)) (s : ReplayState F)
      → replay_events final es ≡ ok s
      → is_terminal s.status ≡ true
      → (s.budget_reserved ≡ no_usage) × (s.model_request_state ≢ started)
  replay_terminal_settled final es s h over =
      let r = replay_events-Replayed final es s h in
      let ended = Replayed-Ended final es s r over in
      let answered : r.cursor.state.model_request_state ≢ started =
        λ e. ground (arith, ended.verdict.answered, e) in
      let reserved =
        settled-reserved r.cursor (Replayed-Balance final es s r) ended.settled answered in
      subst (λ t. (t.budget_reserved ≡ no_usage) × (t.model_request_state ≢ started)) r.state
        (reserved, answered)

  within-maximum :
      (c : Cursor F)
      → Balance c
      → (c.state.model_request_maximum ≡ none → c.state.budget_used ≡ no_usage)
        × ((m : BudgetUsage F)
            → c.state.model_request_maximum ≡ some m
            → usage_at_most c.state.budget_used m ≡ true)
  within-maximum c (idle a b d e f) = (λ _. e, λ m h. absurd (cc (d, h)))
  within-maximum c (reserving m v a b d e f) =
      (λ h. absurd (cc (d, h)), λ n h. ground (arith, nought_at_most laws m v, d, h, e))
  within-maximum c (outstanding m v a b d e f) =
      (λ h. absurd (cc (d, h)), λ n h. ground (arith, nought_at_most laws m v, d, h, e))
  within-maximum c (reconciling m u v w l a b d e f) =
      (λ h. absurd (cc (d, h)), λ n h. ground (arith, nought_at_most laws m v, d, h, e))
  within-maximum c (spent m v l a b d f) = (λ h. absurd (cc (d, h)), λ n h. ground (arith, l, d, h))
  within-maximum c (charging m v a b d e f) =
      (λ h. absurd (cc (d, h)), λ n h. ground (arith, nought_at_most laws m v, d, h, e))
  within-maximum c (charged m v a b d e f) =
      (λ h. absurd (cc (d, h)), λ n h. ground (arith, usage_at_most_refl laws m v, d, h, e))

  -- In every stream that replays, the used budget is zero before a model request is recorded, and
  -- afterwards at most the maximum that the request reserved, in all twelve fields.
  pub replay_used_within :
      (final : Bool) (es : List (EventRecord F)) (s : ReplayState F)
      → replay_events final es ≡ ok s
      → (s.model_request_maximum ≡ none → s.budget_used ≡ no_usage)
        × ((m : BudgetUsage F)
            → s.model_request_maximum ≡ some m
            → usage_at_most s.budget_used m ≡ true)
  replay_used_within final es s h =
      let r = replay_events-Replayed final es s h in
      subst
        (λ t.
          (t.model_request_maximum ≡ none → t.budget_used ≡ no_usage)
          × ((m : BudgetUsage F)
              → t.model_request_maximum ≡ some m
              → usage_at_most t.budget_used m ≡ true))
        r.state (within-maximum r.cursor (Replayed-Balance final es s r))

  ambiguous-charged :
      (c : Cursor F)
      → Balance c
      → c.pending_budget ≡ none
      → c.state.model_request_state ≡ ambiguous
      → c.state.model_request_maximum ≡ some c.state.budget_used
  ambiguous-charged c (charged m v a b d e f) p n = d ∙ ap some (sym e)
  ambiguous-charged c (idle a b d e f) p n = absurd (cc (a, n))
  ambiguous-charged c (reserving m v a b d e f) p n = absurd (cc (a, n))
  ambiguous-charged c (outstanding m v a b d e f) p n = absurd (cc (a, n))
  ambiguous-charged c (reconciling m u v w l a b d e f) p n = absurd (cc (p, b))
  ambiguous-charged c (spent m v l a b d f) p n = absurd (cc (a, n))
  ambiguous-charged c (charging m v a b d e f) p n = absurd (cc (p, b))

  check_ambiguous-eq-ok :
      (status : RunStatus) (reason : Option String)
      → check_ambiguous ambiguous status reason ≡ ok tt
      → (status ≡ infrastructure_error) × (reason ≡ some "ambiguous_model_request")
  unfolding check_ambiguous
  check_ambiguous-eq-ok status none h = ground arith
  check_ambiguous-eq-ok status (some t) h =
      (ground arith, ap some ((eq_iff t "ambiguous_model_request").0 (ground arith)))

  -- If a stream replays to a terminal status after its model request was declared ambiguous, then
  -- the run is an infrastructure error with the reason "ambiguous_model_request", and the used
  -- budget is exactly the maximum that the request reserved.
  pub replay_ambiguous_charged :
      (final : Bool) (es : List (EventRecord F)) (s : ReplayState F)
      → replay_events final es ≡ ok s
      → is_terminal s.status ≡ true
      → s.model_request_state ≡ ambiguous
      → (s.status ≡ infrastructure_error)
        × (s.terminal_reason ≡ some "ambiguous_model_request")
        × (s.model_request_maximum ≡ some s.budget_used)
  replay_ambiguous_charged final es s h over doubt =
      let r = replay_events-Replayed final es s h in
      let ended = Replayed-Ended final es s r over in
      let doubt' : r.cursor.state.model_request_state ≡ ambiguous = rw r.state doubt in
      let (status_eq, reason_eq) =
        check_ambiguous-eq-ok r.cursor.state.status r.cursor.state.terminal_reason
          (rw doubt' at ended.verdict.classified) in
      let used = ambiguous-charged r.cursor (Replayed-Balance final es s r) ended.settled doubt' in
      subst
        (λ t.
          (t.status ≡ infrastructure_error)
          × (t.terminal_reason ≡ some "ambiguous_model_request")
          × (t.model_request_maximum ≡ some t.budget_used))
        r.state (status_eq, reason_eq, used)
