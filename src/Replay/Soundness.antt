-- ===== src/Replay/Soundness.antt =====
-- The loop of `replay_events` keeps the accounts, and a terminal run has settled them.
use guildmind.Common.{
  String, List, [], ◌∷◌, Bool, true, false, not, ◌||◌, none, ◌≡◌, refl, arith, ok, is_some,
  Result-cases, inl, inr, require-eq-ok, eq_iff, ok-injective,
}
use mathlib.Core.Path.{subst}
use guildmind.Domain.Float.{Float, IsFloat}
use guildmind.Domain.Json.{Fields}
use guildmind.Domain.Status.{is_terminal}
use guildmind.Domain.Event.{EventRecord}
use guildmind.Replay.State.{
  Cursor, EventKind, run_created, run_started, model_request_started, model_response_completed,
  model_request_ambiguous, budget_snapshot, artifact_recorded, artifact_not_produced,
  evaluation_completed, run_terminal, unknown, event_kind, is_budget_snapshot, start,
}
use guildmind.Replay.Stream.{
  dispatch, apply_event, after_creation, count_event, replay_step, replay_from,
}
use guildmind.Replay.Balance.{Balance, SameAccounts, idle, Balance-same}
use guildmind.Replay.Steps.{
  on_run_created-same, on_run_started-same, on_run_terminal-same, on_artifact_recorded-same,
  on_artifact_not_produced-same, on_evaluation_completed-same, on_model_request_started-Requested,
  on_model_response_completed-Responded, on_model_request_ambiguous-Doubted,
}
use guildmind.Replay.Accounts.{
  Requested-Balance, Responded-Balance, Doubted-Balance, Snapshotted-Balance,
  on_budget_snapshot-Snapshotted,
}

module _ {F : Type 0} ⦃fl : Float F⦄ where
  -- The third guard of the loop.
  abbrev pub gate : EventKind → Cursor F → Bool
  gate kind c = not (is_some c.pending_budget) || is_budget_snapshot kind

  -- An accepted event: its guards, and the cursor before the count.
  pub record Stepped (e : EventRecord F) (c c' : Cursor F) : Type 0 where
    pub same_run : e.run_id ≡ c.state.run_id
    pub not_over : is_terminal c.state.status ≡ false
    pub passed : gate (event_kind e.event_type) c ≡ true
    pub next : Cursor F
    pub applied : apply_event (event_kind e.event_type) e c ≡ ok next
    pub result : c' ≡ count_event next

  pub replay_step-Stepped :
      (e : EventRecord F) (c c' : Cursor F) → replay_step e c ≡ ok c' → Stepped e c c'
  unfolding replay_step
  replay_step-Stepped e c c' h = elim (Result-cases (apply_event (event_kind e.event_type) e c)) [
    | inl (_, bad) ↦ absurd (ground arith)
    | inr (next, applied) ↦ record {
      same_run = ground (arith, eq_iff e.run_id c.state.run_id);
      not_over = ground arith;
      passed = ground arith;
      next = next;
      applied = applied;
      result = ground arith;
    }
  ]

  -- Past creation, the event goes to its branch.
  pub dispatched :
      (kind : EventKind) (p : Fields F) (c c' : Cursor F)
      → after_creation kind p c ≡ ok c'
      → dispatch kind p c ≡ ok c'
  dispatched kind p c c' h = (require-eq-ok c.created _ (dispatch kind p c) h).1

  pub no_pending :
      (c : Cursor F) → (not (is_some c.pending_budget) || false) ≡ true → c.pending_budget ≡ none
  no_pending c h = ground arith

module _ {F : Type 0} ⦃fl : Float F⦄ (laws : IsFloat F) where
  apply_event-Balance :
      (kind : EventKind) (e : EventRecord F) (c c' : Cursor F)
      → apply_event kind e c ≡ ok c'
      → gate kind c ≡ true
      → Balance c
      → Balance c'
  unfolding apply_event dispatch
  apply_event-Balance run_created e c c' h g b =
      Balance-same (on_run_created-same e.sequence e.payload c c' h) b
  apply_event-Balance run_started e c c' h g b =
      Balance-same (on_run_started-same e.payload c c' (dispatched run_started e.payload c c' h)) b
  apply_event-Balance model_request_started e c c' h g b =
      Requested-Balance e.payload c c'
        (on_model_request_started-Requested e.payload c c'
          (dispatched model_request_started e.payload c c' h))
        (no_pending c g) b
  apply_event-Balance model_response_completed e c c' h g b =
      Responded-Balance e.payload c c'
        (on_model_response_completed-Responded e.payload c c'
          (dispatched model_response_completed e.payload c c' h))
        (no_pending c g) b
  apply_event-Balance model_request_ambiguous e c c' h g b =
      Doubted-Balance c c'
        (on_model_request_ambiguous-Doubted e.payload c c'
          (dispatched model_request_ambiguous e.payload c c' h))
        (no_pending c g) b
  apply_event-Balance budget_snapshot e c c' h g b =
      Snapshotted-Balance laws c c'
        (on_budget_snapshot-Snapshotted e.payload c c'
          (dispatched budget_snapshot e.payload c c' h))
        b
  apply_event-Balance artifact_recorded e c c' h g b =
      Balance-same
        (on_artifact_recorded-same e.payload c c' (dispatched artifact_recorded e.payload c c' h)) b
  apply_event-Balance artifact_not_produced e c c' h g b =
      Balance-same
        (on_artifact_not_produced-same e.payload c c'
          (dispatched artifact_not_produced e.payload c c' h))
        b
  apply_event-Balance evaluation_completed e c c' h g b =
      Balance-same
        (on_evaluation_completed-same e.payload c c'
          (dispatched evaluation_completed e.payload c c' h))
        b
  apply_event-Balance run_terminal e c c' h g b =
      Balance-same (on_run_terminal-same e.payload c c' (dispatched run_terminal e.payload c c' h))
        b
  apply_event-Balance unknown e c c' h g b = absurd (cc (dispatched unknown e.payload c c' h))

  count_event-same : (c : Cursor F) → SameAccounts c (count_event c)
  count_event-same c = record {
    pending = refl;
    request = refl;
    maximum = refl;
    used = refl;
    reserved = refl;
  }

  pub replay_step-Balance :
      (e : EventRecord F) (c c' : Cursor F) → replay_step e c ≡ ok c' → Balance c → Balance c'
  replay_step-Balance e c c' h b =
      let s = replay_step-Stepped e c c' h in
      rw s.result (
        Balance-same (count_event-same s.next)
          (apply_event-Balance _ e c s.next s.applied s.passed b))

  pub replay_from-Balance :
      (c c' : Cursor F) (es : List (EventRecord F))
      → replay_from c es ≡ ok c'
      → Balance c
      → Balance c'
  unfolding replay_from
  replay_from-Balance c c' [] h b = subst Balance (ok-injective c c' h) b
  replay_from-Balance c c' (e ∷ es) h b = elim (Result-cases (replay_step e c)) [
    | inl (_, bad) ↦ absurd (ground arith)
    | inr (next, stepped) ↦
        replay_from-Balance next c' es (rw stepped at h) (replay_step-Balance e c next stepped b)
  ]

  pub Balance-start : (id : String) → Balance {F = F} (start id)
  Balance-start id = idle refl refl refl refl refl
