-- ===== src/Replay/Verdict.antt =====
-- What an accepted "run.terminal" has checked.
use guildmind.Common.{
  String, true, false, not, ◌||◌, Option, some, ◌≡◌, arith, ok, is_some, Result-cases, Option-cases,
  inl, inr,
}
use guildmind.Domain.Json.{Fields, get}
use guildmind.Domain.Status.{RunStatus, is_terminal, of_value, terminal_status_matches_outcome}
use guildmind.Replay.State.{ReplayState, started, same_request_state}
use guildmind.Replay.Payload.{require_text, terminal_reason_of}
use guildmind.Replay.Lifecycle.{
  terminal_verdict, check_declared_outcome, check_terminal_reason, check_ambiguous,
  needs_evaluation,
}

pub record Verdict {F : Type 0} (s : ReplayState F) (status : RunStatus) (reason : Option String)
    : Type 0 where
  pub final : is_terminal status ≡ true
  pub answered : same_request_state s.model_request_state started ≡ false
  pub evaluated : (not (needs_evaluation status) || is_some s.evaluation_outcome) ≡ true
  pub agrees : terminal_status_matches_outcome status s.evaluation_outcome ≡ true
  pub explained : check_terminal_reason status reason ≡ ok tt
  pub classified : check_ambiguous s.model_request_state status reason ≡ ok tt

module _ {F : Type 0} where
  pub terminal_verdict-Verdict :
      (p : Fields F) (s : ReplayState F) (v : RunStatus × Option String)
      → terminal_verdict p s ≡ ok v
      → Verdict s v.0 v.1
  unfolding terminal_verdict
  terminal_verdict-Verdict p s v h = elim (Result-cases (require_text p "status")) [
    | inl (_, bad) ↦ absurd (ground arith)
    | inr (raw, raw_eq) ↦ elim (Option-cases (of_value raw)) [
      | inl bad ↦ absurd (ground arith)
      | inr (status, status_eq) ↦
          elim (Result-cases (check_declared_outcome p s.evaluation_outcome)) [
            | inl (_, bad) ↦ absurd (ground arith)
            | inr (_, declared) ↦
                elim (Result-cases (terminal_reason_of (get "terminal_reason" p))) [
                  | inl (_, bad) ↦ absurd (ground arith)
                  | inr (reason, reason_eq) ↦
                      finish status reason raw raw_eq status_eq declared reason_eq
                ]
          ]
    ]
  ]
    where
      finish :
          (status : RunStatus) (reason : Option String) (raw : String)
          → require_text p "status" ≡ ok raw
          → of_value raw ≡ some status
          → check_declared_outcome p s.evaluation_outcome ≡ ok tt
          → terminal_reason_of (get "terminal_reason" p) ≡ ok reason
          → Verdict s v.0 v.1
      finish status reason raw a b d e = elim (Result-cases (check_terminal_reason status reason)) [
        | inl (_, bad) ↦ absurd (ground arith)
        | inr (_, explained) ↦
            elim (Result-cases (check_ambiguous s.model_request_state status reason)) [
              | inl (_, bad) ↦ absurd (ground arith)
              | inr (_, classified) ↦ record {
                final = ground arith;
                answered = ground arith;
                evaluated = ground arith;
                agrees = ground arith;
                explained = ground arith;
                classified = ground arith;
              }
            ]
      ]
