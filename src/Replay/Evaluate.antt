-- ===== src/Replay/Evaluate.antt =====
-- `replay_events` opened down to its helpers, for evaluation on concrete streams.
use guildmind.Common.{
  has_text, take_chars, is_lower_sha256, drop_chars, all_hex, count_chars, is_hex, is_space, strip,
  strip_left, strip_right,
}
use guildmind.Domain.Parse.{limits_of_json, artifact_of_json, read_usage, usage_of_json}
use guildmind.Domain.Status.{of_value, terminal_status_matches_outcome}
use guildmind.Domain.Usage.{
  add_usage, is_underflow, is_valid_usage, minus_usage, plus_usage, same_usage, subtract_usage,
  usage_at_most, validate_usage,
}
use guildmind.Replay.Artifacts.{
  artifact_position, validate_artifact_position, on_artifact_recorded, on_artifact_not_produced,
  on_evaluation_completed,
}
use guildmind.Replay.Lifecycle.{
  on_run_created, on_run_started, check_ambiguous, check_declared_outcome, check_terminal_reason,
  on_run_terminal, terminal_verdict,
}
use guildmind.Replay.Payload.{
  validate_creation_payload, require_text, require_sha256, terminal_reason_of, usage_from_payload,
  validate_artifact_payload,
}
use guildmind.Replay.Requests.{
  check_snapshot, expected_budget, on_budget_snapshot, on_model_request_ambiguous,
  on_model_request_started, on_model_response_completed,
}
use guildmind.Replay.Chain.{verify_event_chain}
use guildmind.Replay.State.{event_kind}
use guildmind.Replay.Stream.{
  replay_from, replay_step, apply_event, dispatch, check_terminal, replay_events,
}
use guildmind.Common.{Bool, List, Result}
use guildmind.Domain.Float.{Float}
use guildmind.Domain.Event.{EventRecord, Canonical}
use guildmind.Replay.State.{ReplayState}

unfoldable pub evaluate :
    {F : Type 0} ⦃fl : Float F⦄ ⦃cn : Canonical F⦄
    → Bool
    → List (EventRecord F)
    → Result (ReplayState F)
unfolding has_text take_chars is_lower_sha256 drop_chars all_hex count_chars is_hex is_space strip
    strip_left strip_right limits_of_json artifact_of_json read_usage usage_of_json of_value
    terminal_status_matches_outcome add_usage is_underflow is_valid_usage minus_usage plus_usage
    same_usage subtract_usage usage_at_most validate_usage artifact_position
    validate_artifact_position on_artifact_recorded on_artifact_not_produced on_evaluation_completed
    on_run_created on_run_started check_ambiguous check_declared_outcome check_terminal_reason
    on_run_terminal terminal_verdict validate_creation_payload require_text require_sha256
    terminal_reason_of usage_from_payload validate_artifact_payload check_snapshot expected_budget
    on_budget_snapshot on_model_request_ambiguous on_model_request_started
    on_model_response_completed verify_event_chain event_kind replay_from replay_step apply_event
    dispatch check_terminal replay_events
evaluate final es = replay_events final es
