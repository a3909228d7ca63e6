-- ===== src/Replay/Tests.antt =====
-- A run that is interrupted while its model request is outstanding, event by event.
use guildmind.Common.{
  ℕ, String, List, [], ◌∷◌, true, false, Option, none, some, ◌≡◌, ◌≢◌, refl, ok, concat,
}
use guildmind.Domain.Float.{tick_float, tick-IsFloat}
use guildmind.Domain.Json.{pos, null, integer, text, object, Fields, end, field}
use guildmind.Domain.Usage.{BudgetUsage, no_usage, usage_at_most}
use guildmind.Domain.Samples.{usage_to_json}
use guildmind.Domain.Status.{infrastructure_error}
use guildmind.Domain.Event.{EventRecord, Canonical}
use guildmind.Replay.State.{ReplayState, started, ambiguous}
use guildmind.Replay.Stream.{replay_events}
use guildmind.Replay.Evaluate.{evaluate}
use guildmind.Replay.Results.{replay_terminal_settled, replay_used_within, replay_ambiguous_charged}

-- Events are told apart by their IDs.
instance abbrev id_canonical : Canonical ℕ
id_canonical = record {
  event_json = λ e. e.event_id;
  payload_json = λ _. "payload";
  sha256_hex = λ s. s;
}

abbrev digest : String
digest = "0123456789abcdef0123456789abcdef0123456789abcdef0123456789abcdef"

abbrev sample_usage : BudgetUsage ℕ
sample_usage = record {
  uncached_input_tokens = 10;
  cache_read_input_tokens = 0;
  cache_write_input_tokens = 0;
  output_tokens = 20;
  reasoning_tokens = 5;
  model_calls = 1;
  model_retries = 0;
  tool_calls = 0;
  tool_cpu_seconds = 0;
  container_wall_seconds = 0;
  elapsed_seconds = 3;
  estimated_cost_usd = 1;
}

abbrev event : ℕ → String → List String → Option String → String → Fields ℕ → EventRecord ℕ
event n id parents previous kind p = record {
  event_id = id;
  run_id = "run-1";
  sequence = n;
  causal_parent_ids = parents;
  event_type = kind;
  monotonic_ns = n;
  occurred_at = n;
  payload = p;
  payload_sha256 = "payload";
  previous_event_hash = previous;
}

abbrev linked : ℕ → String → String → String → Fields ℕ → EventRecord ℕ
linked n parent id kind p = event n id (parent ∷ []) (some parent) kind p

abbrev creation : Fields ℕ
creation = field "status" (text "pending") (
    field "candidate_id" (text "c") (
      field "code_revision" (text "r") (
        field "experiment_id" (text "x") (
          field "requested_model" (text "m") (
            field "task_id" (text "t") (
              field "environment_digest"
                (text "sha256:0123456789abcdef0123456789abcdef0123456789abcdef0123456789abcdef")
                (field "genome_hash" null (
                  field "seed" (integer (pos 0)) (
                    field "model_parameters" (object end)
                      (field "budget_limits" (object end) end))))))))))

abbrev snapshot : BudgetUsage ℕ → BudgetUsage ℕ → Fields ℕ
snapshot used reserved =
    field "used" (object (usage_to_json used))
      (field "reserved" (object (usage_to_json reserved)) end)

abbrev task_spec : Fields ℕ
task_spec = field "name" (text "task_spec") (
    field "media_type" (text "application/json") (
      field "sha256" (text digest) (
        field "size_bytes" (integer (pos 7))
          (field "storage_ref" (text (concat "sha256/01/" digest)) end))))

abbrev interrupted : List (EventRecord ℕ)
interrupted =
    event 0 "e0" [] none "run.created" creation
    ∷ linked 1 "e0" "e1" "run.started" (field "requested_model" (text "m") end)
    ∷ linked 2 "e1" "e2" "artifact.recorded" task_spec
    ∷ linked 3 "e2" "e3" "model.request_started"
        (field "request_id" (text "q") (field "maximum" (object (usage_to_json sample_usage)) end))
    ∷ linked 4 "e3" "e4" "budget.snapshot" (snapshot no_usage sample_usage)
    ∷ linked 5 "e4" "e5" "model.request_ambiguous" (field "request_id" (text "q") end)
    ∷ linked 6 "e5" "e6" "budget.snapshot" (snapshot sample_usage no_usage)
    ∷ linked 7 "e6" "e7" "run.terminal" (
        field "status" (text "infrastructure_error")
          (field "terminal_reason" (text "ambiguous_model_request") end))
    ∷ []

abbrev ended : ReplayState ℕ
ended = record {
  run_id = "run-1";
  status = infrastructure_error;
  budget_used = sample_usage;
  budget_reserved = no_usage;
  artifacts = ("task_spec", digest) ∷ [];
  absent_artifacts = [];
  evaluation_outcome = none;
  requested_model = some "m";
  model_request_id = some "q";
  model_request_state = ambiguous;
  model_request_maximum = some sample_usage;
  returned_model = none;
  terminal_reason = some "ambiguous_model_request";
  event_count = 8;
}

replay-interrupted : replay_events false interrupted ≡ ok ended
unfolding evaluate
replay-interrupted = refl

replay_terminal_settled_example :
    (ended.budget_reserved ≡ no_usage) × (ended.model_request_state ≢ started)
replay_terminal_settled_example =
    replay_terminal_settled tick-IsFloat false interrupted ended replay-interrupted refl

replay_used_within_example :
    (ended.model_request_maximum ≡ none → ended.budget_used ≡ no_usage)
    × ((m : BudgetUsage ℕ)
        → ended.model_request_maximum ≡ some m
        → usage_at_most ended.budget_used m ≡ true)
replay_used_within_example =
    replay_used_within tick-IsFloat false interrupted ended replay-interrupted

replay_ambiguous_charged_example :
    (ended.status ≡ infrastructure_error)
    × (ended.terminal_reason ≡ some "ambiguous_model_request")
    × (ended.model_request_maximum ≡ some ended.budget_used)
replay_ambiguous_charged_example =
    replay_ambiguous_charged tick-IsFloat false interrupted ended replay-interrupted refl refl
