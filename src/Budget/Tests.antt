-- ===== src/Budget/Tests.antt =====
-- Two jobs against a budget of two model calls and forty tokens.
use guildmind.Common.{ℕ, ◌≤◌, List, [], ◌∷◌, none, some, ◌≡◌, refl, ok, err, Error}
use guildmind.Domain.Float.{tick_float}
use guildmind.Domain.Usage.{
  BudgetUsage, no_usage, is_valid_usage, validate_usage, usage_at_most, plus_usage,
}
use guildmind.Domain.Limits.{BudgetLimits, exceeded_limits}
use guildmind.Budget.{
  BudgetAuthority, Call, reserve_call, reconcile_call, release_call, authority, reserve, reconcile,
  release, reserved, run, sum_usage, total_usage,
}
use guildmind.Budget.Amounts.{total}
use guildmind.Budget.Bounded.{committed, run-IsBounded, release-reserve}

abbrev two_calls : BudgetLimits ℕ
two_calls = record {
  max_input_tokens = none;
  max_output_tokens = none;
  max_total_tokens = some 40;
  max_model_calls = some 2;
  max_model_retries = some 0;
  max_tool_calls = none;
  max_tool_cpu_seconds = none;
  max_container_wall_seconds = none;
  max_elapsed_seconds = some 100;
  max_estimated_cost_usd = none;
}

abbrev job : ℕ → BudgetUsage ℕ
job output = record {
  uncached_input_tokens = 5;
  cache_read_input_tokens = 0;
  cache_write_input_tokens = 0;
  output_tokens = output;
  reasoning_tokens = 0;
  model_calls = 1;
  model_retries = 0;
  tool_calls = 0;
  tool_cpu_seconds = 0;
  container_wall_seconds = 0;
  elapsed_seconds = 9;
  estimated_cost_usd = 0;
}

-- The second reservation is refused until the first is reconciled below its maximum.
abbrev session : List (Call ℕ)
session =
    reserve_call "a" (job 20)
    ∷ reserve_call "b" (job 12)
    ∷ reconcile_call "a" (job 10)
    ∷ reserve_call "b" (job 12)
    ∷ release_call "c"
    ∷ []

session_state :
    run session (authority two_calls)
    ≡ record { limits = two_calls; used = job 10; reservations = ("b", job 12) ∷ [] }
unfolding run reserve reconcile release reserved sum_usage total_usage validate_usage is_valid_usage
    plus_usage usage_at_most exceeded_limits
session_state = refl

second_refused :
    reserve "b"
      (job 12)
      (record { limits = two_calls; used = no_usage; reservations = ("a", job 20) ∷ [] })
    ≡ err (Error.budget_exceeded ("total_tokens" ∷ []))
unfolding reserve reserved sum_usage total_usage validate_usage is_valid_usage plus_usage
    exceeded_limits
second_refused = refl

run-IsBounded_example : committed total (run session (authority two_calls)) ≤ 40
unfolding run reserve reconcile release reserved sum_usage total_usage validate_usage is_valid_usage
    plus_usage usage_at_most exceeded_limits
run-IsBounded_example = run-IsBounded two_calls session total 40 refl

abbrev held_state : BudgetAuthority ℕ
held_state = record { limits = two_calls; used = job 10; reservations = ("b", job 12) ∷ [] }

release-reserve_example : release "b" held_state ≡ ok (record held_state { reservations = [] })
unfolding reserve reserved sum_usage total_usage validate_usage is_valid_usage plus_usage
    exceeded_limits
release-reserve_example =
    release-reserve "b" (job 12) (record held_state { reservations = [] }) held_state refl
