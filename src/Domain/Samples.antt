-- ===== src/Domain/Samples.antt =====
-- Payloads of usages and limits for the tests: what pydantic's `model_dump` gives is a parameter of the
-- model, and this is one such function.
use guildmind.Common.{ℕ, Option, none, some}
use guildmind.Domain.Json.{pos, Json, null, integer, number, text, Fields, end, field}
use guildmind.Domain.Usage.{BudgetUsage}
use guildmind.Domain.Limits.{BudgetLimits}

-- A usage as a payload, over whole ticks.
abbrev pub usage_to_json : BudgetUsage ℕ → Fields ℕ
usage_to_json u = field "schema_version" (text "0.1") (
    field "uncached_input_tokens" (integer (pos u.uncached_input_tokens)) (
      field "cache_read_input_tokens" (integer (pos u.cache_read_input_tokens)) (
        field "cache_write_input_tokens" (integer (pos u.cache_write_input_tokens)) (
          field "output_tokens" (integer (pos u.output_tokens)) (
            field "reasoning_tokens" (integer (pos u.reasoning_tokens)) (
              field "model_calls" (integer (pos u.model_calls)) (
                field "model_retries" (integer (pos u.model_retries)) (
                  field "tool_calls" (integer (pos u.tool_calls)) (
                    field "tool_cpu_seconds" (number u.tool_cpu_seconds) (
                      field "container_wall_seconds" (number u.container_wall_seconds) (
                        field "elapsed_seconds" (number u.elapsed_seconds)
                          (field "estimated_cost_usd" (number u.estimated_cost_usd) end))))))))))))

abbrev nat_to_json : Option ℕ → Json ℕ
nat_to_json none = null
nat_to_json (some n) = integer (pos n)

abbrev float_to_json : Option ℕ → Json ℕ
float_to_json none = null
float_to_json (some x) = number x

-- Limits as a payload.
abbrev pub limits_to_json : BudgetLimits ℕ → Fields ℕ
limits_to_json l = field "schema_version" (text "0.1") (
    field "max_input_tokens" (nat_to_json l.max_input_tokens) (
      field "max_output_tokens" (nat_to_json l.max_output_tokens) (
        field "max_total_tokens" (nat_to_json l.max_total_tokens) (
          field "max_model_calls" (nat_to_json l.max_model_calls) (
            field "max_model_retries" (nat_to_json l.max_model_retries) (
              field "max_tool_calls" (nat_to_json l.max_tool_calls) (
                field "max_tool_cpu_seconds" (float_to_json l.max_tool_cpu_seconds) (
                  field "max_container_wall_seconds" (float_to_json l.max_container_wall_seconds) (
                    field "max_elapsed_seconds" (float_to_json l.max_elapsed_seconds) (
                      field "max_estimated_cost_usd" (float_to_json l.max_estimated_cost_usd)
                        end))))))))))
