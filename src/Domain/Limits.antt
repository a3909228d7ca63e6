-- ===== src/Domain/Limits.antt =====
-- domain/models.py: `BudgetLimits` and `BudgetUsage.exceeded_limits`.
use guildmind.Common.{
  ℕ, String, Bool, false, not, Option, none, some, List, [], ◌∷◌, ltb, if◌then◌else◌,
}
use guildmind.Domain.Float.{Float}
use guildmind.Domain.Usage.{BudgetUsage, input_tokens, total_tokens}

-- `none` leaves a dimension uncapped.
pub record BudgetLimits (F : Type 0) : Type 0 where
  pub max_input_tokens : Option ℕ
  pub max_output_tokens : Option ℕ
  pub max_total_tokens : Option ℕ
  pub max_model_calls : Option ℕ
  pub max_model_retries : Option ℕ
  pub max_tool_calls : Option ℕ
  pub max_tool_cpu_seconds : Option F
  pub max_container_wall_seconds : Option F
  pub max_elapsed_seconds : Option F
  pub max_estimated_cost_usd : Option F

-- `limit is not None and actual > limit`
abbrev pub is_over : ℕ → Option ℕ → Bool
is_over actual none = false
is_over actual (some limit) = ltb limit actual

-- The names of the rows whose test holds.
abbrev pub named : List (String × Bool) → List String
named [] = []
named ((name, hit) ∷ rows) = if hit then name ∷ named rows else named rows

module _ {F : Type 0} ⦃fl : Float F⦄ where
  -- Both floats are finite, so `actual > limit` is `not (actual <= limit)`.
  abbrev pub is_over_float : F → Option F → Bool
  is_over_float actual none = false
  is_over_float actual (some limit) = not (fl.le actual limit)

  unfoldable pub exceeded_limits : BudgetUsage F → BudgetLimits F → List String
  unfolding input_tokens total_tokens
  exceeded_limits u l = named (
      ("input_tokens", is_over (input_tokens u) l.max_input_tokens)
      ∷ ("output_tokens", is_over u.output_tokens l.max_output_tokens)
      ∷ ("total_tokens", is_over (total_tokens u) l.max_total_tokens)
      ∷ ("model_calls", is_over u.model_calls l.max_model_calls)
      ∷ ("model_retries", is_over u.model_retries l.max_model_retries)
      ∷ ("tool_calls", is_over u.tool_calls l.max_tool_calls)
      ∷ ("tool_cpu_seconds", is_over_float u.tool_cpu_seconds l.max_tool_cpu_seconds)
      ∷ (
        "container_wall_seconds",
        is_over_float u.container_wall_seconds l.max_container_wall_seconds,
      )
      ∷ ("elapsed_seconds", is_over_float u.elapsed_seconds l.max_elapsed_seconds)
      ∷ ("estimated_cost_usd", is_over_float u.estimated_cost_usd l.max_estimated_cost_usd)
      ∷ [])
