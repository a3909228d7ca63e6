-- ===== src/Domain/Usage.antt =====
-- domain/models.py: `BudgetUsage`, and the arithmetic that replay.py, events.py and budget.py do
-- over `_USAGE_FIELDS`. The constant field `schema_version` is left out of the record.
pub mod Laws
use guildmind.Common.{
  ℕ, ◌+◌, ◌-◌, Bool, true, false, not, ◌&&◌, ◌||◌, leb, eqb, ltb, Error, Result, ok, err,
  if◌then◌else◌, String,
}
use guildmind.Domain.Float.{Float}

pub record BudgetUsage (F : Type 0) : Type 0 where
  pub uncached_input_tokens : ℕ
  pub cache_read_input_tokens : ℕ
  pub cache_write_input_tokens : ℕ
  pub output_tokens : ℕ
  pub reasoning_tokens : ℕ
  pub model_calls : ℕ
  pub model_retries : ℕ
  pub tool_calls : ℕ
  pub tool_cpu_seconds : F
  pub container_wall_seconds : F
  pub elapsed_seconds : F
  pub estimated_cost_usd : F

module _ {F : Type 0} ⦃fl : Float F⦄ where
  -- `BudgetUsage()`
  abbrev pub no_usage : BudgetUsage F
  no_usage = record {
    uncached_input_tokens = 0;
    cache_read_input_tokens = 0;
    cache_write_input_tokens = 0;
    output_tokens = 0;
    reasoning_tokens = 0;
    model_calls = 0;
    model_retries = 0;
    tool_calls = 0;
    tool_cpu_seconds = fl.nought;
    container_wall_seconds = fl.nought;
    elapsed_seconds = fl.nought;
    estimated_cost_usd = fl.nought;
  }

  -- What the constructor accepts: finite non-negative floats, reasoning within the output.
  unfoldable pub is_valid_usage : BudgetUsage F → Bool
  is_valid_usage u =
      fl.is_valid u.tool_cpu_seconds
      && fl.is_valid u.container_wall_seconds
      && fl.is_valid u.elapsed_seconds
      && fl.is_valid u.estimated_cost_usd
      && leb u.reasoning_tokens u.output_tokens

  -- `BudgetUsage.model_validate` of values for all fields.
  unfoldable pub validate_usage : BudgetUsage F → Result (BudgetUsage F)
  validate_usage u = if is_valid_usage u then ok u else err Error.validation_error

  -- `left == right`
  unfoldable pub same_usage : BudgetUsage F → BudgetUsage F → Bool
  same_usage u v =
      eqb u.uncached_input_tokens v.uncached_input_tokens
      && eqb u.cache_read_input_tokens v.cache_read_input_tokens
      && eqb u.cache_write_input_tokens v.cache_write_input_tokens
      && eqb u.output_tokens v.output_tokens
      && eqb u.reasoning_tokens v.reasoning_tokens
      && eqb u.model_calls v.model_calls
      && eqb u.model_retries v.model_retries
      && eqb u.tool_calls v.tool_calls
      && fl.eq u.tool_cpu_seconds v.tool_cpu_seconds
      && fl.eq u.container_wall_seconds v.container_wall_seconds
      && fl.eq u.elapsed_seconds v.elapsed_seconds
      && fl.eq u.estimated_cost_usd v.estimated_cost_usd

  -- `_usage_at_most`, `_fits_within`, `_usage_is_nondecreasing`
  unfoldable pub usage_at_most : BudgetUsage F → BudgetUsage F → Bool
  usage_at_most u v =
      leb u.uncached_input_tokens v.uncached_input_tokens
      && leb u.cache_read_input_tokens v.cache_read_input_tokens
      && leb u.cache_write_input_tokens v.cache_write_input_tokens
      && leb u.output_tokens v.output_tokens
      && leb u.reasoning_tokens v.reasoning_tokens
      && leb u.model_calls v.model_calls
      && leb u.model_retries v.model_retries
      && leb u.tool_calls v.tool_calls
      && fl.le u.tool_cpu_seconds v.tool_cpu_seconds
      && fl.le u.container_wall_seconds v.container_wall_seconds
      && fl.le u.elapsed_seconds v.elapsed_seconds
      && fl.le u.estimated_cost_usd v.estimated_cost_usd

  -- The sums over `_USAGE_FIELDS`, before validation.
  unfoldable pub plus_usage : BudgetUsage F → BudgetUsage F → BudgetUsage F
  plus_usage u v = record {
    uncached_input_tokens = u.uncached_input_tokens + v.uncached_input_tokens;
    cache_read_input_tokens = u.cache_read_input_tokens + v.cache_read_input_tokens;
    cache_write_input_tokens = u.cache_write_input_tokens + v.cache_write_input_tokens;
    output_tokens = u.output_tokens + v.output_tokens;
    reasoning_tokens = u.reasoning_tokens + v.reasoning_tokens;
    model_calls = u.model_calls + v.model_calls;
    model_retries = u.model_retries + v.model_retries;
    tool_calls = u.tool_calls + v.tool_calls;
    tool_cpu_seconds = fl.plus u.tool_cpu_seconds v.tool_cpu_seconds;
    container_wall_seconds = fl.plus u.container_wall_seconds v.container_wall_seconds;
    elapsed_seconds = fl.plus u.elapsed_seconds v.elapsed_seconds;
    estimated_cost_usd = fl.plus u.estimated_cost_usd v.estimated_cost_usd;
  }

  -- `_add_usage`
  unfoldable pub add_usage : BudgetUsage F → BudgetUsage F → Result (BudgetUsage F)
  unfolding plus_usage validate_usage
  add_usage u v = validate_usage (plus_usage u v)

  -- The differences; `-` on ℕ stops at 0, so they are read only past `is_underflow`.
  unfoldable pub minus_usage : BudgetUsage F → BudgetUsage F → BudgetUsage F
  minus_usage u v = record {
    uncached_input_tokens = u.uncached_input_tokens - v.uncached_input_tokens;
    cache_read_input_tokens = u.cache_read_input_tokens - v.cache_read_input_tokens;
    cache_write_input_tokens = u.cache_write_input_tokens - v.cache_write_input_tokens;
    output_tokens = u.output_tokens - v.output_tokens;
    reasoning_tokens = u.reasoning_tokens - v.reasoning_tokens;
    model_calls = u.model_calls - v.model_calls;
    model_retries = u.model_retries - v.model_retries;
    tool_calls = u.tool_calls - v.tool_calls;
    tool_cpu_seconds = fl.minus u.tool_cpu_seconds v.tool_cpu_seconds;
    container_wall_seconds = fl.minus u.container_wall_seconds v.container_wall_seconds;
    elapsed_seconds = fl.minus u.elapsed_seconds v.elapsed_seconds;
    estimated_cost_usd = fl.minus u.estimated_cost_usd v.estimated_cost_usd;
  }

  -- `any(value < 0 for value in values.values())`
  unfoldable pub is_underflow : BudgetUsage F → BudgetUsage F → Bool
  is_underflow u v =
      ltb u.uncached_input_tokens v.uncached_input_tokens
      || ltb u.cache_read_input_tokens v.cache_read_input_tokens
      || ltb u.cache_write_input_tokens v.cache_write_input_tokens
      || ltb u.output_tokens v.output_tokens
      || ltb u.reasoning_tokens v.reasoning_tokens
      || ltb u.model_calls v.model_calls
      || ltb u.model_retries v.model_retries
      || ltb u.tool_calls v.tool_calls
      || not (fl.le fl.nought (fl.minus u.tool_cpu_seconds v.tool_cpu_seconds))
      || not (fl.le fl.nought (fl.minus u.container_wall_seconds v.container_wall_seconds))
      || not (fl.le fl.nought (fl.minus u.elapsed_seconds v.elapsed_seconds))
      || not (fl.le fl.nought (fl.minus u.estimated_cost_usd v.estimated_cost_usd))

  -- `_subtract_usage`; replay.py and events.py raise their own class on an underflow.
  unfoldable pub subtract_usage :
      (String → Error) → BudgetUsage F → BudgetUsage F → Result (BudgetUsage F)
  unfolding minus_usage is_underflow validate_usage
  subtract_usage raise u v =
      if is_underflow u v
      then err (raise "budget reservation reconciliation underflowed")
      else validate_usage (minus_usage u v)

module _ {F : Type 0} where
  -- The derived counts.
  unfoldable pub input_tokens : BudgetUsage F → ℕ
  input_tokens u = u.uncached_input_tokens + u.cache_read_input_tokens + u.cache_write_input_tokens

  unfoldable pub total_tokens : BudgetUsage F → ℕ
  unfolding input_tokens
  total_tokens u = input_tokens u + u.output_tokens
