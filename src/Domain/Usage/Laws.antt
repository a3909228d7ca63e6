-- ===== src/Domain/Usage/Laws.antt =====
-- The laws of usage arithmetic that replay and the ledger rest on.
use guildmind.Common.{true, false, ◌≡◌, ok, Error, String, arith}
use guildmind.Domain.Float.{Float, IsFloat}
use guildmind.Domain.Usage.{
  BudgetUsage, no_usage, is_valid_usage, validate_usage, same_usage, usage_at_most, plus_usage,
  minus_usage, is_underflow, subtract_usage,
}

module _ {F : Type 0} ⦃fl : Float F⦄ (laws : IsFloat F) where
  pub same_usage-eq : (u v : BudgetUsage F) → same_usage u v ≡ true → u ≡ v
  unfolding same_usage
  same_usage-eq u v h = ground (
    arith,
    laws.eq-eq u.tool_cpu_seconds v.tool_cpu_seconds,
    laws.eq-eq u.container_wall_seconds v.container_wall_seconds,
    laws.eq-eq u.elapsed_seconds v.elapsed_seconds,
    laws.eq-eq u.estimated_cost_usd v.estimated_cost_usd,
  )

  pub same_usage_refl : (u : BudgetUsage F) → is_valid_usage u ≡ true → same_usage u u ≡ true
  unfolding same_usage is_valid_usage
  same_usage_refl u h = ground (
    arith,
    laws.eq_refl u.tool_cpu_seconds,
    laws.eq_refl u.container_wall_seconds,
    laws.eq_refl u.elapsed_seconds,
    laws.eq_refl u.estimated_cost_usd,
  )

  pub nought_plus_usage : (u : BudgetUsage F) → is_valid_usage u ≡ true → plus_usage no_usage u ≡ u
  unfolding plus_usage is_valid_usage
  nought_plus_usage u h = ground (
    arith,
    laws.nought_plus u.tool_cpu_seconds,
    laws.nought_plus u.container_wall_seconds,
    laws.nought_plus u.elapsed_seconds,
    laws.nought_plus u.estimated_cost_usd,
  )

  pub plus_nought_usage : (u : BudgetUsage F) → is_valid_usage u ≡ true → plus_usage u no_usage ≡ u
  unfolding plus_usage is_valid_usage
  plus_nought_usage u h = ground (
    arith,
    laws.plus_nought u.tool_cpu_seconds,
    laws.plus_nought u.container_wall_seconds,
    laws.plus_nought u.elapsed_seconds,
    laws.plus_nought u.estimated_cost_usd,
  )

  pub minus_self_usage : (u : BudgetUsage F) → is_valid_usage u ≡ true → minus_usage u u ≡ no_usage
  unfolding minus_usage is_valid_usage
  minus_self_usage u h = ground (
    arith,
    laws.minus_self u.tool_cpu_seconds,
    laws.minus_self u.container_wall_seconds,
    laws.minus_self u.elapsed_seconds,
    laws.minus_self u.estimated_cost_usd,
  )

  pub usage_at_most_refl : (u : BudgetUsage F) → is_valid_usage u ≡ true → usage_at_most u u ≡ true
  unfolding usage_at_most is_valid_usage
  usage_at_most_refl u h = ground (
    arith,
    laws.le_refl u.tool_cpu_seconds,
    laws.le_refl u.container_wall_seconds,
    laws.le_refl u.elapsed_seconds,
    laws.le_refl u.estimated_cost_usd,
  )

  pub nought_at_most :
      (u : BudgetUsage F) → is_valid_usage u ≡ true → usage_at_most no_usage u ≡ true
  unfolding usage_at_most is_valid_usage
  nought_at_most u h = ground (
    arith,
    laws.nought_le u.tool_cpu_seconds,
    laws.nought_le u.container_wall_seconds,
    laws.nought_le u.elapsed_seconds,
    laws.nought_le u.estimated_cost_usd,
  )

  pub usage_at_most-plus :
      (u v : BudgetUsage F)
      → is_valid_usage u ≡ true
      → is_valid_usage v ≡ true
      → usage_at_most u (plus_usage u v) ≡ true
  unfolding usage_at_most is_valid_usage plus_usage
  usage_at_most-plus u v h k = ground (
    arith,
    laws.le_plus u.tool_cpu_seconds v.tool_cpu_seconds,
    laws.le_plus u.container_wall_seconds v.container_wall_seconds,
    laws.le_plus u.elapsed_seconds v.elapsed_seconds,
    laws.le_plus u.estimated_cost_usd v.estimated_cost_usd,
  )

  pub usage_at_most_trans :
      (u v w : BudgetUsage F)
      → usage_at_most u v ≡ true
      → usage_at_most v w ≡ true
      → usage_at_most u w ≡ true
  unfolding usage_at_most
  usage_at_most_trans u v w h k = ground (
    arith,
    laws.le_trans u.tool_cpu_seconds v.tool_cpu_seconds w.tool_cpu_seconds,
    laws.le_trans u.container_wall_seconds v.container_wall_seconds w.container_wall_seconds,
    laws.le_trans u.elapsed_seconds v.elapsed_seconds w.elapsed_seconds,
    laws.le_trans u.estimated_cost_usd v.estimated_cost_usd w.estimated_cost_usd,
  )

  pub no_usage_valid : is_valid_usage {F = F} no_usage ≡ true
  unfolding is_valid_usage
  no_usage_valid = ground (arith, laws.valid_nought)

  pub is_underflow_self : (u : BudgetUsage F) → is_valid_usage u ≡ true → is_underflow u u ≡ false
  unfolding is_underflow is_valid_usage
  is_underflow_self u h = ground (
    arith,
    laws.le_refl fl.nought laws.valid_nought,
    laws.minus_self u.tool_cpu_seconds,
    laws.minus_self u.container_wall_seconds,
    laws.minus_self u.elapsed_seconds,
    laws.minus_self u.estimated_cost_usd,
  )

  pub subtract_usage_self :
      (raise : String → Error) (u : BudgetUsage F)
      → is_valid_usage u ≡ true
      → subtract_usage raise u u ≡ ok no_usage
  unfolding subtract_usage validate_usage
  subtract_usage_self raise u h = rw (is_underflow_self u h, minus_self_usage u h, no_usage_valid)
