-- ===== src/Budget/Amounts.antt =====
-- The counted dimensions of a budget: what a usage spends in each, and the cap on it.
use guildmind.Common.{
  ℕ, ◌+◌, ◌≤◌, String, true, false, Option, some, [], ◌∷◌, ◌≡◌, refl, arith, Dict, insert, erase,
  lookup, has_key, ok,
}
use guildmind.Domain.Float.{Float}
use guildmind.Domain.Usage.{
  BudgetUsage, no_usage, plus_usage, validate_usage, usage_at_most, input_tokens, total_tokens,
}
use guildmind.Domain.Limits.{BudgetLimits, exceeded_limits}
use guildmind.Budget.{values, total_usage, sum_usage, is_empty}

pub data Dimension : Type 0 where
  input output total calls retries tools : Dimension

module _ {F : Type 0} where
  abbrev pub cap : Dimension → BudgetLimits F → Option ℕ
  cap input l = l.max_input_tokens
  cap output l = l.max_output_tokens
  cap total l = l.max_total_tokens
  cap calls l = l.max_model_calls
  cap retries l = l.max_model_retries
  cap tools l = l.max_tool_calls

module _ {F : Type 0} where
  unfoldable pub amount : Dimension → BudgetUsage F → ℕ
  unfolding input_tokens total_tokens
  amount input u = input_tokens u
  amount output u = u.output_tokens
  amount total u = total_tokens u
  amount calls u = u.model_calls
  amount retries u = u.model_retries
  amount tools u = u.tool_calls

pub amount-no_usage : (F : Type 0) ⦃fl : Float F⦄ (d : Dimension) → amount {F = F} d no_usage ≡ 0
unfolding amount
amount-no_usage F input = refl
amount-no_usage F _ = refl

module _ {F : Type 0} ⦃fl : Float F⦄ where
  abbrev pub held : Dimension → Dict (BudgetUsage F) → ℕ
  held d [] = 0
  held d ((k, u) ∷ rs) = amount d u + held d rs

  pub amount-plus :
      (d : Dimension) (u v : BudgetUsage F) → amount d (plus_usage u v) ≡ amount d u + amount d v
  unfolding amount plus_usage
  amount-plus input u v = omega arith
  amount-plus total u v = omega arith
  amount-plus _ u v = refl

  pub amount_mono :
      (d : Dimension) (u v : BudgetUsage F) → usage_at_most u v ≡ true → amount d u ≤ amount d v
  unfolding amount usage_at_most
  amount_mono input u v h = ground arith
  amount_mono _ u v h = ground arith

  amount-total_usage :
      (d : Dimension) (acc : BudgetUsage F) (rs : Dict (BudgetUsage F))
      → amount d (total_usage acc (values rs)) ≡ amount d acc + held d rs
  unfolding total_usage
  amount-total_usage d acc [] = omega arith
  amount-total_usage d acc ((k, u) ∷ rs) =
      omega (arith, amount-total_usage d (plus_usage acc u) rs, amount-plus d acc u)

  pub validate_usage-eq : (u v : BudgetUsage F) → validate_usage u ≡ ok v → u ≡ v
  unfolding validate_usage
  validate_usage-eq u v h = ground arith

  -- What a validated sum of reservations spends.
  pub amount-sum_values :
      (d : Dimension) (rs : Dict (BudgetUsage F)) (v : BudgetUsage F)
      → sum_usage (values rs) ≡ ok v
      → amount d v ≡ held d rs
  unfolding sum_usage
  amount-sum_values d rs v h =
      rw (← validate_usage-eq _ v h)
        (omega (arith, amount-total_usage d no_usage rs, amount-no_usage F d))

  pub amount-sum_two :
      (d : Dimension) (u v w : BudgetUsage F)
      → sum_usage (u ∷ v ∷ []) ≡ ok w
      → amount d w ≡ amount d u + amount d v
  unfolding sum_usage total_usage
  amount-sum_two d u v w h = rw (← validate_usage-eq _ w h) (
      omega (
        arith,
        amount-plus d (plus_usage no_usage u) v,
        amount-plus d no_usage u,
        amount-no_usage F d,
      ))

  pub amount-sum_three :
      (d : Dimension) (u v w x : BudgetUsage F)
      → sum_usage (u ∷ v ∷ w ∷ []) ≡ ok x
      → amount d x ≡ amount d u + amount d v + amount d w
  unfolding sum_usage total_usage
  amount-sum_three d u v w x h = rw (← validate_usage-eq _ x h) (
      omega (
        arith,
        amount-plus d (plus_usage (plus_usage no_usage u) v) w,
        amount-plus d (plus_usage no_usage u) v,
        amount-plus d no_usage u,
        amount-no_usage F d,
      ))

  -- No cap is exceeded exactly when no row of the check is hit; here one direction.
  pub amount_fits :
      (d : Dimension) (u : BudgetUsage F) (l : BudgetLimits F) (n : ℕ)
      → is_empty (exceeded_limits u l) ≡ true
      → cap d l ≡ some n
      → amount d u ≤ n
  unfolding exceeded_limits amount
  amount_fits input u l n h e = ground arith
  amount_fits _ u l n h e = ground arith

  pub held-insert :
      (d : Dimension) (k : String) (u : BudgetUsage F) (rs : Dict (BudgetUsage F))
      → has_key k rs ≡ false
      → held d (insert k u rs) ≡ held d rs + amount d u
  held-insert d k u [] h = omega arith
  held-insert d k u ((j, v) ∷ rs) h = ground (arith, held-insert d k u rs)

  pub held-erase :
      (d : Dimension) (k : String) (u : BudgetUsage F) (rs : Dict (BudgetUsage F))
      → lookup k rs ≡ some u
      → held d (erase k rs) + amount d u ≡ held d rs
  held-erase d k u [] h = cc
  held-erase d k u ((j, v) ∷ rs) h = ground (arith, held-erase d k u rs)
