-- ===== src/Budget.antt =====
-- runtime/budget.py: `BudgetAuthority` authorises work before dispatch and reconciles it afterwards.
-- Every method raises before it writes, so a failed call is an error and no new state.
pub mod Amounts
pub mod Bounded
mod Tests
use guildmind.Common.{
  String, List, [], ◌∷◌, Dict, lookup, has_key, insert, erase, Error, Result, ok, err, require,
  or_raise, ◌>>=◌, ◌>>◌, not, ◌==◌, Bool, true, false,
}
use guildmind.Domain.Float.{Float}
use guildmind.Domain.Usage.{BudgetUsage, no_usage, plus_usage, validate_usage, usage_at_most}
use guildmind.Domain.Limits.{BudgetLimits, exceeded_limits}

pub record BudgetAuthority (F : Type 0) : Type 0 where
  pub limits : BudgetLimits F
  pub used : BudgetUsage F
  pub reservations : Dict (BudgetUsage F)

-- `self._reservations.values()`
abbrev pub values {ℓ} : {V : Type ℓ} → Dict V → List V
values [] = []
values ((k, v) ∷ d) = v ∷ values d

abbrev pub is_empty {ℓ} : {A : Type ℓ} → List A → Bool
is_empty [] = true
is_empty (x ∷ xs) = false

module _ {F : Type 0} ⦃fl : Float F⦄ where
  -- The loop of `sum_usage` over its running totals.
  unfoldable pub total_usage : BudgetUsage F → List (BudgetUsage F) → BudgetUsage F
  total_usage acc [] = acc
  total_usage acc (u ∷ us) = total_usage (plus_usage acc u) us

  unfoldable pub sum_usage : List (BudgetUsage F) → Result (BudgetUsage F)
  sum_usage us = validate_usage (total_usage no_usage us)

  -- `BudgetAuthority(limits)`
  abbrev pub authority : BudgetLimits F → BudgetAuthority F
  authority l = record { limits = l; used = no_usage; reservations = [] }

  -- The property `reserved`.
  unfoldable pub reserved : BudgetAuthority F → Result (BudgetUsage F)
  reserved a = sum_usage (values a.reservations)

  unfoldable pub reserve : String → BudgetUsage F → BudgetAuthority F → Result (BudgetAuthority F)
  reserve id maximum a = do
    require (not (id == "")) (Error.value_error "reservation_id cannot be empty")
    require (not (has_key id a.reservations)) (Error.value_error "reservation already exists")
    held ← reserved a
    projected ← sum_usage (a.used ∷ held ∷ maximum ∷ [])
    let exceeded = exceeded_limits projected a.limits
    require (is_empty exceeded) (Error.budget_exceeded exceeded)
    ok (record a { reservations = insert id maximum a.reservations })

  unfoldable pub reconcile : String → BudgetUsage F → BudgetAuthority F → Result (BudgetAuthority F)
  reconcile id actual a = do
    maximum ← or_raise (lookup id a.reservations) (Error.key_error "unknown reservation")
    require (usage_at_most actual maximum)
        (Error.reservation_exceeded "actual usage exceeds conservative reservation")
    used' ← sum_usage (a.used ∷ actual ∷ [])
    ok (record a { used = used'; reservations = erase id a.reservations })

  unfoldable pub release : String → BudgetAuthority F → Result (BudgetAuthority F)
  release id a = do
    maximum ← or_raise (lookup id a.reservations) (Error.key_error "unknown reservation")
    ok (record a { reservations = erase id a.reservations })

-- A client's calls.
pub data Call (F : Type 0) : Type 0 where
  reserve_call : String → BudgetUsage F → Call F
  reconcile_call : String → BudgetUsage F → Call F
  release_call : String → Call F

module _ {F : Type 0} ⦃fl : Float F⦄ where
  abbrev pub call : Call F → BudgetAuthority F → Result (BudgetAuthority F)
  call (reserve_call id maximum) a = reserve id maximum a
  call (reconcile_call id actual) a = reconcile id actual a
  call (release_call id) a = release id a

  -- An exception leaves the object as it was.
  abbrev pub after : Result (BudgetAuthority F) → BudgetAuthority F → BudgetAuthority F
  after (ok a) b = a
  after (err e) b = b

  unfoldable pub run : List (Call F) → BudgetAuthority F → BudgetAuthority F
  run [] a = a
  run (c ∷ cs) a = run cs (after (call c a) a)
