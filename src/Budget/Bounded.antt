-- ===== src/Budget/Bounded.antt =====
-- The promise of the authority: spent and reserved usage together stay within every counted cap.
use guildmind.Common.{
  ℕ, ◌+◌, ◌≤◌, String, true, false, some, List, [], ◌∷◌, ◌≡◌, refl, arith, Dict, insert, erase,
  lookup, has_key, Result, ok, err, sym, ok-injective, not-eq-true, require-eq-ok, or_raise-eq-ok,
  >>=-eq-ok, eq_refl,
}
use guildmind.Domain.Float.{Float}
use guildmind.Domain.Usage.{BudgetUsage, usage_at_most}
use guildmind.Domain.Limits.{BudgetLimits, exceeded_limits}
use guildmind.Budget.{
  BudgetAuthority, Call, reserve_call, reconcile_call, release_call, values, sum_usage, reserved,
  reserve, reconcile, release, call, after, run, authority, is_empty,
}
use guildmind.Budget.Amounts.{
  Dimension, amount, cap, held, amount_mono, amount-sum_values, amount-sum_two, amount-sum_three,
  amount_fits, held-insert, held-erase, amount-no_usage,
}

module _ {F : Type 0} ⦃fl : Float F⦄ where
  abbrev pub committed : Dimension → BudgetAuthority F → ℕ
  committed d a = amount d a.used + held d a.reservations

  -- In each dimension with a cap, what is spent and what is reserved fit together.
  abbrev pub IsBounded : BudgetAuthority F → Type 0
  IsBounded a = (d : Dimension) (n : ℕ) → cap d a.limits ≡ some n → committed d a ≤ n

  -- What a successful `reserve` has checked, and the state that it leaves.
  pub reserve-eq-ok :
      (id : String) (maximum : BudgetUsage F) (a b : BudgetAuthority F)
      → reserve id maximum a ≡ ok b
      → (held_now : BudgetUsage F) × (projected : BudgetUsage F) × (sum_usage
            (values a.reservations)
          ≡ ok held_now)
        × (sum_usage (a.used ∷ held_now ∷ maximum ∷ []) ≡ ok projected)
        × (is_empty (exceeded_limits projected a.limits) ≡ true)
        × (has_key id a.reservations ≡ false)
        × (b ≡ record a { reservations = insert id maximum a.reservations })
  unfolding reserve reserved
  reserve-eq-ok id maximum a b h =
      let (_, h₁) = require-eq-ok _ _ _ h in
      let (new, h₂) = require-eq-ok _ _ _ h₁ in
      let (held_now, held_eq, h₃) = >>=-eq-ok _ _ h₂ in
      let (projected, projected_eq, h₄) = >>=-eq-ok _ _ h₃ in
      let (fits, h₅) = require-eq-ok _ _ _ h₄ in
      (
        held_now,
        projected,
        held_eq,
        projected_eq,
        fits,
        not-eq-true _ new,
        sym (ok-injective _ _ h₅),
      )

  reserve-IsBounded :
      (id : String) (maximum : BudgetUsage F) (a b : BudgetAuthority F)
      → reserve id maximum a ≡ ok b
      → IsBounded b
  reserve-IsBounded id maximum a b h d n e =
      let (held_now, projected, held_eq, projected_eq, fits, new, b_eq) =
        reserve-eq-ok id maximum a b h in
      ground (
        arith,
        amount-sum_values d a.reservations held_now held_eq,
        amount-sum_three d a.used held_now maximum projected projected_eq,
        amount_fits d projected a.limits n fits,
        held-insert d id maximum a.reservations new,
      )

  pub reconcile-eq-ok :
      (id : String) (actual : BudgetUsage F) (a b : BudgetAuthority F)
      → reconcile id actual a ≡ ok b
      → (maximum : BudgetUsage F) × (used' : BudgetUsage F) × (lookup id a.reservations
          ≡ some maximum)
        × (usage_at_most actual maximum ≡ true)
        × (sum_usage (a.used ∷ actual ∷ []) ≡ ok used')
        × (b ≡ record a { used = used'; reservations = erase id a.reservations })
  unfolding reconcile
  reconcile-eq-ok id actual a b h =
      let (maximum, found, h₁) = or_raise-eq-ok _ _ _ h in
      let (within, h₂) = require-eq-ok _ _ _ h₁ in
      let (used', used_eq, h₃) = >>=-eq-ok _ _ h₂ in
      (maximum, used', found, within, used_eq, sym (ok-injective _ _ h₃))

  reconcile-IsBounded :
      (id : String) (actual : BudgetUsage F) (a b : BudgetAuthority F)
      → IsBounded a
      → reconcile id actual a ≡ ok b
      → IsBounded b
  reconcile-IsBounded id actual a b v h d n e =
      let (maximum, used', found, within, used_eq, b_eq) = reconcile-eq-ok id actual a b h in
      ground (
        arith,
        amount_mono d actual maximum within,
        amount-sum_two d a.used actual used' used_eq,
        held-erase d id maximum a.reservations found,
        v d n,
      )

  pub release-eq-ok :
      (id : String) (a b : BudgetAuthority F)
      → release id a ≡ ok b
      → (maximum : BudgetUsage F) × (lookup id a.reservations ≡ some maximum)
        × (b ≡ record a { reservations = erase id a.reservations })
  unfolding release
  release-eq-ok id a b h =
      let (maximum, found, h₁) = or_raise-eq-ok _ _ _ h in
      (maximum, found, sym (ok-injective _ _ h₁))

  release-IsBounded :
      (id : String) (a b : BudgetAuthority F) → IsBounded a → release id a ≡ ok b → IsBounded b
  release-IsBounded id a b v h d n e =
      let (maximum, found, b_eq) = release-eq-ok id a b h in
      ground (arith, held-erase d id maximum a.reservations found, v d n)

  call-IsBounded :
      (c : Call F) (a b : BudgetAuthority F) → IsBounded a → call c a ≡ ok b → IsBounded b
  call-IsBounded (reserve_call id m) a b v h = reserve-IsBounded id m a b h
  call-IsBounded (reconcile_call id u) a b v h = reconcile-IsBounded id u a b v h
  call-IsBounded (release_call id) a b v h = release-IsBounded id a b v h

  after-IsBounded :
      (r : Result (BudgetAuthority F)) (a : BudgetAuthority F)
      → ((b : BudgetAuthority F) → r ≡ ok b → IsBounded b)
      → IsBounded a
      → IsBounded (after r a)
  after-IsBounded (ok b) a step v = step b refl
  after-IsBounded (err e) a step v = v

  run_from-IsBounded :
      (cs : List (Call F)) (a : BudgetAuthority F) → IsBounded a → IsBounded (run cs a)
  unfolding run
  run_from-IsBounded [] a v = v
  run_from-IsBounded (c ∷ cs) a v =
      run_from-IsBounded cs (after (call c a) a)
        (after-IsBounded (call c a) a (λ b h. call-IsBounded c a b v h) v)

  -- Whatever calls a client makes on a new authority, failed ones included, in every counted
  -- dimension that has a cap the usage spent so far and all outstanding reservations together stay
  -- within the cap of the authority that results.
  pub run-IsBounded :
      (limits : BudgetLimits F) (cs : List (Call F)) (d : Dimension) (n : ℕ)
      → cap d (run cs (authority limits)).limits ≡ some n
      → committed d (run cs (authority limits)) ≤ n
  run-IsBounded limits cs =
      run_from-IsBounded cs (authority limits) (λ d n e. omega (arith, amount-no_usage F d))

  erase-insert :
      (id : String) (u : BudgetUsage F) (rs : Dict (BudgetUsage F))
      → has_key id rs ≡ false
      → erase id (insert id u rs) ≡ rs
  erase-insert id u [] h = ground (arith, eq_refl id)
  erase-insert id u ((j, v) ∷ rs) h = ground (arith, erase-insert id u rs)

  lookup-insert_self :
      (id : String) (u : BudgetUsage F) (rs : Dict (BudgetUsage F))
      → lookup id (insert id u rs) ≡ some u
  lookup-insert_self id u [] = ground (arith, eq_refl id)
  lookup-insert_self id u ((j, v) ∷ rs) = ground (arith, eq_refl id, lookup-insert_self id u rs)

  -- If a reservation succeeds, then releasing it also succeeds, and gives back the authority as it
  -- was before the reservation.
  pub release-reserve :
      (id : String) (maximum : BudgetUsage F) (a b : BudgetAuthority F)
      → reserve id maximum a ≡ ok b
      → release id b ≡ ok a
  unfolding release
  release-reserve id maximum a b h =
      let (_, _, _, _, _, new, b_eq) = reserve-eq-ok id maximum a b h in
      rw b_eq (
        ground (
          arith,
          lookup-insert_self id maximum a.reservations,
          erase-insert id maximum a.reservations new,
        ))
