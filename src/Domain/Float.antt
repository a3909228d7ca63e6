-- ===== src/Domain/Float.antt =====
-- Python's `float` as the code uses it: CPython's numbers are a parameter, with the laws that
-- IEEE arithmetic has on the finite non-negative values that the domain records admit.
-- The two zeros count as one value, as they do under `==`.
use guildmind.Common.{ℕ, ◌+◌, ◌-◌, ◌≡◌, Bool, true, leb, eqb, arith}

pub record Float (F : Type 0) : Type 0 where
  pub nought : F
  pub of_nat : ℕ → F
  pub plus : F → F → F
  pub minus : F → F → F
  pub le : F → F → Bool
  pub eq : F → F → Bool
  -- finite and `>= 0`: what `NonNegativeFloat` accepts
  pub is_valid : F → Bool

-- A valid float.
abbrev pub Valid : {F : Type 0} ⦃fl : Float F⦄ → F → Type 0
Valid ⦃fl⦄ x = fl.is_valid x ≡ true

pub record IsFloat (F : Type 0) ⦃fl : Float F⦄ : Type 0 where
  pub valid_nought : Valid fl.nought
  pub eq-eq : (x y : F) → fl.eq x y ≡ true → x ≡ y
  pub eq_refl : (x : F) → Valid x → fl.eq x x ≡ true
  pub le_refl : (x : F) → Valid x → fl.le x x ≡ true
  pub le_trans : (x y z : F) → fl.le x y ≡ true → fl.le y z ≡ true → fl.le x z ≡ true
  pub nought_le : (x : F) → Valid x → fl.le fl.nought x ≡ true
  pub nought_plus : (x : F) → Valid x → fl.plus fl.nought x ≡ x
  pub plus_nought : (x : F) → Valid x → fl.plus x fl.nought ≡ x
  pub minus_self : (x : F) → Valid x → fl.minus x x ≡ fl.nought
  -- rounding is monotone
  pub le_plus : (x y : F) → Valid x → Valid y → fl.le x (fl.plus x y) ≡ true

-- Whole ticks meet the laws.
instance abbrev pub tick_float : Float ℕ
tick_float = record {
  nought = 0;
  of_nat = λ n. n;
  plus = λ a b. a + b;
  minus = λ a b. a - b;
  le = leb;
  eq = eqb;
  is_valid = λ _. true;
}

pub tick-IsFloat : IsFloat ℕ
tick-IsFloat = record {
  valid_nought = ground arith;
  eq-eq = λ x y h. ground arith;
  eq_refl = λ x h. ground arith;
  le_refl = λ x h. ground arith;
  le_trans = λ x y z h k. ground arith;
  nought_le = λ x h. ground arith;
  nought_plus = λ x h. ground arith;
  plus_nought = λ x h. ground arith;
  minus_self = λ x h. ground arith;
  le_plus = λ x y h k. ground arith;
}
