-- ===== src/Common/Raises.antt =====
-- Blocks whose exceptions are all of given classes, with a rule for each way to build a block.
use mathlib.Core.Path.{◌≡◌, refl, subst}
use mathlib.Core.Bool.{Bool, true, false}
use mathlib.Core.Option.{Option, none, some}
use guildmind.Common.Outcome.{Error, Result, ok, err, require, or_raise, ◌>>=◌}
use guildmind.Common.Tests.{if◌then◌else◌}

pub record Catchable {A : Type 0} (classes : Error → Bool) (r : Result A) : Type 0 where
  pub caught : (e : Error) → r ≡ err e → classes e ≡ true

-- `ValueError`, with pydantic's
abbrev pub is_value_error : Error → Bool
is_value_error (Error.value_error _) = true
is_value_error Error.validation_error = true
is_value_error _ = false

module _ {k : Error → Bool} where
  pub Catchable-ok : {A : Type 0} (a : A) → Catchable k (ok a)
  Catchable-ok a = record { caught = λ e h. absurd (cc h) }

  pub Catchable-raise : {A : Type 0} (e : Error) → k e ≡ true → Catchable {A = A} k (err e)
  Catchable-raise e h = record { caught = λ x same. subst (λ (y : Error). k y ≡ true) (cc same) h }

  pub Catchable-require : (test : Bool) (e : Error) → k e ≡ true → Catchable k (require test e)
  Catchable-require true e h = record { caught = λ x same. absurd (cc same) }
  Catchable-require false e h = Catchable-raise e h

  pub Catchable-or_raise :
      {A : Type 0} (found : Option A) (e : Error) → k e ≡ true → Catchable k (or_raise found e)
  Catchable-or_raise (some a) e h = Catchable-ok a
  Catchable-or_raise none e h = Catchable-raise e h

  pub Catchable-bind :
      {A B : Type 0} (m : Result A) (f : A → Result B)
      → Catchable k m
      → ((a : A) → Catchable k (f a))
      → Catchable k (m >>= f)
  Catchable-bind (ok a) f first rest = rest a
  Catchable-bind (err e) f first rest = record {
    caught = λ x same. subst (λ (y : Error). k y ≡ true) (cc same) (first.caught e refl);
  }

  pub Catchable-if :
      {A : Type 0} (test : Bool) (x y : Result A)
      → Catchable k x
      → Catchable k y
      → Catchable k (if test then x else y)
  Catchable-if true x y p q = p
  Catchable-if false x y p q = q

  -- Classes that contain the others.
  pub Catchable-widen :
      {A : Type 0} (j : Error → Bool) (r : Result A)
      → ((e : Error) → j e ≡ true → k e ≡ true)
      → Catchable j r
      → Catchable k r
  Catchable-widen j r wide p = record { caught = λ e h. wide e (p.caught e h) }

pub ruleset catch_rules = (
  Catchable-bind, Catchable-require, Catchable-or_raise, Catchable-ok, Catchable-if,
  Catchable-raise,
)
