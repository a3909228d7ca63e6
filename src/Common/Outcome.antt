-- ===== src/Common/Outcome.antt =====
-- The exceptions of the program as values.
use mathlib.Core.Path.{◌≡◌, refl}
use mathlib.Core.Bool.{Bool, true, false}
use mathlib.Core.Logic.{◌⊎◌, inl, inr}
use mathlib.Core.Option.{Option, none, some}
use mathlib.Core.List.{List}
use Prim.Native.String.{String}

-- One constructor for each exception class; the text is the fixed part of the message.
-- pydantic's `ValidationError` is a `ValueError`, and `constraint` is a `sqlite3.DatabaseError`; the
-- errors of the replay, of the stores, of an artifact and of the budget are `RuntimeError`s.
pub data Error : Type 0 where
  replay_integrity store_integrity value_error key_error index_error reservation_exceeded constraint
        os_error artifact_corruption type_error :
      String → Error
  validation_error : Error
  budget_exceeded : List String → Error

-- `ok` for a return, `err` for a raise.
pub data Result {ℓ} (A : Type ℓ) : Type ℓ where
  err : Error → Result A
  ok : A → Result A

module _ {ℓ κ} {A : Type ℓ} {B : Type κ} where
  infixl 5 ◌>>=◌
  abbrev pub ◌>>=◌ : Result A → (A → Result B) → Result B
  err raised >>= rest = err raised
  ok value >>= rest = rest value

  -- A block that returns has returned from its first step.
  pub >>=-eq-ok :
      (step : Result A) (rest : A → Result B) {last : B}
      → (step >>= rest) ≡ ok last
      → (value : A) × (step ≡ ok value) × (rest value ≡ ok last)
  >>=-eq-ok (err raised) rest returned = cc
  >>=-eq-ok (ok value) rest returned = (value, refl, returned)

infixl 5 ◌>>◌
abbrev pub ◌>>◌ {ℓ} : {B : Type ℓ} → Result (Unit {0}) → Result B → Result B
check >> rest = check >>= λ _. rest

-- `if not test: raise error`
abbrev pub require : Bool → Error → Result (Unit {0})
require false raised = err raised
require true raised = ok tt

-- `if value is None: raise error`
abbrev pub or_raise {ℓ} : {A : Type ℓ} → Option A → Error → Result A
or_raise (some value) raised = ok value
or_raise none raised = err raised

-- Inversion of the guards that stand before the rest of a block.
module _ {ℓ} {B : Type ℓ} where
  pub require-eq-ok :
      (test : Bool) (raised : Error) (rest : Result B) {last : B}
      → (require test raised >> rest) ≡ ok last
      → (test ≡ true) × (rest ≡ ok last)
  require-eq-ok true raised rest returned = (refl, returned)
  require-eq-ok false raised rest returned = cc

  pub or_raise-eq-ok {κ} :
      {A : Type κ} (found : Option A) (raised : Error) (rest : A → Result B) {last : B}
      → (or_raise found raised >>= rest) ≡ ok last
      → (value : A) × (found ≡ some value) × (rest value ≡ ok last)
  or_raise-eq-ok (some value) raised rest returned = (value, refl, returned)
  or_raise-eq-ok none raised rest returned = cc

  pub ok-injective : (x y : B) → ok x ≡ ok y → x ≡ y
  ok-injective x y returned = cc

  -- To split on a computed result and keep the equation.
  pub Result-cases :
      (r : Result B) → ((raised : Error) × (r ≡ err raised)) ⊎ ((value : B) × (r ≡ ok value))
  Result-cases (err raised) = inl (raised, refl)
  Result-cases (ok value) = inr (value, refl)
