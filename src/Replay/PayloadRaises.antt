-- ===== src/Replay/PayloadRaises.antt =====
-- replay.py: which exceptions the readers of payloads raise.
use guildmind.Common.{
  ℕ, String, List, [], ◌∷◌, Bool, true, false, Option, none, some, refl, Error, Result, ok, err,
  ◌>>=◌, Catchable, catch_rules, Catchable-ok, Catchable-bind, Catchable-raise, or_raise,
  if◌then◌else◌, has_text,
}
use guildmind.Domain.Float.{Float}
use guildmind.Domain.Json.{Json, null, boolean, integer, number, text, array, object, Fields, get}
use guildmind.Domain.Usage.{BudgetUsage, validate_usage, add_usage, subtract_usage}
use guildmind.Replay.Payload.{
  reject, recast, json_text, require_text, require_sha256, terminal_reason_of, usage_of_field,
  usage_from_payload, limits_check,
}

-- `ReplayIntegrityError`, and the `ValueError`s of a usage that is computed
abbrev pub is_replay_failure : Error → Bool
is_replay_failure (Error.replay_integrity _) = true
is_replay_failure (Error.value_error _) = true
is_replay_failure Error.validation_error = true
is_replay_failure _ = false

abbrev pub Rejects : {A : Type 0} → Result A → Type 0
Rejects r = Catchable is_replay_failure r

pub Catchable-recast : {A : Type 0} (r : Result A) (m : String) → Rejects (recast r (reject m))
Catchable-recast (ok a) m = Catchable-ok a
Catchable-recast (err e) m = Catchable-raise _ refl

module _ {F : Type 0} where
  pub require_text-Catchable : (p : Fields F) (key : String) → Rejects (require_text p key)
  unfolding require_text
  require_text-Catchable p key = from (json_text (get key p))
    where
      from :
          (found : Option String)
          → Rejects (elim found [
            | none ↦ err (reject "event payload is missing a text")
            | some s ↦ if has_text s then ok s else err (reject "event payload is missing a text")
          ])
      from none = Catchable-raise _ refl
      from (some s) = search (catch_rules)

  pub require_sha256-Catchable : (p : Fields F) (key : String) → Rejects (require_sha256 p key)
  unfolding require_sha256
  require_sha256-Catchable p key = search (catch_rules, require_text-Catchable)

  pub terminal_reason_of-Catchable : (j : Option (Json F)) → Rejects (terminal_reason_of j)
  unfolding terminal_reason_of
  terminal_reason_of-Catchable none = search (catch_rules)
  terminal_reason_of-Catchable (some null) = search (catch_rules)
  terminal_reason_of-Catchable (some (boolean b)) = search (catch_rules)
  terminal_reason_of-Catchable (some (integer n)) = search (catch_rules)
  terminal_reason_of-Catchable (some (number x)) = search (catch_rules)
  terminal_reason_of-Catchable (some (text s)) = search (catch_rules)
  terminal_reason_of-Catchable (some (array xs)) = search (catch_rules)
  terminal_reason_of-Catchable (some (object fs)) = search (catch_rules)

module _ {F : Type 0} ⦃fl : Float F⦄ where
  pub usage_of_field-Catchable : (j : Option (Json F)) → Rejects (usage_of_field j)
  usage_of_field-Catchable none = search (catch_rules)
  usage_of_field-Catchable (some null) = search (catch_rules)
  usage_of_field-Catchable (some (boolean b)) = search (catch_rules)
  usage_of_field-Catchable (some (integer n)) = search (catch_rules)
  usage_of_field-Catchable (some (number x)) = search (catch_rules)
  usage_of_field-Catchable (some (text s)) = search (catch_rules)
  usage_of_field-Catchable (some (array xs)) = search (catch_rules)
  usage_of_field-Catchable (some (object fs)) = Catchable-recast _ _

  pub usage_from_payload-Catchable :
      (p : Fields F) (key : String) → Rejects (usage_from_payload p key)
  unfolding usage_from_payload
  usage_from_payload-Catchable p key = usage_of_field-Catchable (get key p)

  pub limits_check-Catchable : (j : Option (Json F)) → Rejects (limits_check j)
  limits_check-Catchable none = search (catch_rules)
  limits_check-Catchable (some null) = search (catch_rules)
  limits_check-Catchable (some (boolean b)) = search (catch_rules)
  limits_check-Catchable (some (integer n)) = search (catch_rules)
  limits_check-Catchable (some (number x)) = search (catch_rules)
  limits_check-Catchable (some (text s)) = search (catch_rules)
  limits_check-Catchable (some (array xs)) = search (catch_rules)
  limits_check-Catchable (some (object fs)) = Catchable-recast _ _

  pub add_usage-Catchable : (u v : BudgetUsage F) → Rejects (add_usage u v)
  unfolding add_usage validate_usage
  add_usage-Catchable u v = search (catch_rules)

  pub subtract_usage-Catchable : (u v : BudgetUsage F) → Rejects (subtract_usage reject u v)
  unfolding subtract_usage validate_usage
  subtract_usage-Catchable u v = search (catch_rules)

pub ruleset payload_rules = (
  catch_rules, require_text-Catchable, require_sha256-Catchable, terminal_reason_of-Catchable,
  usage_from_payload-Catchable, limits_check-Catchable, add_usage-Catchable,
  subtract_usage-Catchable, Catchable-recast,
)
