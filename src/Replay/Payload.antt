-- ===== src/Replay/Payload.antt =====
-- replay.py: the readers of payload fields.
use guildmind.Common.{
  String, Bool, true, false, ◌&&◌, Option, none, some, Error, Result, ok, err, require, ◌>>=◌, ◌>>◌,
  ◌==◌, if◌then◌else◌, has_text, is_lower_sha256, take_chars, drop_chars, concat,
}
use guildmind.Domain.Float.{Float}
use guildmind.Domain.Json.{pos, Json, null, integer, text, object, Fields, get}
use guildmind.Domain.Usage.{BudgetUsage}
use guildmind.Domain.Parse.{usage_of_json, limits_of_json, artifact_of_json}

abbrev pub reject : String → Error
reject message = Error.replay_integrity message

-- `except ValidationError as error: raise ReplayIntegrityError(...) from error`
abbrev pub recast {ℓ} : {A : Type ℓ} → Result A → Error → Result A
recast (ok a) e = ok a
recast (err _) e = err e

-- `value == expected` for a text in an optional place
abbrev pub is_text : Option String → String → Bool
is_text none s = false
is_text (some t) s = t == s

abbrev pub is_sha256_digest : String → Bool
is_sha256_digest s = take_chars 7 s == "sha256:" && is_lower_sha256 (drop_chars 7 s)

module _ {F : Type 0} where
  abbrev pub json_text : Option (Json F) → Option String
  json_text (some (text s)) = some s
  json_text _ = none

  -- `value is None`, for a key that is missing or null
  abbrev pub is_null : Option (Json F) → Bool
  is_null none = true
  is_null (some null) = true
  is_null _ = false

  -- `_require_nonempty_string`
  unfoldable pub require_text : Fields F → String → Result String
  require_text payload key = elim (json_text (get key payload)) [
    | none ↦ err (reject "event payload is missing a text")
    | some s ↦ if has_text s then ok s else err (reject "event payload is missing a text")
  ]

  -- `_require_sha256`
  unfoldable pub require_sha256 : Fields F → String → Result String
  require_sha256 payload key = do
    digest ← require_text payload key
    require (is_lower_sha256 digest) (reject "event payload has an invalid digest")
    ok digest

  -- `value is not None and (not isinstance(value, str) or …)` of the genome hash
  abbrev pub is_optional_sha256 : Option (Json F) → Bool
  is_optional_sha256 none = true
  is_optional_sha256 (some null) = true
  is_optional_sha256 (some (text s)) = is_lower_sha256 s
  is_optional_sha256 _ = false

  abbrev pub is_nonnegative_integer : Option (Json F) → Bool
  is_nonnegative_integer (some (integer (pos n))) = true
  is_nonnegative_integer _ = false

  abbrev pub is_object : Option (Json F) → Bool
  is_object (some (object fs)) = true
  is_object _ = false

  -- `payload["terminal_reason"]`: a text that is not blank, or nothing.
  unfoldable pub terminal_reason_of : Option (Json F) → Result (Option String)
  terminal_reason_of none = ok none
  terminal_reason_of (some null) = ok none
  terminal_reason_of (some (text s)) =
      if has_text s
      then ok (some s)
      else err (reject "terminal_reason must be a nonempty string or null")
  terminal_reason_of _ = err (reject "terminal_reason must be a nonempty string or null")

module _ {F : Type 0} ⦃fl : Float F⦄ where
  -- `_validate_artifact_payload`
  unfoldable pub validate_artifact_payload : Fields F → Result (Unit {0})
  validate_artifact_payload payload = do
    reference ←
        recast (artifact_of_json payload) (reject "artifact event has invalid reference metadata")
    let expected =
        concat "sha256/" (concat (take_chars 2 reference.sha256) (concat "/" reference.sha256))
    require (reference.storage_ref == expected)
        (reject "artifact event storage reference disagrees with its digest")

  abbrev pub usage_of_field : Option (Json F) → Result (BudgetUsage F)
  usage_of_field (some (object fs)) =
      recast (usage_of_json fs) (reject "event payload contains invalid usage")
  usage_of_field _ = err (reject "event payload is missing usage")

  -- `_usage_from_payload`
  unfoldable pub usage_from_payload : Fields F → String → Result (BudgetUsage F)
  usage_from_payload payload key = usage_of_field (get key payload)

  abbrev pub limits_check : Option (Json F) → Result (Unit {0})
  limits_check (some (object fs)) =
      recast (limits_of_json fs >>= λ _. ok tt) (reject "run.created has invalid budget limits")
  limits_check _ = err (reject "run.created has invalid budget limits")

  -- `_validate_creation_payload`
  unfoldable pub validate_creation_payload : Fields F → Result (Unit {0})
  validate_creation_payload payload = do
    candidate ← require_text payload "candidate_id"
    revision ← require_text payload "code_revision"
    experiment ← require_text payload "experiment_id"
    model ← require_text payload "requested_model"
    task ← require_text payload "task_id"
    environment ← require_text payload "environment_digest"
    require (is_sha256_digest environment) (reject "run.created has an invalid environment digest")
    require (is_optional_sha256 (get "genome_hash" payload))
        (reject "run.created has an invalid genome hash")
    require (is_nonnegative_integer (get "seed" payload)) (reject "run.created has an invalid seed")
    require (is_object (get "model_parameters" payload))
        (reject "run.created has invalid model parameters")
    limits_check (get "budget_limits" payload)
