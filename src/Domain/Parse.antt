-- ===== src/Domain/Parse.antt =====
-- pydantic's reading of a payload into the domain records: strict types, defaults for missing
-- fields, no further keys.
use guildmind.Common.{
  ℕ, String, Bool, true, false, Option, none, some, List, [], ◌∷◌, ◌==◌, contains, Error, Result,
  ok, err, require, ◌>>=◌, ◌>>◌, if◌then◌else◌, strip, is_lower_sha256,
}
use guildmind.Domain.Float.{Float}
use guildmind.Domain.Json.{pos, Json, null, integer, number, text, Fields, get, keys_among}
use guildmind.Domain.Limits.{BudgetLimits}
use guildmind.Domain.Event.{ArtifactRef}
use guildmind.Domain.Usage.{BudgetUsage, validate_usage}

abbrev usage_keys : List String
usage_keys =
    "schema_version" ∷ "uncached_input_tokens" ∷ "cache_read_input_tokens"
    ∷ "cache_write_input_tokens" ∷ "output_tokens" ∷ "reasoning_tokens" ∷ "model_calls"
    ∷ "model_retries" ∷ "tool_calls" ∷ "tool_cpu_seconds" ∷ "container_wall_seconds"
    ∷ "elapsed_seconds" ∷ "estimated_cost_usd" ∷ []

abbrev limit_keys : List String
limit_keys =
    "schema_version" ∷ "max_input_tokens" ∷ "max_output_tokens" ∷ "max_total_tokens"
    ∷ "max_model_calls" ∷ "max_model_retries" ∷ "max_tool_calls" ∷ "max_tool_cpu_seconds"
    ∷ "max_container_wall_seconds" ∷ "max_elapsed_seconds" ∷ "max_estimated_cost_usd" ∷ []

module _ {F : Type 0} ⦃fl : Float F⦄ where
  -- `NonNegativeInt`
  abbrev pub nat_of : Json F → Result ℕ
  nat_of (integer (pos n)) = ok n
  nat_of _ = err Error.validation_error

  -- `NonNegativeFloat`, which takes an int too
  abbrev pub float_of : Json F → Result F
  float_of (number x) = if fl.is_valid x then ok x else err Error.validation_error
  float_of (integer (pos n)) =
      if fl.is_valid (fl.of_nat n) then ok (fl.of_nat n) else err Error.validation_error
  float_of _ = err Error.validation_error

  -- A field with a default.
  abbrev pub nat_field : String → Fields F → Result ℕ
  nat_field k fs = elim (get k fs) [ none ↦ ok 0 | some j ↦ nat_of j ]

  abbrev pub float_field : String → Fields F → Result F
  float_field k fs = elim (get k fs) [ none ↦ ok fl.nought | some j ↦ float_of j ]

  -- A field that may be `None`.
  abbrev pub or_null : {A : Type 0} → (Json F → Result A) → Option (Json F) → Result (Option A)
  or_null read none = ok none
  or_null read (some null) = ok none
  or_null read (some j) = read j >>= λ a. ok (some a)

  -- `SchemaVersion`
  abbrev pub is_schema_version : Option (Json F) → Bool
  is_schema_version none = true
  is_schema_version (some (text s)) = s == "0.1"
  is_schema_version (some _) = false

  -- The fields of a usage, before the validators of its values.
  unfoldable pub read_usage : Fields F → Result (BudgetUsage F)
  read_usage fs = do
    require (keys_among (λ k. contains k usage_keys) fs) Error.validation_error
    require (is_schema_version (get "schema_version" fs)) Error.validation_error
    uncached ← nat_field "uncached_input_tokens" fs
    cache_read ← nat_field "cache_read_input_tokens" fs
    cache_write ← nat_field "cache_write_input_tokens" fs
    output ← nat_field "output_tokens" fs
    reasoning ← nat_field "reasoning_tokens" fs
    calls ← nat_field "model_calls" fs
    retries ← nat_field "model_retries" fs
    tools ← nat_field "tool_calls" fs
    cpu ← float_field "tool_cpu_seconds" fs
    wall ← float_field "container_wall_seconds" fs
    elapsed ← float_field "elapsed_seconds" fs
    cost ← float_field "estimated_cost_usd" fs
    ok (record {
      uncached_input_tokens = uncached;
      cache_read_input_tokens = cache_read;
      cache_write_input_tokens = cache_write;
      output_tokens = output;
      reasoning_tokens = reasoning;
      model_calls = calls;
      model_retries = retries;
      tool_calls = tools;
      tool_cpu_seconds = cpu;
      container_wall_seconds = wall;
      elapsed_seconds = elapsed;
      estimated_cost_usd = cost;
    })

  -- `BudgetUsage.model_validate(value)`
  unfoldable pub usage_of_json : Fields F → Result (BudgetUsage F)
  usage_of_json fs = read_usage fs >>= validate_usage

  -- `BudgetLimits.model_validate(value)`
  unfoldable pub limits_of_json : Fields F → Result (BudgetLimits F)
  limits_of_json fs = do
    require (keys_among (λ k. contains k limit_keys) fs) Error.validation_error
    require (is_schema_version (get "schema_version" fs)) Error.validation_error
    input ← or_null nat_of (get "max_input_tokens" fs)
    output ← or_null nat_of (get "max_output_tokens" fs)
    total ← or_null nat_of (get "max_total_tokens" fs)
    calls ← or_null nat_of (get "max_model_calls" fs)
    retries ← or_null nat_of (get "max_model_retries" fs)
    tools ← or_null nat_of (get "max_tool_calls" fs)
    cpu ← or_null float_of (get "max_tool_cpu_seconds" fs)
    wall ← or_null float_of (get "max_container_wall_seconds" fs)
    elapsed ← or_null float_of (get "max_elapsed_seconds" fs)
    cost ← or_null float_of (get "max_estimated_cost_usd" fs)
    ok (record {
      max_input_tokens = input;
      max_output_tokens = output;
      max_total_tokens = total;
      max_model_calls = calls;
      max_model_retries = retries;
      max_tool_calls = tools;
      max_tool_cpu_seconds = cpu;
      max_container_wall_seconds = wall;
      max_elapsed_seconds = elapsed;
      max_estimated_cost_usd = cost;
    })

  -- `NonEmptyStr`: stripped, and not empty then.
  abbrev pub stripped_text : Option (Json F) → Result String
  stripped_text (some (text s)) = if strip s == "" then err Error.validation_error else ok (strip s)
  stripped_text _ = err Error.validation_error

  abbrev pub sha256_text : Option (Json F) → Result String
  sha256_text (some (text s)) = if is_lower_sha256 s then ok s else err Error.validation_error
  sha256_text _ = err Error.validation_error

  abbrev pub required_nat : Option (Json F) → Result ℕ
  required_nat none = err Error.validation_error
  required_nat (some j) = nat_of j

  -- `ArtifactRef.model_validate` of the four values that an artifact payload holds.
  unfoldable pub artifact_of_json : Fields F → Result ArtifactRef
  artifact_of_json fs = do
    media ← stripped_text (get "media_type" fs)
    size ← required_nat (get "size_bytes" fs)
    digest ← sha256_text (get "sha256" fs)
    storage ← stripped_text (get "storage_ref" fs)
    ok (record { media_type = media; size_bytes = size; sha256 = digest; storage_ref = storage })
