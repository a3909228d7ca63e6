-- ===== src/Domain/Event.antt =====
-- domain/models.py: `ArtifactRef` and `EventRecord`, and the hashes of serialization.py.
-- JSON printing and SHA-256 are `json.dumps` and `hashlib`, and so parameters.
use guildmind.Common.{
  ℕ, String, Bool, Option, List, Error, Result, ok, require, ◌>>◌, not, ◌&&◌, eqb, is_some, ◌==◌,
  true, [], ◌∷◌, contains, ◌||◌,
}
use guildmind.Domain.Json.{Fields}

pub record ArtifactRef : Type 0 where
  pub media_type : String
  pub size_bytes : ℕ
  pub sha256 : String
  pub storage_ref : String

-- `occurred_at` counts microseconds in UTC; the two version fields are constants.
pub record EventRecord (F : Type 0) : Type 0 where
  pub event_id : String
  pub run_id : String
  pub sequence : ℕ
  pub causal_parent_ids : List String
  pub event_type : String
  pub monotonic_ns : ℕ
  pub occurred_at : ℕ
  pub payload : Fields F
  pub payload_sha256 : String
  pub previous_event_hash : Option String

-- What `canonical_json` and `sha256_bytes` take from their libraries.
pub record Canonical (F : Type 0) : Type 0 where
  pub event_json : EventRecord F → String
  pub payload_json : Fields F → String
  pub sha256_hex : String → String

abbrev pub all_distinct : List String → Bool
all_distinct [] = true
all_distinct (x ∷ xs) = not (contains x xs) && all_distinct xs

module _ {F : Type 0} ⦃cn : Canonical F⦄ where
  -- `EventRecord.content_hash`, that is `canonical_sha256(self)`
  abbrev pub content_hash : EventRecord F → String
  content_hash e = cn.sha256_hex (cn.event_json e)

  abbrev pub payload_hash : Fields F → String
  payload_hash p = cn.sha256_hex (cn.payload_json p)

  -- The validators of `EventRecord`.
  unfoldable pub validate_event : EventRecord F → Result (EventRecord F)
  validate_event e = do
    require (all_distinct e.causal_parent_ids)
        (Error.value_error "causal parent IDs must be unique")
    require (not (eqb e.sequence 0 && is_some e.previous_event_hash))
        (Error.value_error "the first event cannot have a previous event hash")
    require (eqb e.sequence 0 || is_some e.previous_event_hash)
        (Error.value_error "events after sequence zero require a previous event hash")
    require (e.payload_sha256 == payload_hash e.payload)
        (Error.value_error "payload_sha256 does not match the canonical payload")
    ok e
