-- ===== src/Domain/Json.antt =====
-- `JsonValue`: the values of an event payload.
use guildmind.Common.{ℕ, String, Bool, true, false, Option, none, some, ◌==◌, if◌then◌else◌}

-- Python's unbounded `int`; `negsuc n` is -(n + 1).
pub data ℤ : Type 0 where
  pos : ℕ → ℤ
  negsuc : ℕ → ℤ

mutual
  pub data Json (F : Type 0) : Type 0 where
    null : Json F
    boolean : Bool → Json F
    integer : ℤ → Json F
    number : F → Json F
    text : String → Json F
    array : Items F → Json F
    object : Fields F → Json F

  pub data Items (F : Type 0) : Type 0 where
    nil : Items F
    cons : Json F → Items F → Items F

  -- A `dict` with string keys, in insertion order.
  pub data Fields (F : Type 0) : Type 0 where
    end : Fields F
    field : String → Json F → Fields F → Fields F

module _ {F : Type 0} where
  -- `payload.get(key)`
  abbrev pub get : String → Fields F → Option (Json F)
  get k end = none
  get k (field j v r) = if j == k then some v else get k r

  -- `payload.pop(key, None)`
  abbrev pub pop : String → Fields F → Fields F
  pop k end = end
  pop k (field j v r) = if j == k then r else field j v (pop k r)

  -- Every key is one of the names: pydantic's `extra="forbid"`.
  abbrev pub keys_among : (String → Bool) → Fields F → Bool
  keys_among p end = true
  keys_among p (field k v r) = if p k then keys_among p r else false
