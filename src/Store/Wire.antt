-- ===== src/Store/Wire.antt =====
-- What the ledger takes from elsewhere: pydantic's reading and dumping and JSON's printing of the
-- records, number
-- formatting, the clock, and the inspections of the database file and of SQLite itself.
use guildmind.Common.{ℕ, String, List, Bool, Result}
use guildmind.Domain.Json.{Fields}
use guildmind.Domain.Usage.{BudgetUsage}
use guildmind.Domain.Limits.{BudgetLimits}
use guildmind.Domain.Event.{EventRecord}
use guildmind.Domain.Manifest.{RunManifest}
use guildmind.Store.Tables.{Ledger}

pub record ClockStamp : Type 0 where
  pub occurred_at : ℕ
  pub monotonic_ns : ℕ

pub record Wire (F : Type 0) : Type 0 where
  -- `canonical_json`, and `model_validate(json.loads(text))`
  pub manifest_json : RunManifest F → String
  pub read_manifest : String → Result (RunManifest F)
  pub read_event : String → Result (EventRecord F)
  pub limits_json : BudgetLimits F → String
  pub read_limits : String → Result (BudgetLimits F)
  pub usage_json : BudgetUsage F → String
  pub read_usage : String → Result (BudgetUsage F)
  -- `canonical_json` of the roots of a snapshot: event count, head, revision, manifest hash, run
  pub roots_json : List (ℕ × String × ℕ × String × String) → String
  -- `model_dump(mode="json")`
  pub usage_payload : BudgetUsage F → Fields F
  pub limits_payload : BudgetLimits F → Fields F
  -- `==` on payloads
  pub same_json : Fields F → Fields F → Bool
  -- `f"{sequence:08d}"`
  pub decimal_08 : ℕ → String
  -- the stamp that the clock gives at its n-th call
  pub stamp : ℕ → ClockStamp
  -- `<` on texts, in Python and in SQLite's binary collation
  pub before : String → String → Bool
  -- `_validate_tracked_path`, `_validate_schema_locked`, `_verify_sqlite_integrity_locked`
  pub inspect_path : Ledger → Result (Unit {0})
  pub inspect_schema : Ledger → Result (Unit {0})
  pub inspect_sqlite : Ledger → Result (Unit {0})
