-- ===== src/Store/Write.antt =====
-- events.py: the writers inside a transaction, and `_transaction` itself.
use guildmind.Common.{
  ℕ, suc, String, List, [], ◌∷◌, ◌++◌, Bool, false, not, Option, none, some, ◌==◌, if◌then◌else◌,
  Error, Result, ok, or_raise, concat,
}
use guildmind.Domain.Float.{Float}
use guildmind.Domain.Json.{object, Fields, end, field}
use guildmind.Domain.Usage.{BudgetUsage}
use guildmind.Domain.Status.{value}
use guildmind.Domain.Event.{EventRecord, Canonical, content_hash, payload_hash, validate_event}
use guildmind.Domain.Manifest.{RunManifest}
use guildmind.Replay.Stream.{replay_events}
use guildmind.Store.Exec.{Exec, pure, lift, reads, writes, check, ◌>>=◌, ◌>>◌}
use guildmind.Store.Tables.{
  Ledger, EventRow, run_row, event_rows, insert_manifest, insert_event, update_run, update_budget,
  tick,
}
use guildmind.Store.Wire.{Wire, ClockStamp}
use guildmind.Store.Manifests.{integrity, validate_manifest_transition}
use guildmind.Store.Read.{
  VerifiedRunRoot, as_store, as_validation_failure, is_ledger_failure, last, load_manifest_locked,
  list_events_locked, verified_roots_locked, manifest_hash,
}

-- What the store was opened with: `_read_only`, and whether there is an `_existing_path_identity`.
pub record Handle : Type 0 where
  pub read_only : Bool
  pub opens_existing : Bool

abbrev pub next_sequence : Option EventRow → ℕ
next_sequence none = 0
next_sequence (some row) = suc row.sequence

abbrev pub previous_hash : Option EventRow → Option String
previous_hash none = none
previous_hash (some row) = some row.event_hash

abbrev pub default_parents : Option EventRow → List String
default_parents none = []
default_parents (some row) = row.event_id ∷ []

module _ {F : Type 0} ⦃fl : Float F⦄ ⦃cn : Canonical F⦄ (w : Wire F) where
  -- `self._clock.stamp()`
  unfoldable pub take_stamp : Exec Ledger ClockStamp
  take_stamp = do now ← reads (λ l. ok (w.stamp l.ticks)); writes tick; pure now

  -- The record that `_append_locked` makes after the last row of the run.
  unfoldable pub next_event :
      String → String → Fields F → Option EventRow → ClockStamp → EventRecord F
  next_event id kind payload prior now = record {
    event_id = concat id (concat ":event:" (w.decimal_08 (next_sequence prior)));
    run_id = id;
    sequence = next_sequence prior;
    causal_parent_ids = default_parents prior;
    event_type = kind;
    monotonic_ns = now.monotonic_ns;
    occurred_at = now.occurred_at;
    payload = payload;
    payload_sha256 = payload_hash payload;
    previous_event_hash = previous_hash prior;
  }

  unfoldable pub event_row : EventRecord F → EventRow
  event_row e = record {
    run_id = e.run_id;
    sequence = e.sequence;
    event_id = e.event_id;
    event_type = e.event_type;
    record_json = cn.event_json e;
    event_hash = content_hash e;
  }

  -- Every caller leaves `causal_parent_ids` to its default.
  unfoldable pub append_locked : String → String → Fields F → Exec Ledger (EventRecord F)
  append_locked id kind payload = do
    prior ← reads (λ l. ok (last (event_rows id l)))
    now ← take_stamp
    event ← lift (validate_event (next_event id kind payload prior now))
    events ← reads (list_events_locked w id)
    state ← lift (as_store (replay_events false (events ++ event ∷ [])))
    writes (insert_event (event_row event))
    pure event

  unfoldable pub append_budget_snapshot_locked :
      String → BudgetUsage F → BudgetUsage F → Exec Ledger (EventRecord F)
  append_budget_snapshot_locked id used reserved = append_locked id "budget.snapshot" (
      field "used" (object (w.usage_payload used))
        (field "reserved" (object (w.usage_payload reserved)) end))

  unfoldable pub save_manifest_locked : String → RunManifest F → Exec Ledger (Unit {0})
  save_manifest_locked id manifest = do
    check (manifest.run_id == id) (Error.value_error "manifest run ID does not match event run ID")
    current ← reads (load_manifest_locked w id)
    lift (validate_manifest_transition w current manifest)
    row ← reads (λ l. or_raise (run_row id l) (Error.key_error "unknown run"))
    writes (
        insert_manifest (record {
          run_id = id;
          revision = suc row.manifest_revision;
          manifest_json = w.manifest_json manifest;
          manifest_sha256 = manifest_hash w manifest;
        }))
    writes (
        update_run (record {
          run_id = id;
          status = value manifest.status;
          manifest_revision = suc row.manifest_revision;
          manifest_json = w.manifest_json manifest;
          manifest_sha256 = manifest_hash w manifest;
        }))

  unfoldable pub update_budget_locked :
      String → BudgetUsage F → BudgetUsage F → Exec Ledger (Unit {0})
  update_budget_locked id used reserved =
      writes (update_budget id (w.usage_json used) (w.usage_json reserved))

  unfoldable pub validate_full_ledger_locked : Ledger → Result (List (VerifiedRunRoot F))
  validate_full_ledger_locked l =
      as_validation_failure is_ledger_failure (verified_roots_locked w l)

  -- The checks before `yield` of a store that was opened on an existing file.
  unfoldable pub entry_checks : Handle → Exec Ledger (Unit {0})
  entry_checks h =
      if h.opens_existing
      then (do
        reads w.inspect_schema
        roots ← reads validate_full_ledger_locked
        reads w.inspect_path)
      else pure tt

  unfoldable pub exit_roots : Handle → Exec Ledger (List (VerifiedRunRoot F))
  exit_roots h =
      if h.opens_existing
      then (do reads w.inspect_schema; reads validate_full_ledger_locked)
      else reads (verified_roots_locked w)

  -- `with self._transaction(precommit_integrity_guard=guard): body`. A raise rolls back.
  unfoldable pub transaction :
      {A : Type 0}
      → Handle
      → (List (VerifiedRunRoot F) → Result (Unit {0}))
      → Exec Ledger A
      → Exec Ledger A
  transaction h guard body = do
    check (not h.read_only) (integrity "event store is read-only")
    reads w.inspect_path
    reads w.inspect_path
    entry_checks h
    result ← body
    reads w.inspect_path
    roots ← exit_roots h
    lift (guard roots)
    reads w.inspect_path
    pure result

-- A `precommit_integrity_guard` of `None`.
abbrev pub no_guard : {F : Type 0} → List (VerifiedRunRoot F) → Result (Unit {0})
no_guard roots = ok tt
