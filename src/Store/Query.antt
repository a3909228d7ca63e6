-- ===== src/Store/Query.antt =====
-- events.py: the methods that only read.
use guildmind.Common.{String, List, [], ◌∷◌, if◌then◌else◌, Result, ok, ◌>>=◌, ◌>>◌, concat}
use guildmind.Domain.Float.{Float}
use guildmind.Domain.Usage.{BudgetUsage}
use guildmind.Domain.Status.{is_terminal}
use guildmind.Domain.Event.{EventRecord, Canonical}
use guildmind.Domain.Manifest.{RunManifest}
use guildmind.Replay.Stream.{replay_events}
use guildmind.Store.Tables.{Ledger, RunRow, order_by}
use guildmind.Store.Wire.{Wire}
use guildmind.Store.Read.{
  VerifiedRunRoot, as_store, as_validation_failure, is_validation_failure, load_manifest_locked,
  list_events_locked, validated_state_locked, validate_terminal_state_locked, verified_roots_locked,
}
use guildmind.Store.Write.{Handle}

-- `"".join(f"{line}\n" for line in lines)`
abbrev join_lines : List String → String
join_lines [] = ""
join_lines (line ∷ lines) = concat line (concat "\n" (join_lines lines))

abbrev ids_of : List RunRow → List String
ids_of [] = []
ids_of (row ∷ rows) = row.run_id ∷ ids_of rows

module _ {F : Type 0} ⦃fl : Float F⦄ ⦃cn : Canonical F⦄ (w : Wire F) where
  unfoldable pub load_manifest : String → Ledger → Result (RunManifest F)
  load_manifest id l = do
    manifest ← load_manifest_locked w id l
    state ← validated_state_locked w id manifest l
    (if is_terminal manifest.status then validate_terminal_state_locked w id manifest l else ok tt)
    ok manifest

  unfoldable pub load_budget_state : String → Ledger → Result (BudgetUsage F × BudgetUsage F)
  load_budget_state id l = do
    manifest ← load_manifest_locked w id l
    state ← validated_state_locked w id manifest l
    ok (state.budget_used, state.budget_reserved)

  unfoldable pub list_events : String → Ledger → Result (List (EventRecord F))
  list_events id l = do
    events ← list_events_locked w id l
    manifest ← load_manifest_locked w id l
    replayed ← as_store (replay_events (is_terminal manifest.status) events)
    state ← validated_state_locked w id manifest l
    ok events

  unfoldable pub list_run_ids : Ledger → List String
  list_run_ids l = ids_of (order_by (λ (q r : RunRow). w.before q.run_id r.run_id) l.runs)

  abbrev lines_of : List (EventRecord F) → List String
  lines_of [] = []
  lines_of (e ∷ es) = cn.event_json e ∷ lines_of es

  unfoldable pub events_jsonl : String → Ledger → Result String
  events_jsonl id l = do events ← list_events id l; ok (join_lines (lines_of events))

  -- `verified_snapshot`, up to its `yield`, with the checks after it: a connection is idle here.
  abbrev pub snapshot_roots : Handle → Ledger → Result (List (VerifiedRunRoot F))
  snapshot_roots h l = do
    w.inspect_path l
    (if h.opens_existing then w.inspect_schema l else ok tt)
    verified_roots_locked w l

  unfoldable pub verify_integrity : Handle → Ledger → Result (List (VerifiedRunRoot F))
  verify_integrity h l = do
    w.inspect_path l
    roots ← as_validation_failure is_validation_failure (snapshot_roots h l)
    w.inspect_path l
    ok roots
