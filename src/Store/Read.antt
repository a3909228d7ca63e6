-- ===== src/Store/Read.antt =====
-- events.py: the readers that verify what they read.
use guildmind.Common.{
  ℕ, suc, String, List, [], ◌∷◌, Bool, true, false, not, ◌&&◌, Option, none, some, Dict, eqb, ◌==◌,
  if◌then◌else◌, Error, Result, ok, err, require, or_raise, ◌>>=◌, ◌>>◌, length, is_some,
}
use guildmind.Domain.Float.{Float}
use guildmind.Domain.Usage.{BudgetUsage, same_usage}
use guildmind.Domain.Status.{is_terminal, same_status, value}
use guildmind.Domain.Event.{ArtifactRef, EventRecord, Canonical, content_hash}
use guildmind.Domain.Manifest.{RunManifest}
use guildmind.Replay.State.{ReplayState}
use guildmind.Replay.Stream.{replay_events}
use guildmind.Store.Tables.{
  Ledger, RunRow, ManifestRow, EventRow, run_row, budget_row, manifest_row, manifest_rows,
  event_rows, order_by,
}
use guildmind.Store.Wire.{Wire}
use guildmind.Store.Manifests.{
  integrity, same_text, same_dict, same_limits, same_manifest, validate_manifest_transition,
  manifest_creation_payload,
}

-- `except ReplayIntegrityError as error: raise StoreIntegrityError(…) from error`
abbrev pub as_store : {A : Type 0} → Result A → Result A
as_store (ok a) = ok a
as_store (err (Error.replay_integrity m)) = err (integrity m)
as_store (err e) = err e

-- `(IndexError, KeyError, ValueError, sqlite3.DatabaseError)`
abbrev pub is_validation_failure : Error → Bool
is_validation_failure (Error.index_error _) = true
is_validation_failure (Error.key_error _) = true
is_validation_failure (Error.value_error _) = true
is_validation_failure Error.validation_error = true
is_validation_failure (Error.constraint _) = true
is_validation_failure _ = false

-- The same classes and `TypeError`
abbrev pub is_ledger_failure : Error → Bool
is_ledger_failure (Error.type_error _) = true
is_ledger_failure e = is_validation_failure e

-- `except StoreIntegrityError: raise`, then the listed classes as "validation failed"; any other
-- exception passes, like a `StoreIntegrityError`.
abbrev pub as_validation_failure : {A : Type 0} → (Error → Bool) → Result A → Result A
as_validation_failure fails (ok a) = ok a
as_validation_failure fails (err e) =
    if fails e then err (integrity "database integrity validation failed") else err e

abbrev pub last : {A : Type 0} → List A → Option A
last [] = none
last (x ∷ []) = some x
last (x ∷ y ∷ ys) = last (y ∷ ys)

abbrev pub first : {A : Type 0} → List A → Option A
first [] = none
first (x ∷ xs) = some x

-- `{name: artifact.sha256 for name, artifact in manifest.artifacts.items()}`
abbrev pub digests : Dict ArtifactRef → Dict String
digests [] = []
digests ((name, a) ∷ rest) = (name, a.sha256) ∷ digests rest

abbrev unknown_run : Error
unknown_run = Error.key_error "unknown run"

abbrev no_element : Error
no_element = Error.index_error "list index out of range"

-- `VerifiedRunRoot`
pub record VerifiedRunRoot (F : Type 0) : Type 0 where
  pub manifest : RunManifest F
  pub manifest_revision : ℕ
  pub manifest_sha256 : String
  pub event_count : ℕ
  pub head_event_sha256 : String

unfoldable pub require_run : String → Ledger → Result (Unit {0})
require_run id l = require (is_some (run_row id l)) unknown_run

-- `all(revision == expected for expected, revision in enumerate(revisions))`
abbrev pub is_numbered : ℕ → List ManifestRow → Bool
is_numbered n [] = true
is_numbered n (r ∷ rs) = eqb r.revision n && is_numbered (suc n) rs

module _ {F : Type 0} ⦃fl : Float F⦄ ⦃cn : Canonical F⦄ (w : Wire F) where
  -- `canonical_sha256(manifest)`
  abbrev pub manifest_hash : RunManifest F → String
  manifest_hash m = cn.sha256_hex (w.manifest_json m)

  unfoldable pub load_manifest_locked : String → Ledger → Result (RunManifest F)
  load_manifest_locked id l = do
    row ← or_raise (run_row id l) unknown_run
    manifest ← w.read_manifest row.manifest_json
    require (manifest_hash manifest == row.manifest_sha256) (integrity "manifest hash mismatch")
    require (row.status == value manifest.status) (integrity "run status index mismatch")
    history ←
        or_raise (manifest_row id row.manifest_revision l)
          (integrity "manifest revision is missing")
    require
        (history.manifest_json == row.manifest_json
          && history.manifest_sha256 == row.manifest_sha256)
        (integrity "manifest revision mismatch")
    ok manifest

  -- `if previous is not None: …`; both classes that the transition raises become one.
  abbrev pub check_previous : Option (RunManifest F) → RunManifest F → Result (Unit {0})
  check_previous none manifest = ok tt
  check_previous (some previous) manifest =
      elim (validate_manifest_transition w previous manifest) [
        | ok x ↦ ok tt
        | err e ↦ err (integrity "invalid manifest history transition")
      ]

  -- The loop over the rows; it returns the last manifest.
  unfoldable pub history_from :
      String → Option (RunManifest F) → List ManifestRow → Result (Option (RunManifest F))
  history_from id previous [] = ok previous
  history_from id previous (row ∷ rows) = do
    manifest ← w.read_manifest row.manifest_json
    require (manifest.run_id == id) (integrity "manifest history run ID mismatch")
    require (row.manifest_json == w.manifest_json manifest)
        (integrity "non-canonical manifest history")
    require (row.manifest_sha256 == manifest_hash manifest)
        (integrity "manifest history hash mismatch")
    check_previous previous manifest
    history_from id (some manifest) rows

  abbrev is_head : Option (RunManifest F) → RunManifest F → Bool
  is_head none current = false
  is_head (some previous) current = same_manifest w previous current

  unfoldable pub validate_manifest_history_locked :
      String → RunManifest F → ℕ → Ledger → Result (Unit {0})
  validate_manifest_history_locked id current revision l = do
    require (eqb (length (manifest_rows id l)) (suc revision) && is_numbered 0 (manifest_rows id l))
        (integrity "non-contiguous manifest history")
    previous ← history_from id none (manifest_rows id l)
    require (is_head previous current) (integrity "manifest history head mismatch")

  unfoldable pub load_budget_locked : String → Ledger → Result (BudgetUsage F × BudgetUsage F)
  load_budget_locked id l = do
    row ← or_raise (budget_row id l) unknown_run
    limits ← w.read_limits row.limits_json
    used ← w.read_usage row.used_json
    reserved ← w.read_usage row.reserved_json
    manifest ← load_manifest_locked id l
    require (same_limits limits manifest.budget_limits) (integrity "budget limits index mismatch")
    require (row.limits_json == w.limits_json limits) (integrity "budget limits index mismatch")
    require (row.used_json == w.usage_json used) (integrity "budget index disagrees")
    require (row.reserved_json == w.usage_json reserved) (integrity "budget index disagrees")
    ok (used, reserved)

  -- The loop over the rows, with `expected_sequence` and `previous_hash`.
  unfoldable pub events_from :
      String → ℕ → Option String → List EventRow → Result (List (EventRecord F))
  events_from id expected previous [] = ok []
  events_from id expected previous (row ∷ rows) = do
    event ← w.read_event row.record_json
    require (row.run_id == id && event.run_id == id) (integrity "event run ownership mismatch")
    require (eqb row.sequence expected && eqb event.sequence expected)
        (integrity "non-contiguous event sequence")
    require (row.event_id == event.event_id) (integrity "event ID index mismatch")
    require (row.event_type == event.event_type) (integrity "event type index mismatch")
    require (row.record_json == cn.event_json event) (integrity "non-canonical event record")
    require (same_text event.previous_event_hash previous) (integrity "broken event predecessor")
    require (content_hash event == row.event_hash) (integrity "event hash mismatch")
    rest ← events_from id (suc expected) (some (content_hash event)) rows
    ok (event ∷ rest)

  -- No rows for a run that exists is the empty list.
  abbrev pub list_rows : String → List EventRow → Ledger → Result (List (EventRecord F))
  list_rows id [] l = do require_run id l; ok []
  list_rows id (row ∷ rows) l = events_from id 0 none (row ∷ rows)

  unfoldable pub list_events_locked : String → Ledger → Result (List (EventRecord F))
  list_events_locked id l = list_rows id (event_rows id l) l

  -- What the manifest and the budget row have to agree on with the replayed state.
  unfoldable pub check_indices :
      String → RunManifest F → EventRecord F → ReplayState F → Ledger → Result (Unit {0})
  check_indices id manifest creation state l = do
    require (w.same_json creation.payload (manifest_creation_payload w.limits_payload manifest))
        (integrity "manifest identity disagrees with run.created")
    (used, reserved) ← load_budget_locked id l
    require (same_status state.status manifest.status)
        (integrity "manifest status disagrees with replayed status")
    require (same_usage state.budget_used used && same_usage state.budget_reserved reserved)
        (integrity "budget index disagrees with replayed budget")
    require (same_dict (λ x y. x == y) state.artifacts (digests manifest.artifacts))
        (integrity "manifest artifacts disagree with replayed bindings")
    require (same_text state.returned_model manifest.returned_model)
        (integrity "manifest returned model disagrees with replay")

  unfoldable pub validated_state_locked : String → RunManifest F → Ledger → Result (ReplayState F)
  validated_state_locked id manifest l = do
    events ← list_events_locked id l
    state ← as_store (replay_events false events)
    creation ← or_raise (first events) no_element
    check_indices id manifest creation state l
    ok state

  unfoldable pub validate_terminal_state_locked :
      String → RunManifest F → Ledger → Result (Unit {0})
  validate_terminal_state_locked id manifest l = do
    state ← validated_state_locked id manifest l
    events ← list_events_locked id l
    final ← as_store (replay_events true events)
    require (same_text state.terminal_reason manifest.terminal_reason)
        (integrity "manifest terminal reason disagrees with replay")

  unfoldable pub validate_budget_update_locked :
      String → BudgetUsage F → BudgetUsage F → Ledger → Result (Unit {0})
  validate_budget_update_locked id used reserved l = do
    (current_used, current_reserved) ← load_budget_locked id l
    require (same_usage used current_used)
        (integrity "budget usage changes require a lifecycle operation")
    require (same_usage reserved current_reserved)
        (integrity "reservation changes require a lifecycle operation")

  -- `if manifest.status.is_terminal: …` of the loop
  abbrev pub check_complete :
      RunManifest F → ReplayState F → List (EventRecord F) → Result (Unit {0})
  check_complete manifest state events =
      if is_terminal manifest.status
      then (do
        final ← as_store (replay_events true events)
        require (same_text state.terminal_reason manifest.terminal_reason)
            (integrity "manifest terminal reason disagrees with replay"))
      else ok tt

  -- One round of the loop over the runs.
  unfoldable pub verified_root : RunRow → Ledger → Result (VerifiedRunRoot F)
  verified_root row l = do
    manifest ← load_manifest_locked row.run_id l
    validate_manifest_history_locked row.run_id manifest row.manifest_revision l
    state ← validated_state_locked row.run_id manifest l
    events ← list_events_locked row.run_id l
    check_complete manifest state events
    head ← or_raise (last events) no_element
    ok (record {
      manifest = manifest;
      manifest_revision = row.manifest_revision;
      manifest_sha256 = manifest_hash manifest;
      event_count = length events;
      head_event_sha256 = content_hash head;
    })

  unfoldable pub roots_of : List RunRow → Ledger → Result (List (VerifiedRunRoot F))
  roots_of [] l = ok []
  roots_of (row ∷ rows) l = do
    root ← verified_root row l
    roots ← roots_of rows l
    ok (root ∷ roots)

  unfoldable pub verified_roots_locked : Ledger → Result (List (VerifiedRunRoot F))
  verified_roots_locked l = do
    w.inspect_sqlite l
    roots_of (order_by (λ (q r : RunRow). w.before q.run_id r.run_id) l.runs) l

  -- The loop of `verified_run_roots_sha256` over the ordered roots.
  abbrev pub identities_from :
      Option String → List (VerifiedRunRoot F) → Result (List (ℕ × String × ℕ × String × String))
  identities_from previous [] = ok []
  identities_from previous (root ∷ roots) = do
    require (not (same_text (some root.manifest.run_id) previous))
        (Error.value_error "duplicate verified run root")
    rest ← identities_from (some root.manifest.run_id) roots
    ok (
        (
          root.event_count, root.head_event_sha256, root.manifest_revision, root.manifest_sha256,
          root.manifest.run_id,
        )
        ∷ rest)

  unfoldable pub verified_run_roots_sha256 : List (VerifiedRunRoot F) → Result String
  verified_run_roots_sha256 roots = do
    identities ←
        identities_from none (
          order_by (λ (q r : VerifiedRunRoot F). w.before q.manifest.run_id r.manifest.run_id)
            roots)
    ok (cn.sha256_hex (w.roots_json identities))
