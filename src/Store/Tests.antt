-- ===== src/Store/Tests.antt =====
-- A run that is created, recovered, and recovered again beside a second run.
use guildmind.Common.{
  ℕ, String, List, [], ◌∷◌, ◌++◌, Result, ok, err, none, some, false, concat, ◌≡◌, ◌≤◌, refl,
}
use guildmind.Domain.Float.{tick_float}
use guildmind.Domain.Event.{EventRecord}
use guildmind.Domain.Manifest.{RunManifest}
use guildmind.Domain.Status.{value}
use guildmind.Replay.State.{ReplayState}
use guildmind.Replay.Stream.{replay_events}
use guildmind.Store.Tables.{
  Ledger, RunRow, EventRow, ManifestRow, BudgetRow, run_row, budget_row, event_rows, manifest_rows,
}
use guildmind.Store.Extends.{rank}
use guildmind.Store.Read.{as_store}
use guildmind.Store.Query.{load_manifest, list_events, load_budget_state}
use guildmind.Store.Samples.{
  sample_wire, sample_handle, no_rows, waiting, other, id_canonical, digit,
}
use guildmind.Store.Operation.{Operation, create, recover, perform_all}
use guildmind.Store.Evaluate.{run_call}
use guildmind.Store.Finality.{perform-Ended}
use guildmind.Store.History.{
  perform_all_append_only, perform_all_advances, perform_all_isolated, perform_all-Ended,
}
use guildmind.Store.Agreement.{Agrees}
use guildmind.Store.Readable.{perform_readable}

abbrev run_1_row : String → ℕ → RunRow
run_1_row status n = record {
  run_id = "run-1";
  status = status;
  manifest_revision = n;
  manifest_json = concat "run-1 " status;
  manifest_sha256 = concat "run-1 " status;
}

abbrev manifest_of : String → ℕ → ManifestRow
manifest_of status n = record {
  run_id = "run-1";
  revision = n;
  manifest_json = concat "run-1 " status;
  manifest_sha256 = concat "run-1 " status;
}

abbrev event_of : ℕ → String → EventRow
event_of n kind =
    let id = concat "run-1:event:0000000" (digit n) in
    record {
      run_id = "run-1";
      sequence = n;
      event_id = id;
      event_type = kind;
      record_json = id;
      event_hash = id;
    }

abbrev budget_of : BudgetRow
budget_of = record {
  run_id = "run-1";
  limits_json = "limits";
  used_json = "usage";
  reserved_json = "usage";
}

abbrev created_ledger : Ledger
created_ledger = record {
  runs = run_1_row "pending" 0 ∷ [];
  run_manifests = manifest_of "pending" 0 ∷ [];
  events = event_of 0 "run.created" ∷ [];
  budget_state = budget_of ∷ [];
  ticks = 1;
}

abbrev recovery_events : List EventRow
recovery_events =
    event_of 1 "artifact.not_produced"
    ∷ event_of 2 "artifact.not_produced"
    ∷ event_of 3 "artifact.not_produced"
    ∷ event_of 4 "artifact.not_produced"
    ∷ event_of 5 "artifact.not_produced"
    ∷ event_of 6 "budget.snapshot"
    ∷ event_of 7 "run.terminal"
    ∷ []

abbrev ended_ledger : Ledger
ended_ledger = record {
  runs = run_1_row "infrastructure_error" 1 ∷ [];
  run_manifests = manifest_of "pending" 0 ∷ manifest_of "infrastructure_error" 1 ∷ [];
  events = event_of 0 "run.created" ∷ recovery_events;
  budget_state = budget_of ∷ [];
  ticks = 8;
}

abbrev recovery : Operation ℕ
recovery = recover "run-1" 9 "interrupted_run_recovered" none none

creation : run_call sample_wire sample_handle (create waiting) no_rows ≡ ok (tt, created_ledger)
unfolding run_call
creation = refl

recovery_ends : run_call sample_wire sample_handle recovery created_ledger ≡ ok (tt, ended_ledger)
unfolding run_call
recovery_ends = refl

abbrev ledger_of : Result (Unit {0} × Ledger) → Ledger
ledger_of (ok (u, l)) = l
ledger_of (err e) = no_rows

perform-Ended_example :
    ledger_of (run_call sample_wire sample_handle recovery ended_ledger) ≡ ended_ledger
unfolding run_call
perform-Ended_example =
    perform-Ended sample_wire sample_handle recovery ended_ledger
      (ledger_of (run_call sample_wire sample_handle recovery ended_ledger))
      (run_1_row "infrastructure_error" 1, refl, refl) refl

abbrev twice : Ledger
twice = perform_all sample_wire sample_handle (recovery ∷ recovery ∷ []) created_ledger

perform_all_append_only_example :
    (es : List EventRow) × (ms : List ManifestRow) × (twice.events ≡ created_ledger.events ++ es)
    × (twice.run_manifests ≡ created_ledger.run_manifests ++ ms)
perform_all_append_only_example =
    perform_all_append_only sample_wire sample_handle (recovery ∷ recovery ∷ []) created_ledger

perform_all_advances_example :
    (q : RunRow) × (run_row "run-1"
        (perform_all sample_wire sample_handle (recovery ∷ []) created_ledger)
      ≡ some q)
    × (rank "pending" ≤ rank q.status)
    × (rank "pending" ≡ 2 → q ≡ run_1_row "pending" 0)
unfolding run_row
perform_all_advances_example =
    perform_all_advances sample_wire sample_handle (recovery ∷ []) created_ledger "run-1"
      (run_1_row "pending" 0) refl

abbrev Same : List (Operation ℕ) → Type 0
Same ops =
    (run_row "run-1" (perform_all sample_wire sample_handle ops ended_ledger)
      ≡ run_row "run-1" ended_ledger)
    × (budget_row "run-1" (perform_all sample_wire sample_handle ops ended_ledger)
        ≡ budget_row "run-1" ended_ledger)
    × (event_rows "run-1" (perform_all sample_wire sample_handle ops ended_ledger)
        ≡ event_rows "run-1" ended_ledger)

perform_all_isolated_example :
    (run_row "run-1" (perform_all sample_wire sample_handle (create other ∷ []) ended_ledger)
      ≡ run_row "run-1" ended_ledger)
    × (budget_row "run-1" (perform_all sample_wire sample_handle (create other ∷ []) ended_ledger)
        ≡ budget_row "run-1" ended_ledger)
    × (event_rows "run-1" (perform_all sample_wire sample_handle (create other ∷ []) ended_ledger)
        ≡ event_rows "run-1" ended_ledger)
    × (manifest_rows "run-1"
          (perform_all sample_wire sample_handle (create other ∷ []) ended_ledger)
        ≡ manifest_rows "run-1" ended_ledger)
perform_all_isolated_example =
    perform_all_isolated sample_wire sample_handle (create other ∷ []) ended_ledger "run-1"
      (refl, tt)

perform_all-Ended_example : Same (create other ∷ recovery ∷ create waiting ∷ [])
unfolding run_row
perform_all-Ended_example =
    perform_all-Ended sample_wire sample_handle (create other ∷ recovery ∷ create waiting ∷ [])
      ended_ledger "run-1" (run_1_row "infrastructure_error" 1, refl, refl)

perform_readable_example :
    (m : RunManifest ℕ) × (es : List (EventRecord ℕ)) × (state : ReplayState ℕ) × (load_manifest
        sample_wire "run-1" ended_ledger
      ≡ ok m)
    × (sample_wire.read_manifest "run-1 infrastructure_error" ≡ ok m)
    × (◌≡◌ {A = String} "infrastructure_error" (value m.status))
    × (list_events sample_wire "run-1" ended_ledger ≡ ok es)
    × (as_store (replay_events false es) ≡ ok state)
    × (load_budget_state sample_wire "run-1" ended_ledger
        ≡ ok (state.budget_used, state.budget_reserved))
    × Agrees sample_wire "run-1" ended_ledger (run_1_row "infrastructure_error" 1) m es state
unfolding run_row run_call
perform_readable_example =
    perform_readable sample_wire sample_handle recovery created_ledger ended_ledger "run-1"
      (run_1_row "infrastructure_error" 1) recovery_ends refl

-- The second run is really created beside the first.
other_created :
    run_row "run-2" (ledger_of (run_call sample_wire sample_handle (create other) ended_ledger))
    ≡ some (record {
      run_id = "run-2";
      status = "pending";
      manifest_revision = 0;
      manifest_json = "run-2 pending";
      manifest_sha256 = "run-2 pending";
    })
unfolding run_call
other_created = refl
