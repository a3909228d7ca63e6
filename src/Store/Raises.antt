-- ===== src/Store/Raises.antt =====
-- events.py: which exceptions the verification of a ledger raises.
use guildmind.Common.{
  ℕ, String, List, [], ◌∷◌, Bool, true, false, Option, none, some, refl, Error, Result, ok, err,
  Catchable, catch_rules, Catchable-ok, Catchable-bind, Catchable-raise,
}
use guildmind.Domain.Float.{Float}
use guildmind.Domain.Event.{EventRecord, Canonical}
use guildmind.Domain.Manifest.{RunManifest}
use guildmind.Replay.State.{ReplayState}
use guildmind.Replay.Stream.{replay_events}
use guildmind.Replay.PayloadRaises.{is_replay_failure}
use guildmind.Replay.Raises.{replay_events-Catchable}
use guildmind.Store.Tables.{Ledger, RunRow, ManifestRow, EventRow, event_rows}
use guildmind.Store.Wire.{Wire}
use guildmind.Store.Manifests.{integrity, validate_manifest_transition}
use guildmind.Store.Read.{
  as_store, load_manifest_locked, check_previous, history_from, validate_manifest_history_locked,
  load_budget_locked, events_from, list_rows, list_events_locked, require_run, check_indices,
  validated_state_locked, check_complete, verified_root, roots_of, verified_roots_locked,
}

-- The classes that a verification may raise: of SQLite and the file system, of the store itself, of
-- a missing row or event, and of the readers of records.
abbrev pub is_ledger_fault : Error → Bool
is_ledger_fault (Error.os_error _) = true
is_ledger_fault (Error.constraint _) = true
is_ledger_fault (Error.store_integrity _) = true
is_ledger_fault (Error.value_error _) = true
is_ledger_fault (Error.key_error _) = true
is_ledger_fault (Error.index_error _) = true
is_ledger_fault Error.validation_error = true
is_ledger_fault _ = false

abbrev pub Faults : {A : Type 0} → Result A → Type 0
Faults r = Catchable is_ledger_fault r

-- What the ledger takes from elsewhere raises such classes.
pub record Reads {F : Type 0} (w : Wire F) : Type 0 where
  pub manifests : (s : String) → Faults (w.read_manifest s)
  pub events : (s : String) → Faults (w.read_event s)
  pub limits : (s : String) → Faults (w.read_limits s)
  pub usages : (s : String) → Faults (w.read_usage s)
  pub schema : (l : Ledger) → Faults (w.inspect_schema l)
  pub sqlite : (l : Ledger) → Faults (w.inspect_sqlite l)

-- A refused replay becomes an error of the store.
as_store-Catchable :
    {A : Type 0} (r : Result A) → Catchable is_replay_failure r → Faults (as_store r)
as_store-Catchable (ok a) p = Catchable-ok a
as_store-Catchable (err (Error.replay_integrity m)) p = Catchable-raise _ refl
as_store-Catchable (err (Error.value_error m)) p = Catchable-raise _ refl
as_store-Catchable (err Error.validation_error) p = Catchable-raise _ refl
as_store-Catchable (err (Error.store_integrity m)) p = Catchable-raise _ refl
as_store-Catchable (err (Error.key_error m)) p = Catchable-raise _ refl
as_store-Catchable (err (Error.index_error m)) p = Catchable-raise _ refl
as_store-Catchable (err (Error.constraint m)) p = Catchable-raise _ refl
as_store-Catchable (err (Error.os_error m)) p = Catchable-raise _ refl
as_store-Catchable (err (Error.reservation_exceeded m)) p = absurd (cc (p.caught _ refl))
as_store-Catchable (err (Error.artifact_corruption m)) p = absurd (cc (p.caught _ refl))
as_store-Catchable (err (Error.type_error m)) p = absurd (cc (p.caught _ refl))
as_store-Catchable (err (Error.budget_exceeded m)) p = absurd (cc (p.caught _ refl))

module _ {F : Type 0} ⦃fl : Float F⦄ ⦃cn : Canonical F⦄ where
  replayed-Catchable :
      (ended : Bool) (es : List (EventRecord F)) → Faults (as_store (replay_events ended es))
  replayed-Catchable ended es = as_store-Catchable _ (replay_events-Catchable ended es)

  check_complete-Catchable :
      (w : Wire F) (m : RunManifest F) (s : ReplayState F) (es : List (EventRecord F))
      → Faults (check_complete w m s es)
  check_complete-Catchable w m s es = search (catch_rules, replayed-Catchable)

  module _ (w : Wire F) (b : Reads w) where
    load_manifest_locked-Catchable :
        (id : String) (l : Ledger) → Faults (load_manifest_locked w id l)
    unfolding load_manifest_locked
    load_manifest_locked-Catchable id l = search (catch_rules, b.manifests) depth 24 fits 8000

    check_previous-Catchable :
        (p : Option (RunManifest F)) (m : RunManifest F) → Faults (check_previous w p m)
    check_previous-Catchable none m = Catchable-ok tt
    check_previous-Catchable (some p) m = from (validate_manifest_transition w p m)
      where
        from :
            (r : Result (Unit {0}))
            → Faults {A = Unit {0}} (elim r [
              | ok x ↦ ok tt
              | err e ↦ err (integrity "invalid manifest history transition")
            ])
        from (ok x) = Catchable-ok tt
        from (err e) = Catchable-raise _ refl

    history_from-Catchable :
        (id : String) (p : Option (RunManifest F)) (rows : List ManifestRow)
        → Faults (history_from w id p rows)
    unfolding history_from
    history_from-Catchable id p [] = Catchable-ok p
    history_from-Catchable id p (row ∷ rows) =
        let others : (m : Option (RunManifest F)) → Faults (history_from w id m rows) =
          λ m. history_from-Catchable id m rows in
        search (catch_rules, b.manifests, check_previous-Catchable, others) depth 40 fits 16000

    validate_manifest_history_locked-Catchable :
        (id : String) (m : RunManifest F) (n : ℕ) (l : Ledger)
        → Faults (validate_manifest_history_locked w id m n l)
    unfolding validate_manifest_history_locked
    validate_manifest_history_locked-Catchable id m n l =
        search (catch_rules, history_from-Catchable) depth 24 fits 8000

    load_budget_locked-Catchable : (id : String) (l : Ledger) → Faults (load_budget_locked w id l)
    unfolding load_budget_locked
    load_budget_locked-Catchable id l =
        search (catch_rules, b.limits, b.usages, load_manifest_locked-Catchable) depth 40 fits 16000

    events_from-Catchable :
        (id : String) (n : ℕ) (previous : Option String) (rows : List EventRow)
        → Faults (events_from w id n previous rows)
    unfolding events_from
    events_from-Catchable id n previous [] = Catchable-ok []
    events_from-Catchable id n previous (row ∷ rows) =
        let others : (n : ℕ) (p : Option String) → Faults (events_from w id n p rows) =
          λ n p. events_from-Catchable id n p rows in
        search (catch_rules, b.events, others) depth 50 fits 20000

    list_rows-Catchable :
        (id : String) (rows : List EventRow) (l : Ledger) → Faults (list_rows w id rows l)
    unfolding require_run
    list_rows-Catchable id [] l = search (catch_rules)
    list_rows-Catchable id (row ∷ rows) l = events_from-Catchable id 0 none (row ∷ rows)

    list_events_locked-Catchable : (id : String) (l : Ledger) → Faults (list_events_locked w id l)
    unfolding list_events_locked
    list_events_locked-Catchable id l = list_rows-Catchable id (event_rows id l) l

    check_indices-Catchable :
        (id : String) (m : RunManifest F) (creation : EventRecord F) (s : ReplayState F)
        (l : Ledger)
        → Faults (check_indices w id m creation s l)
    unfolding check_indices
    check_indices-Catchable id m creation s l =
        search (catch_rules, load_budget_locked-Catchable) depth 40 fits 16000

    validated_state_locked-Catchable :
        (id : String) (m : RunManifest F) (l : Ledger) → Faults (validated_state_locked w id m l)
    unfolding validated_state_locked
    validated_state_locked-Catchable id m l =
        search
          (catch_rules, list_events_locked-Catchable, replayed-Catchable, check_indices-Catchable)
          depth 40 fits 16000

    verified_root-Catchable : (row : RunRow) (l : Ledger) → Faults (verified_root w row l)
    unfolding verified_root
    verified_root-Catchable row l =
        search
          (
            catch_rules, load_manifest_locked-Catchable, validate_manifest_history_locked-Catchable,
            validated_state_locked-Catchable, list_events_locked-Catchable,
            check_complete-Catchable,
          )
          depth 40 fits 16000

    roots_of-Catchable : (rows : List RunRow) (l : Ledger) → Faults (roots_of w rows l)
    unfolding roots_of
    roots_of-Catchable [] l = Catchable-ok []
    roots_of-Catchable (row ∷ rows) l = Catchable-bind _ _ (verified_root-Catchable row l) (λ root.
        Catchable-bind _ _ (roots_of-Catchable rows l) (λ roots. Catchable-ok (root ∷ roots)))

    pub verified_roots_locked-Catchable : (l : Ledger) → Faults (verified_roots_locked w l)
    unfolding verified_roots_locked
    verified_roots_locked-Catchable l =
        Catchable-bind _ _ (b.sqlite l) (λ _. roots_of-Catchable _ l)
