-- ===== src/Store/Agreement.antt =====
-- What the verification of a run has compared: its rows with the records that it reads from them, and
-- the manifest and the budget row with the state that the events replay to.
use guildmind.Common.{
  ℕ, suc, String, List, [], ◌∷◌, Bool, true, false, ◌&&◌, Option, none, some, ◌≡◌, refl, sym, ap,
  ◌∙◌, eqb, ◌==◌, eq_iff, Error, ok, require, require-eq-ok, or_raise-eq-ok, >>=-eq-ok,
  ok-injective, and-eq-true, eqb_iff,
}
use mathlib.Core.Path.{subst}
use guildmind.Domain.Float.{Float}
use guildmind.Domain.Usage.{BudgetUsage, same_usage}
use guildmind.Domain.Limits.{BudgetLimits}
use guildmind.Domain.Status.{same_status, value}
use guildmind.Domain.Event.{EventRecord, Canonical, content_hash}
use guildmind.Domain.Manifest.{RunManifest}
use guildmind.Replay.State.{ReplayState}
use guildmind.Store.Tables.{
  Ledger, RunRow, EventRow, BudgetRow, run_row, budget_row, manifest_row, event_rows,
}
use guildmind.Store.Wire.{Wire}
use guildmind.Store.Manifests.{same_text, same_dict, same_limits, manifest_creation_payload}
use guildmind.Store.Read.{
  first, digests, require_run, manifest_hash, load_manifest_locked, load_budget_locked, events_from,
  list_rows, list_events_locked, check_indices,
}

passed : (test : Bool) (e : Error) → require test e ≡ ok tt → test ≡ true
passed true e h = refl
passed false e h = absurd (cc h)

same_text-eq : (a b : Option String) → same_text a b ≡ true → a ≡ b
same_text-eq none none h = refl
same_text-eq (some x) (some y) h = ap some ((eq_iff x y).0 h)
same_text-eq none (some y) h = absurd (cc h)
same_text-eq (some x) none h = absurd (cc h)

module _ {F : Type 0} ⦃fl : Float F⦄ ⦃cn : Canonical F⦄ (w : Wire F) where
  -- A row holds an event: its text reads to the event and is the event's canonical text, and its
  -- columns are those of the event, which is the n-th of its run and follows the one before it.
  pub record Holds (id : String) (n : ℕ) (previous : Option String) (row : EventRow)
      (e : EventRecord F) : Type 0 where
    pub reads : w.read_event row.record_json ≡ ok e
    pub text : row.record_json ≡ cn.event_json e
    pub owner : row.run_id ≡ id
    pub event_owner : e.run_id ≡ id
    pub sequence : row.sequence ≡ n
    pub event_sequence : e.sequence ≡ n
    pub event_id : row.event_id ≡ e.event_id
    pub event_type : row.event_type ≡ e.event_type
    pub predecessor : e.previous_event_hash ≡ previous
    pub event_hash : row.event_hash ≡ content_hash e

  -- The rows hold the events one by one.
  abbrev pub AllHold : String → ℕ → Option String → List EventRow → List (EventRecord F) → Type 0
  AllHold id n previous [] [] = Unit {0}
  AllHold id n previous (row ∷ rows) (e ∷ es) =
      Holds id n previous row e × AllHold id (suc n) (some (content_hash e)) rows es
  AllHold id n previous [] (e ∷ es) = true ≡ false
  AllHold id n previous (row ∷ rows) [] = true ≡ false

  -- A usage of a budget row: its text is canonical and reads to a usage equal to the replayed one.
  pub record Shows (text : String) (replayed : BudgetUsage F) : Type 0 where
    pub usage : BudgetUsage F
    pub reads : w.read_usage text ≡ ok usage
    pub canonical : text ≡ w.usage_json usage
    pub equal : same_usage replayed usage ≡ true

  -- The rows of a run, its manifest, its events and the state that they replay to agree.
  pub record Agrees (id : String) (l : Ledger) (row : RunRow) (m : RunManifest F)
      (es : List (EventRecord F)) (s : ReplayState F) : Type 0 where
    pub manifest_hashed : row.manifest_sha256 ≡ manifest_hash w m
    pub events : AllHold id 0 none (event_rows id l) es
    pub budget : BudgetRow
    pub budget_here : budget_row id l ≡ some budget
    pub limits : BudgetLimits F
    pub limits_read : w.read_limits budget.limits_json ≡ ok limits
    pub limits_equal : same_limits limits m.budget_limits ≡ true
    pub used : Shows budget.used_json s.budget_used
    pub reserved : Shows budget.reserved_json s.budget_reserved
    pub status : same_status s.status m.status ≡ true
    pub artifacts : same_dict (λ x y. x == y) s.artifacts (digests m.artifacts) ≡ true
    pub returned_model : s.returned_model ≡ m.returned_model
    pub creation : EventRecord F
    pub created_first : first es ≡ some creation
    pub created : w.same_json creation.payload (manifest_creation_payload w.limits_payload m) ≡ true

  events_from-AllHold :
      (id : String) (n : ℕ) (previous : Option String) (rows : List EventRow)
      (es : List (EventRecord F))
      → events_from w id n previous rows ≡ ok es
      → AllHold id n previous rows es
  unfolding events_from
  events_from-AllHold id n previous [] [] h = tt
  events_from-AllHold id n previous [] (e ∷ es) h = absurd (cc h)
  events_from-AllHold id n previous (row ∷ rows) es h =
      let (e, read, h₁) = >>=-eq-ok (w.read_event row.record_json) _ h in
      let (owners, h₂) = require-eq-ok (row.run_id == id && e.run_id == id) _ _ h₁ in
      let (numbers, h₃) = require-eq-ok (eqb row.sequence n && eqb e.sequence n) _ _ h₂ in
      let (ids, h₄) = require-eq-ok (row.event_id == e.event_id) _ _ h₃ in
      let (types, h₅) = require-eq-ok (row.event_type == e.event_type) _ _ h₄ in
      let (texts, h₆) = require-eq-ok (row.record_json == cn.event_json e) _ _ h₅ in
      let (links, h₇) = require-eq-ok (same_text e.previous_event_hash previous) _ _ h₆ in
      let (hashes, h₈) = require-eq-ok (content_hash e == row.event_hash) _ _ h₇ in
      let (rest, others, last) =
        >>=-eq-ok (events_from w id (suc n) (some (content_hash e)) rows) _ h₈ in
      let (own, event_own) = and-eq-true {a = row.run_id == id} {b = e.run_id == id} owners in
      let (number, event_number) =
        and-eq-true {a = eqb row.sequence n} {b = eqb e.sequence n} numbers in
      subst (AllHold id n previous (row ∷ rows)) (ok-injective (e ∷ rest) es last) (
        record {
          reads = read;
          text = (eq_iff _ _).0 texts;
          owner = (eq_iff _ _).0 own;
          event_owner = (eq_iff _ _).0 event_own;
          sequence = (eqb_iff row.sequence n).0 number;
          event_sequence = (eqb_iff e.sequence n).0 event_number;
          event_id = (eq_iff _ _).0 ids;
          event_type = (eq_iff _ _).0 types;
          predecessor = same_text-eq _ _ links;
          event_hash = sym ((eq_iff _ _).0 hashes);
        },
        events_from-AllHold id (suc n) (some (content_hash e)) rows rest others,
      )

  list_rows-AllHold :
      (id : String) (rows : List EventRow) (l : Ledger) (es : List (EventRecord F))
      → list_rows w id rows l ≡ ok es
      → AllHold id 0 none rows es
  unfolding require_run
  list_rows-AllHold id [] l [] h = tt
  list_rows-AllHold id [] l (e ∷ es) h =
      let (_, _, last) = >>=-eq-ok (require_run id l) _ h in absurd (cc last)
  list_rows-AllHold id (row ∷ rows) l es h = events_from-AllHold id 0 none (row ∷ rows) es h

  pub list_events_locked-AllHold :
      (id : String) (l : Ledger) (es : List (EventRecord F))
      → list_events_locked w id l ≡ ok es
      → AllHold id 0 none (event_rows id l) es
  unfolding list_events_locked
  list_events_locked-AllHold id l es h = list_rows-AllHold id (event_rows id l) l es h

  manifest-hashed :
      (id : String) (l : Ledger) (row : RunRow) (m : RunManifest F)
      → run_row id l ≡ some row
      → load_manifest_locked w id l ≡ ok m
      → row.manifest_sha256 ≡ manifest_hash w m
  unfolding load_manifest_locked
  manifest-hashed id l row m here h =
      let (own, found, h₁) = or_raise-eq-ok (run_row id l) _ _ h in
      let (m', read, h₂) = >>=-eq-ok (w.read_manifest own.manifest_json) _ h₁ in
      let (hash, h₃) = require-eq-ok (manifest_hash w m' == own.manifest_sha256) _ _ h₂ in
      let (_, h₄) = require-eq-ok (own.status == value m'.status) _ _ h₃ in
      let (history, _, h₅) = or_raise-eq-ok (manifest_row id own.manifest_revision l) _ _ h₄ in
      let (_, last) =
        require-eq-ok
          (history.manifest_json == own.manifest_json
            && history.manifest_sha256 == own.manifest_sha256)
          _ _ h₅ in
      let same : m' ≡ m = ok-injective m' m last in
      let e : own ≡ row = cc in
      ap (λ (x : RunRow). x.manifest_sha256) (sym e)
      ∙ sym ((eq_iff _ _).0 hash)
      ∙ ap (manifest_hash w) same

  -- What a budget row that loads has.
  record Loaded (id : String) (l : Ledger) (m : RunManifest F) (used reserved : BudgetUsage F)
      : Type 0 where
    budget : BudgetRow
    here : budget_row id l ≡ some budget
    limits : BudgetLimits F
    limits_read : w.read_limits budget.limits_json ≡ ok limits
    limits_equal : same_limits limits m.budget_limits ≡ true
    used_read : w.read_usage budget.used_json ≡ ok used
    used_text : budget.used_json ≡ w.usage_json used
    reserved_read : w.read_usage budget.reserved_json ≡ ok reserved
    reserved_text : budget.reserved_json ≡ w.usage_json reserved

  load_budget_locked-Loaded :
      (id : String) (l : Ledger) (m : RunManifest F) (used reserved : BudgetUsage F)
      → load_manifest_locked w id l ≡ ok m
      → load_budget_locked w id l ≡ ok (used, reserved)
      → Loaded id l m used reserved
  unfolding load_budget_locked
  load_budget_locked-Loaded id l m used reserved manifest h =
      let (row, here, h₁) = or_raise-eq-ok (budget_row id l) _ _ h in
      let (lim, lim_read, h₂) = >>=-eq-ok (w.read_limits row.limits_json) _ h₁ in
      let (u, u_read, h₃) = >>=-eq-ok (w.read_usage row.used_json) _ h₂ in
      let (r, r_read, h₄) = >>=-eq-ok (w.read_usage row.reserved_json) _ h₃ in
      let (m', loaded, h₅) = >>=-eq-ok (load_manifest_locked w id l) _ h₄ in
      let (equal, h₆) = require-eq-ok (same_limits lim m'.budget_limits) _ _ h₅ in
      let (_, h₇) = require-eq-ok (row.limits_json == w.limits_json lim) _ _ h₆ in
      let (u_text, h₈) = require-eq-ok (row.used_json == w.usage_json u) _ _ h₇ in
      let (r_text, last) = require-eq-ok (row.reserved_json == w.usage_json r) _ _ h₈ in
      let pair : (u, r) ≡ (used, reserved) = ok-injective _ _ last in
      let e : u ≡ used = ap (λ (x : BudgetUsage F × BudgetUsage F). x.0) pair in
      let e' : r ≡ reserved = ap (λ (x : BudgetUsage F × BudgetUsage F). x.1) pair in
      let same : m' ≡ m = ok-injective m' m (sym loaded ∙ manifest) in
      record {
        budget = row;
        here = here;
        limits = lim;
        limits_read = lim_read;
        limits_equal =
            subst (λ (x : RunManifest F). same_limits lim x.budget_limits ≡ true) same equal;
        used_read = u_read ∙ ap ok e;
        used_text = (eq_iff _ _).0 u_text ∙ ap w.usage_json e;
        reserved_read = r_read ∙ ap ok e';
        reserved_text = (eq_iff _ _).0 r_text ∙ ap w.usage_json e';
      }

  pub check_indices-Agrees :
      (id : String) (l : Ledger) (row : RunRow) (m : RunManifest F) (es : List (EventRecord F))
      (s : ReplayState F) (creation : EventRecord F)
      → run_row id l ≡ some row
      → load_manifest_locked w id l ≡ ok m
      → list_events_locked w id l ≡ ok es
      → first es ≡ some creation
      → check_indices w id m creation s l ≡ ok tt
      → Agrees id l row m es s
  unfolding check_indices
  check_indices-Agrees id l row m es s creation here loaded listed opening h =
      let (created, h₁) =
        require-eq-ok (w.same_json creation.payload (manifest_creation_payload w.limits_payload m))
          _ _ h in
      let (pair, budget, h₂) = >>=-eq-ok (load_budget_locked w id l) _ h₁ in
      let (status, h₃) = require-eq-ok (same_status s.status m.status) _ _ h₂ in
      let (usages, h₄) =
        require-eq-ok (same_usage s.budget_used pair.0 && same_usage s.budget_reserved pair.1) _ _
          h₃ in
      let (artifacts, h₅) =
        require-eq-ok (same_dict (λ x y. x == y) s.artifacts (digests m.artifacts)) _ _ h₄ in
      let model = passed (same_text s.returned_model m.returned_model) _ h₅ in
      let (used, reserved) =
        and-eq-true {a = same_usage s.budget_used pair.0} {b = same_usage s.budget_reserved pair.1}
          usages in
      let b = load_budget_locked-Loaded id l m pair.0 pair.1 loaded budget in
      record {
        manifest_hashed = manifest-hashed id l row m here loaded;
        events = list_events_locked-AllHold id l es listed;
        budget = b.budget;
        budget_here = b.here;
        limits = b.limits;
        limits_read = b.limits_read;
        limits_equal = b.limits_equal;
        used = record {
          usage = pair.0;
          reads = b.used_read;
          canonical = b.used_text;
          equal = used;
        };
        reserved = record {
          usage = pair.1;
          reads = b.reserved_read;
          canonical = b.reserved_text;
          equal = reserved;
        };
        status = status;
        artifacts = artifacts;
        returned_model = same_text-eq _ _ model;
        creation = creation;
        created_first = opening;
        created = created;
      }
