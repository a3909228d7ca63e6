-- ===== src/Store/Tables.antt =====
-- events.py: the rows of the four SQL tables, with the constraints that SQLite enforces on them.
use guildmind.Common.{
  ℕ, suc, String, List, [], ◌∷◌, ◌++◌, Bool, false, ◌&&◌, ◌||◌, Option, none, some, eqb, ◌==◌,
  if◌then◌else◌, Error, Result, ok, err, ltb,
}

pub record RunRow : Type 0 where
  pub run_id : String
  pub status : String
  pub manifest_revision : ℕ
  pub manifest_json : String
  pub manifest_sha256 : String

pub record ManifestRow : Type 0 where
  pub run_id : String
  pub revision : ℕ
  pub manifest_json : String
  pub manifest_sha256 : String

pub record EventRow : Type 0 where
  pub run_id : String
  pub sequence : ℕ
  pub event_id : String
  pub event_type : String
  pub record_json : String
  pub event_hash : String

pub record BudgetRow : Type 0 where
  pub run_id : String
  pub limits_json : String
  pub used_json : String
  pub reserved_json : String

-- The tables, in insertion order, and the number of stamps taken from the clock.
pub record Ledger : Type 0 where
  pub runs : List RunRow
  pub run_manifests : List ManifestRow
  pub events : List EventRow
  pub budget_state : List BudgetRow
  pub ticks : ℕ

abbrev pub find {ℓ} : {A : Type ℓ} → (A → Bool) → List A → Option A
find test [] = none
find test (x ∷ xs) = if test x then some x else find test xs

abbrev pub any {ℓ} : {A : Type ℓ} → (A → Bool) → List A → Bool
any test [] = false
any test (x ∷ xs) = test x || any test xs

abbrev pub select {ℓ} : {A : Type ℓ} → (A → Bool) → List A → List A
select test [] = []
select test (x ∷ xs) = let rest = select test xs in if test x then x ∷ rest else rest

-- `ORDER BY key ASC` and `sorted(…, key=…)`, by insertion, for a test `key x < key y`; rows with
-- equal keys keep their order.
abbrev pub insert_row {ℓ} : {A : Type ℓ} → (A → A → Bool) → A → List A → List A
insert_row less x [] = x ∷ []
insert_row less x (y ∷ ys) = if less y x then y ∷ insert_row less x ys else x ∷ y ∷ ys

abbrev pub order_by {ℓ} : {A : Type ℓ} → (A → A → Bool) → List A → List A
order_by less [] = []
order_by less (x ∷ xs) = insert_row less x (order_by less xs)

-- `SELECT … FROM runs WHERE run_id = ?`
unfoldable pub run_row : String → Ledger → Option RunRow
run_row id l = find (λ (r : RunRow). r.run_id == id) l.runs

unfoldable pub budget_row : String → Ledger → Option BudgetRow
budget_row id l = find (λ (r : BudgetRow). r.run_id == id) l.budget_state

unfoldable pub manifest_row : String → ℕ → Ledger → Option ManifestRow
manifest_row id n l = find (λ (r : ManifestRow). r.run_id == id && eqb r.revision n) l.run_manifests

-- `… WHERE run_id = ? ORDER BY revision ASC`
unfoldable pub manifest_rows : String → Ledger → List ManifestRow
manifest_rows id l =
    order_by (λ (r q : ManifestRow). ltb r.revision q.revision)
      (select (λ (r : ManifestRow). r.run_id == id) l.run_manifests)

-- `… WHERE run_id = ? ORDER BY sequence ASC`
unfoldable pub event_rows : String → Ledger → List EventRow
event_rows id l =
    order_by (λ (r q : EventRow). ltb r.sequence q.sequence)
      (select (λ (r : EventRow). r.run_id == id) l.events)

-- The INSERT statements, with primary keys and UNIQUE.
unfoldable pub insert_run : RunRow → Ledger → Result Ledger
insert_run r l =
    if any (λ (q : RunRow). q.run_id == r.run_id) l.runs
    then err (Error.constraint "runs.run_id")
    else ok (record l { runs = l.runs ++ r ∷ [] })

unfoldable pub insert_manifest : ManifestRow → Ledger → Result Ledger
insert_manifest r l =
    if any (λ (q : ManifestRow). q.run_id == r.run_id && eqb q.revision r.revision) l.run_manifests
    then err (Error.constraint "run_manifests")
    else ok (record l { run_manifests = l.run_manifests ++ r ∷ [] })

unfoldable pub insert_event : EventRow → Ledger → Result Ledger
insert_event r l =
    if any
      (λ (q : EventRow).
        q.event_id == r.event_id || (q.run_id == r.run_id && eqb q.sequence r.sequence))
      l.events
    then err (Error.constraint "events")
    else ok (record l { events = l.events ++ r ∷ [] })

unfoldable pub insert_budget : BudgetRow → Ledger → Result Ledger
insert_budget r l =
    if any (λ (q : BudgetRow). q.run_id == r.run_id) l.budget_state
    then err (Error.constraint "budget_state.run_id")
    else ok (record l { budget_state = l.budget_state ++ r ∷ [] })

-- The UPDATE statements: every row of the run is set, no other changes.
abbrev pub set_runs : RunRow → List RunRow → List RunRow
set_runs r [] = []
set_runs r (q ∷ qs) = (if q.run_id == r.run_id then r else q) ∷ set_runs r qs

unfoldable pub update_run : RunRow → Ledger → Result Ledger
update_run r l = ok (record l { runs = set_runs r l.runs })

abbrev pub set_budgets : String → String → String → List BudgetRow → List BudgetRow
set_budgets id used reserved [] = []
set_budgets id used reserved (q ∷ qs) =
    (if q.run_id == id then record q { used_json = used; reserved_json = reserved } else q)
    ∷ set_budgets id used reserved qs

unfoldable pub update_budget : String → String → String → Ledger → Result Ledger
update_budget id used reserved l =
    ok (record l { budget_state = set_budgets id used reserved l.budget_state })

-- `self._clock.stamp()` takes one stamp.
unfoldable pub tick : Ledger → Result Ledger
tick l = ok (record l { ticks = suc l.ticks })
