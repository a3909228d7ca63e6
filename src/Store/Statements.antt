-- ===== src/Store/Statements.antt =====
-- The SQL statements of events.py as steps of `Extends`.
use guildmind.Common.{
  String, List, [], ◌∷◌, ◌++◌, Bool, true, false, Bool-cases, inl, inr, ◌==◌, ◌≡◌, ◌≤◌, refl, sym,
  ap, ◌∙◌, Result, ok, some, ok-injective, eq_iff, eq_refl, arith, eqb, ◌&&◌, ◌||◌,
}
use mathlib.Core.Path.{subst}
use mathlib.Core.List.{append-nil}
use guildmind.Store.Tables.{
  Ledger, RunRow, ManifestRow, EventRow, BudgetRow, run_row, budget_row, insert_run,
  insert_manifest, insert_event, insert_budget, update_run, update_budget, tick, find, any,
  set_runs, set_budgets,
}
use guildmind.Store.Extends.{Extends, Advances, rank}

-- Equal texts agree in a test against a third.
same_test : (a b k : String) → (a == b) ≡ true → (b == k) ≡ false → (a == k) ≡ false
same_test a b k h d = subst (λ (c : String). (c == k) ≡ false) (sym ((eq_iff a b).0 h)) d

find-append :
    {A : Type 0} (test : A → Bool) (xs : List A) (x : A)
    → test x ≡ false
    → find test (xs ++ x ∷ []) ≡ find test xs
find-append test [] x h = ground arith
find-append test (y ∷ xs) x h = ground (arith, find-append test xs x h)

find-set_runs :
    (r : RunRow) (k : String) (qs : List RunRow)
    → (r.run_id == k) ≡ false
    → find (λ (q : RunRow). q.run_id == k) (set_runs r qs) ≡ find (λ (q : RunRow). q.run_id == k) qs
find-set_runs r k [] d = refl
find-set_runs r k (q ∷ qs) d = elim (Bool-cases (q.run_id == r.run_id)) [
  | inl h ↦ ground (arith, find-set_runs r k qs d, same_test q.run_id r.run_id k h d)
  | inr h ↦ ground (arith, find-set_runs r k qs d)
]

find-set_budgets :
    (id used reserved k : String) (qs : List BudgetRow)
    → (id == k) ≡ false
    → find (λ (q : BudgetRow). q.run_id == k) (set_budgets id used reserved qs)
      ≡ find (λ (q : BudgetRow). q.run_id == k) qs
find-set_budgets id used reserved k [] d = refl
find-set_budgets id used reserved k (q ∷ qs) d = elim (Bool-cases (q.run_id == id)) [
  | inl h ↦ ground (arith, find-set_budgets id used reserved k qs d, same_test q.run_id id k h d)
  | inr h ↦ ground (arith, find-set_budgets id used reserved k qs d)
]

find-append_found :
    {A : Type 0} (test : A → Bool) (xs ys : List A) (x : A)
    → find test xs ≡ some x
    → find test (xs ++ ys) ≡ some x
find-append_found test [] ys x h = cc
find-append_found test (y ∷ xs) ys x h = ground (arith, find-append_found test xs ys x)

find-set_runs_self :
    (r q : RunRow) (qs : List RunRow)
    → find (λ (p : RunRow). p.run_id == r.run_id) qs ≡ some q
    → find (λ (p : RunRow). p.run_id == r.run_id) (set_runs r qs) ≡ some r
find-set_runs_self r q [] h = cc
find-set_runs_self r q (p ∷ qs) h = ground (arith, eq_refl r.run_id, find-set_runs_self r q qs)

-- The rows of the runs are the same.
stays : (k : String) (s t : Ledger) → run_row k t ≡ run_row k s → Advances k s t
stays k s t same r here = (r, same ∙ here, omega arith, λ ended. refl)

-- The statement made a ledger, and the ledger is the one of the return.
module _ {id : String} where
  same_ledger :
      {s t u : Ledger} → Extends id s t → Path (Result Ledger) (ok t) (ok u) → Extends id s u
  same_ledger {s} {t} {u} x h = subst (Extends id s) (ok-injective t u h) x

  -- A statement on the two other tables adds no row to the histories.
  adds_none :
      (s : Ledger) (runs : List RunRow) (budgets : List BudgetRow)
      → ((k : String)
          → (id == k) ≡ false
          → find (λ (q : RunRow). q.run_id == k) runs ≡ find (λ (q : RunRow). q.run_id == k) s.runs)
      → ((k : String)
          → (id == k) ≡ false
          → find (λ (q : BudgetRow). q.run_id == k) budgets
            ≡ find (λ (q : BudgetRow). q.run_id == k) s.budget_state)
      → ((k : String) → Advances k s (record s { runs = runs; budget_state = budgets }))
      → Extends id s (record s { runs = runs; budget_state = budgets })
  unfolding run_row budget_row
  adds_none s runs budgets apart_runs apart_budgets advance = record {
    events_added = [];
    events_grow = sym (append-nil s.events);
    events_own = tt;
    manifests_added = [];
    manifests_grow = sym (append-nil s.run_manifests);
    manifests_own = tt;
    runs_apart = apart_runs;
    budgets_apart = apart_budgets;
    runs_advance = advance;
  }

  -- The same test for the run of a row that is `id`.
  apart : (own k : String) → own ≡ id → (id == k) ≡ false → (own == k) ≡ false
  apart own k e d = subst (λ (i : String). (i == k) ≡ false) (sym e) d

  pub insert_run-Extends :
      (r : RunRow) → r.run_id ≡ id → (s t : Ledger) → insert_run r s ≡ ok t → Extends id s t
  unfolding insert_run run_row
  insert_run-Extends r own s t h =
      elim (Bool-cases (any (λ (q : RunRow). q.run_id == r.run_id) s.runs)) [
        | inl dup ↦ absurd (ground arith)
        | inr new ↦
            same_ledger
              (adds_none s (s.runs ++ r ∷ []) s.budget_state
                (λ k d.
                  find-append (λ (q : RunRow). q.run_id == k) s.runs r (apart r.run_id k own d))
                (λ k d. refl)
                (λ k q here. (
                  q,
                  find-append_found (λ (p : RunRow). p.run_id == k) s.runs (r ∷ []) q here,
                  omega arith,
                  λ ended. refl,
                )))
              (ground arith)
      ]

  pub insert_budget-Extends :
      (r : BudgetRow) → r.run_id ≡ id → (s t : Ledger) → insert_budget r s ≡ ok t → Extends id s t
  unfolding insert_budget run_row
  insert_budget-Extends r own s t h =
      elim (Bool-cases (any (λ (q : BudgetRow). q.run_id == r.run_id) s.budget_state)) [
        | inl dup ↦ absurd (ground arith)
        | inr new ↦
            same_ledger
              (adds_none s s.runs (s.budget_state ++ r ∷ []) (λ k d. refl)
                (λ k d.
                  find-append (λ (q : BudgetRow). q.run_id == k) s.budget_state r
                    (apart r.run_id k own d))
                (λ k. stays k s s refl))
              (ground arith)
      ]

  -- The row that the statement replaces is of a run that has not ended, and is not put back.
  pub update_run-Extends :
      (r old : RunRow)
      → r.run_id ≡ id
      → (s t : Ledger) → run_row r.run_id s ≡ some old
      → rank old.status ≤ rank r.status
      → (rank old.status ≡ 2 → ⊥)
      → update_run r s ≡ ok t
      → Extends id s t
  unfolding update_run run_row
  update_run-Extends r old own s t here up open_run h =
      same_ledger
        (adds_none s (set_runs r s.runs) s.budget_state
          (λ k d. find-set_runs r k s.runs (apart r.run_id k own d)) (λ k d. refl)
          (λ k. elim (Bool-cases (r.run_id == k)) [
            | inl e ↦
                subst (λ (k : String). Advances k s (record s { runs = set_runs r s.runs }))
                  ((eq_iff r.run_id k).0 e) advance_self
            | inr d ↦ stays k s (record s { runs = set_runs r s.runs }) (find-set_runs r k s.runs d)
          ]))
        h
    where
      advance_self : Advances r.run_id s (record s { runs = set_runs r s.runs })
      advance_self q found =
          let e : old ≡ q = cc in
          (
            r,
            find-set_runs_self r old s.runs here,
            subst (λ (x : RunRow). rank x.status ≤ rank r.status) e up,
            λ ended. absurd (open_run (ap (λ (x : RunRow). rank x.status) e ∙ ended)),
          )

  pub update_budget-Extends :
      (used reserved : String) (s t : Ledger)
      → update_budget id used reserved s ≡ ok t
      → Extends id s t
  unfolding update_budget run_row
  update_budget-Extends used reserved s t h =
      same_ledger
        (adds_none s s.runs (set_budgets id used reserved s.budget_state) (λ k d. refl)
          (λ k d. find-set_budgets id used reserved k s.budget_state d) (λ k. stays k s s refl))
        h

  pub tick-Extends : (s t : Ledger) → tick s ≡ ok t → Extends id s t
  unfolding tick run_row budget_row
  tick-Extends s t h =
      same_ledger
        (record {
          events_added = [];
          events_grow = sym (append-nil s.events);
          events_own = tt;
          manifests_added = [];
          manifests_grow = sym (append-nil s.run_manifests);
          manifests_own = tt;
          runs_apart = λ k d. refl;
          budgets_apart = λ k d. refl;
          runs_advance = λ k. stays k s s refl;
        })
        h

  pub insert_event-Extends :
      (r : EventRow) → r.run_id ≡ id → (s t : Ledger) → insert_event r s ≡ ok t → Extends id s t
  unfolding insert_event run_row budget_row
  insert_event-Extends r own s t h =
      elim (Bool-cases (
        any
          (λ (q : EventRow).
            q.event_id == r.event_id || (q.run_id == r.run_id && eqb q.sequence r.sequence))
          s.events)) [
            | inl dup ↦ absurd (ground arith)
            | inr new ↦
                same_ledger {t = record s { events = s.events ++ r ∷ [] }}
                  (record {
                    events_added = r ∷ [];
                    events_grow = refl;
                    events_own = (own, tt);
                    manifests_added = [];
                    manifests_grow = sym (append-nil s.run_manifests);
                    manifests_own = tt;
                    runs_apart = λ k d. refl;
                    budgets_apart = λ k d. refl;
                    runs_advance = λ k. stays k s s refl;
                  })
                  (ground arith)
          ]

  pub insert_manifest-Extends :
      (r : ManifestRow)
      → r.run_id ≡ id
      → (s t : Ledger) → insert_manifest r s ≡ ok t
      → Extends id s t
  unfolding insert_manifest run_row budget_row
  insert_manifest-Extends r own s t h =
      elim (Bool-cases (
        any (λ (q : ManifestRow). q.run_id == r.run_id && eqb q.revision r.revision)
          s.run_manifests)) [
            | inl dup ↦ absurd (ground arith)
            | inr new ↦
                same_ledger {t = record s { run_manifests = s.run_manifests ++ r ∷ [] }}
                  (record {
                    events_added = [];
                    events_grow = sym (append-nil s.events);
                    events_own = tt;
                    manifests_added = r ∷ [];
                    manifests_grow = refl;
                    manifests_own = (own, tt);
                    runs_apart = λ k d. refl;
                    budgets_apart = λ k d. refl;
                    runs_advance = λ k. stays k s s refl;
                  })
                  (ground arith)
          ]
