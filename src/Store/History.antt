-- ===== src/Store/History.antt =====
-- What any sequence of calls does to the tables.
use guildmind.Common.{
  String, List, [], ◌∷◌, ◌++◌, Bool, false, Bool-cases, inl, inr, ◌≡◌, ◌≤◌, refl, sym, ap, ◌∙◌,
  arith, All, some, Result, ok, err, ltb, ◌==◌, eq_iff,
}
use mathlib.Core.Path.{subst}
use mathlib.Core.List.{append-nil, append_assoc}
use guildmind.Domain.Float.{Float}
use guildmind.Domain.Event.{Canonical}
use guildmind.Store.Tables.{
  Ledger, RunRow, EventRow, ManifestRow, run_row, budget_row, event_rows, manifest_rows, select,
  order_by,
}
use guildmind.Store.Wire.{Wire}
use guildmind.Store.Write.{Handle}
use guildmind.Store.Extends.{Extends, Advances, Advances-trans, rank}
use guildmind.Store.Methods.{perform-Extends}
use guildmind.Store.Settled.{Ended, Ended-Extends}
use guildmind.Store.Finality.{perform-Ended}
use guildmind.Store.Operation.{Operation, subject, perform, perform_all}

-- The rows of a run are not those of another.
select-append :
    {A : Type 0} (test : A → Bool) (xs ys : List A)
    → select test (xs ++ ys) ≡ select test xs ++ select test ys
select-append test [] ys = refl
select-append test (x ∷ xs) ys = ground (arith, select-append test xs ys)

select-other :
    {R : Type 0} (owner : R → String) (id k : String) (xs : List R)
    → (id == k) ≡ false
    → All (λ (r : R). owner r ≡ id) xs
    → select (λ (r : R). owner r == k) xs ≡ []
select-other owner id k [] d own = refl
select-other owner id k (x ∷ xs) d (e, own) =
    let apart : (owner x == k) ≡ false = subst (λ (i : String). (i == k) ≡ false) (sym e) d in
    ground (arith, select-other owner id k xs d own)

-- Rows of one run that are added are not selected for another.
select-apart :
    {R : Type 0} (owner : R → String) (id k : String) (before added after : List R)
    → (id == k) ≡ false
    → after ≡ before ++ added
    → All (λ (r : R). owner r ≡ id) added
    → select (λ (r : R). owner r == k) after ≡ select (λ (r : R). owner r == k) before
select-apart owner id k before added after d grow own =
    ap (select (λ r. owner r == k)) grow
    ∙ select-append (λ r. owner r == k) before added
    ∙ ap (λ rs. select (λ r. owner r == k) before ++ rs) (select-other owner id k added d own)
    ∙ append-nil _

event_rows-apart :
    (id k : String) (s t : Ledger)
    → (id == k) ≡ false
    → Extends id s t
    → event_rows k t ≡ event_rows k s
unfolding event_rows
event_rows-apart id k s t d x = ap (order_by (λ (r q : EventRow). ltb r.sequence q.sequence)) (
    select-apart (λ (r : EventRow). r.run_id) id k s.events x.events_added t.events d x.events_grow
      x.events_own)

manifest_rows-apart :
    (id k : String) (s t : Ledger)
    → (id == k) ≡ false
    → Extends id s t
    → manifest_rows k t ≡ manifest_rows k s
unfolding manifest_rows
manifest_rows-apart id k s t d x =
    ap (order_by (λ (r q : ManifestRow). ltb r.revision q.revision)) (
      select-apart (λ (r : ManifestRow). r.run_id) id k s.run_manifests x.manifests_added
        t.run_manifests d x.manifests_grow x.manifests_own)

module _ {F : Type 0} ⦃fl : Float F⦄ ⦃cn : Canonical F⦄ (w : Wire F) (h : Handle) where
  -- One rule for every relation that holds of a call that returns.
  module _ (R : Ledger → Ledger → Type 0) (same : (s : Ledger) → R s s)
      (chain : (s t u : Ledger) → R s t → R t u → R s u) (fits : Operation F → Type 0)
      (step : (op : Operation F) (s t : Ledger)
        → fits op
        → perform w h op s ≡ ok (tt, t)
        → R s t) where
    one :
        (op : Operation F) (s : Ledger) (after : Ledger → Ledger) (r : Result (Unit {0} × Ledger))
        → perform w h op s ≡ r
        → fits op
        → ((t : Ledger) → R t (after t))
        → R s (elim r [ ok (u, t) ↦ after t | err e ↦ after s ])
    one op s after (ok (u, t)) e fit later = chain s t _ (step op s t fit e) (later t)
    one op s after (err x) e fit later = later s

    pub perform_all_rule :
        (ops : List (Operation F)) (s : Ledger) → All fits ops → R s (perform_all w h ops s)
    unfolding perform_all
    perform_all_rule [] s fine = same s
    perform_all_rule (op ∷ ops) s (fit, fine) =
        one op s (perform_all w h ops) (perform w h op s) refl fit
          (λ t. perform_all_rule ops t fine)

  any_call : (ops : List (Operation F)) → All (λ (op : Operation F). Unit {0}) ops
  any_call [] = tt
  any_call (op ∷ ops) = (tt, any_call ops)

  -- Whatever calls are made, failed ones included, the event rows and the manifest rows that were
  -- there before are there afterwards, unchanged and in their order, and new rows stand behind them.
  pub perform_all_append_only :
      (ops : List (Operation F)) (s : Ledger)
      → (es : List EventRow) × (ms : List ManifestRow) × ((perform_all w h ops s).events
          ≡ s.events ++ es)
        × ((perform_all w h ops s).run_manifests ≡ s.run_manifests ++ ms)
  perform_all_append_only ops s =
      perform_all_rule Grows
        (λ s. ([], [], sym (append-nil s.events), sym (append-nil s.run_manifests)))
        (λ s t u (es, ms, e, m) (fs, ns, f, n). (
          es ++ fs,
          ms ++ ns,
          f ∙ ap (λ (xs : List EventRow). xs ++ fs) e ∙ append_assoc s.events es fs,
          n ∙ ap (λ (xs : List ManifestRow). xs ++ ns) m ∙ append_assoc s.run_manifests ms ns,
        ))
        (λ op. Unit)
        (λ op s t fit e.
          let x = (perform-Extends w h op).at s t tt e in
          (x.events_added, x.manifests_added, x.events_grow, x.manifests_grow))
        ops s (any_call ops)
    where
      Grows : Ledger → Ledger → Type 0
      Grows s t =
          (es : List EventRow) × (ms : List ManifestRow) × (t.events ≡ s.events ++ es)
          × (t.run_manifests ≡ s.run_manifests ++ ms)

  -- Whatever calls are made, a run that is in the ledger stays in it, its status does not go back
  -- in the order pending, running, ended, and once the run has ended its row stays as it is.
  pub perform_all_advances :
      (ops : List (Operation F)) (s : Ledger) (k : String) (r : RunRow)
      → run_row k s ≡ some r
      → (q : RunRow) × (run_row k (perform_all w h ops s) ≡ some q)
        × (rank r.status ≤ rank q.status)
        × (rank r.status ≡ 2 → q ≡ r)
  perform_all_advances ops s k =
      perform_all_rule (Advances k) (λ s r here. (r, here, omega arith, λ ended. refl))
        (λ s t u. Advances-trans k s t u) (λ op. Unit)
        (λ op s t fit e. ((perform-Extends w h op).at s t tt e).runs_advance k) ops s (any_call ops)

  -- Calls that are about other runs leave a run's row, its budget row, its events and the rows of its
  -- manifest history as they are.
  pub perform_all_isolated :
      (ops : List (Operation F)) (s : Ledger) (k : String)
      → All (λ (op : Operation F). (subject op == k) ≡ false) ops
      → (run_row k (perform_all w h ops s) ≡ run_row k s)
        × (budget_row k (perform_all w h ops s) ≡ budget_row k s)
        × (event_rows k (perform_all w h ops s) ≡ event_rows k s)
        × (manifest_rows k (perform_all w h ops s) ≡ manifest_rows k s)
  perform_all_isolated ops s k others =
      perform_all_rule Same (λ s. (refl, refl, refl, refl))
        (λ s t u (a, b, c, d) (a', b', c', d'). (a' ∙ a, b' ∙ b, c' ∙ c, d' ∙ d))
        (λ op. (subject op == k) ≡ false)
        (λ op s t other e.
          let x = (perform-Extends w h op).at s t tt e in
          (
            x.runs_apart k other,
            x.budgets_apart k other,
            event_rows-apart (subject op) k s t other x,
            manifest_rows-apart (subject op) k s t other x,
          ))
        ops s others
    where
      Same : Ledger → Ledger → Type 0
      Same s t =
          (run_row k t ≡ run_row k s)
          × (budget_row k t ≡ budget_row k s)
          × (event_rows k t ≡ event_rows k s)
          × (manifest_rows k t ≡ manifest_rows k s)

  -- Once a run has ended, no sequence of calls, about this run or about others, changes its row, its
  -- budget row or its events.
  pub perform_all-Ended :
      (ops : List (Operation F)) (s : Ledger) (k : String)
      → Ended k s
      → (run_row k (perform_all w h ops s) ≡ run_row k s)
        × (budget_row k (perform_all w h ops s) ≡ budget_row k s)
        × (event_rows k (perform_all w h ops s) ≡ event_rows k s)
  perform_all-Ended ops s k ended =
      let (e, rows, budgets, events) =
        perform_all_rule Closed (λ s e. (e, refl, refl, refl))
          (λ s t u a b e.
            let (e₁, x, y, z) = a e in let (e₂, x', y', z') = b e₁ in (e₂, x' ∙ x, y' ∙ y, z' ∙ z))
          (λ op. Unit) step ops s (any_call ops) ended in
      (rows, budgets, events)
    where
      Closed : Ledger → Ledger → Type 0
      Closed s t =
          Ended k s
          → Ended k t
            × (run_row k t ≡ run_row k s)
            × (budget_row k t ≡ budget_row k s)
            × (event_rows k t ≡ event_rows k s)

      step :
          (op : Operation F) (s t : Ledger) → Unit {0} → perform w h op s ≡ ok (tt, t) → Closed s t
      step op s t fit returned ended = elim (Bool-cases (subject op == k)) [
        | inl own ↦
            let same : t ≡ s =
              perform-Ended w h op s t
                (subst (λ (i : String). Ended i s) (sym ((eq_iff (subject op) k).0 own)) ended)
                returned in
            (
              subst (Ended k) (sym same) ended,
              ap (run_row k) same,
              ap (budget_row k) same,
              ap (event_rows k) same,
            )
        | inr other ↦
            let x = (perform-Extends w h op).at s t tt returned in
            (
              Ended-Extends (subject op) k s t x ended,
              x.runs_apart k other,
              x.budgets_apart k other,
              event_rows-apart (subject op) k s t other x,
            )
      ]
