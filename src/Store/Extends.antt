-- ===== src/Store/Extends.antt =====
-- What a step of a lifecycle method may do to the tables: rows of the events and of the manifest
-- history are added for one run, every row of another run stays, and no run goes back.
use guildmind.Common.{
  ℕ, String, List, [], ◌++◌, ◌∷◌, ◌≡◌, refl, sym, ap, ◌∙◌, All, ◌≤◌, some, ◌==◌, if◌then◌else◌,
  false, arith,
}
use mathlib.Core.List.{append_assoc, append-nil}
use guildmind.Store.Exec.{IsPreorder}
use guildmind.Store.Tables.{Ledger, RunRow, ManifestRow, EventRow, run_row, budget_row}

-- How far a run has come: pending, running, ended.
abbrev pub rank : String → ℕ
rank status = if status == "pending" then 0 else if status == "running" then 1 else 2

-- A run that is there stays, does not go back, and once it has ended its row is never written.
abbrev pub Advances : String → Ledger → Ledger → Type 0
Advances k s t =
    (r : RunRow)
    → run_row k s ≡ some r
    → (q : RunRow) × (run_row k t ≡ some q)
      × (rank r.status ≤ rank q.status)
      × (rank r.status ≡ 2 → q ≡ r)

pub record Extends (id : String) (s t : Ledger) : Type 0 where
  pub events_added : List EventRow
  pub events_grow : t.events ≡ s.events ++ events_added
  pub events_own : All (λ (r : EventRow). r.run_id ≡ id) events_added
  pub manifests_added : List ManifestRow
  pub manifests_grow : t.run_manifests ≡ s.run_manifests ++ manifests_added
  pub manifests_own : All (λ (r : ManifestRow). r.run_id ≡ id) manifests_added
  pub runs_apart : (k : String) → (id == k) ≡ false → run_row k t ≡ run_row k s
  pub budgets_apart : (k : String) → (id == k) ≡ false → budget_row k t ≡ budget_row k s
  pub runs_advance : (k : String) → Advances k s t

All-append : {A : Type 0} (P : A → Type 0) (xs ys : List A) → All P xs → All P ys → All P (xs ++ ys)
All-append P [] ys h k = k
All-append P (x ∷ xs) ys (h, hs) k = (h, All-append P xs ys hs k)

pub Advances-trans :
    (k : String) (s t u : Ledger) → Advances k s t → Advances k t u → Advances k s u
Advances-trans k s t u a b r here =
    let (q, there, up, kept) = a r here in
    let (p, end, up', kept') = b q there in
    (
      p,
      end,
      omega arith,
      λ ended. kept' (ap (λ (x : RunRow). rank x.status) (kept ended) ∙ ended) ∙ kept ended,
    )

Extends-refl : (id : String) (s : Ledger) → Extends id s s
Extends-refl id s = record {
  events_added = [];
  events_grow = sym (append-nil s.events);
  events_own = tt;
  manifests_added = [];
  manifests_grow = sym (append-nil s.run_manifests);
  manifests_own = tt;
  runs_apart = λ k d. refl;
  budgets_apart = λ k d. refl;
  runs_advance = λ k r here. (r, here, omega arith, λ ended. refl);
}

pub Extends-trans :
    (id : String) (s t u : Ledger) → Extends id s t → Extends id t u → Extends id s u
Extends-trans id s t u a b = record {
  events_added = a.events_added ++ b.events_added;
  events_grow =
      b.events_grow
      ∙ ap (λ (es : List EventRow). es ++ b.events_added) a.events_grow
      ∙ append_assoc s.events a.events_added b.events_added;
  events_own = All-append _ a.events_added b.events_added a.events_own b.events_own;
  manifests_added = a.manifests_added ++ b.manifests_added;
  manifests_grow =
      b.manifests_grow
      ∙ ap (λ (ms : List ManifestRow). ms ++ b.manifests_added) a.manifests_grow
      ∙ append_assoc s.run_manifests a.manifests_added b.manifests_added;
  manifests_own = All-append _ a.manifests_added b.manifests_added a.manifests_own b.manifests_own;
  runs_apart = λ k d. b.runs_apart k d ∙ a.runs_apart k d;
  budgets_apart = λ k d. b.budgets_apart k d ∙ a.budgets_apart k d;
  runs_advance = λ k. Advances-trans k s t u (a.runs_advance k) (b.runs_advance k);
}

pub Extends-IsPreorder : (id : String) → IsPreorder (Extends id)
Extends-IsPreorder id = record { same = Extends-refl id; chain = Extends-trans id }
