-- ===== src/Store/Readable.antt =====
-- A verified ledger can be read: every reader returns for every run.
use guildmind.Common.{
  String, List, [], ◌∷◌, Bool, true, false, Bool-cases, inl, inr, some, ◌≡◌, sym, ◌∙◌, arith, All,
  ok, require, or_raise-eq-ok, >>=-eq-ok, ok-injective, ◌>>=◌, ◌==◌, eq_iff,
}
use mathlib.Core.Path.{subst}
use guildmind.Domain.Float.{Float}
use guildmind.Domain.Status.{is_terminal, value}
use guildmind.Domain.Event.{EventRecord, Canonical}
use guildmind.Domain.Manifest.{RunManifest}
use guildmind.Replay.State.{ReplayState}
use guildmind.Replay.Stream.{replay_events}
use guildmind.Store.Tables.{Ledger, RunRow, run_row, order_by, insert_row, find}
use guildmind.Store.Wire.{Wire}
use guildmind.Store.Manifests.{integrity, same_text}
use guildmind.Store.Read.{
  VerifiedRunRoot, as_store, first, check_indices, load_manifest_locked, list_events_locked,
  validated_state_locked, validate_terminal_state_locked, validate_manifest_history_locked,
  check_complete, verified_root, roots_of, verified_roots_locked,
}
use guildmind.Store.Query.{load_manifest, list_events, load_budget_state}
use guildmind.Store.Write.{Handle}
use guildmind.Store.Operation.{Operation, perform}
use guildmind.Store.Saves.{load_manifest_locked-returns}
use guildmind.Store.Agreement.{Agrees, check_indices-Agrees}
use guildmind.Store.Committed.{Verified, perform-Verified}

-- What holds of all ordered rows holds of the row that a search finds.
module _ {A : Type 0} (P : A → Type 0) where
  All-insert_row :
      (less : A → A → Bool) (x : A) (ys : List A) → All P (insert_row less x ys) → P x × All P ys
  All-insert_row less x [] h = h
  All-insert_row less x (y ∷ ys) h = elim (Bool-cases (less y x)) [
    | inl e ↦
        let (first, rest) : P y × All P (insert_row less x ys) = rw e at h in
        let (own, others) = All-insert_row less x ys rest in (own, (first, others))
    | inr e ↦ rw e at h
  ]

  All-order_by : (less : A → A → Bool) (xs : List A) → All P (order_by less xs) → All P xs
  All-order_by less [] h = tt
  All-order_by less (x ∷ xs) h =
      let (own, others) = All-insert_row less x (order_by less xs) h in
      (own, All-order_by less xs others)

  All-find :
      (test : A → Bool) (xs : List A) (x : A)
      → All P xs
      → find test xs ≡ some x
      → P x × (test x ≡ true)
  All-find test [] x h e = absurd (cc e)
  All-find test (y ∷ xs) x (own, others) e = elim (Bool-cases (test y)) [
    | inl hit ↦
        let same : y ≡ x = ground arith in
        (subst P same own, subst (λ (z : A). test z ≡ true) same hit)
    | inr miss ↦ All-find test xs x others (ground arith)
  ]

module _ {F : Type 0} ⦃fl : Float F⦄ ⦃cn : Canonical F⦄ (w : Wire F) (id : String)
    (l : Ledger) where
  -- What the verification of one run has found.
  record Root : Type 0 where
    manifest : RunManifest F
    state : ReplayState F
    events : List (EventRecord F)
    loaded : load_manifest_locked w id l ≡ ok manifest
    validated : validated_state_locked w id manifest l ≡ ok state
    listed : list_events_locked w id l ≡ ok events
    complete : check_complete w manifest state events ≡ ok tt

  -- The validated state is the replayed one, and it was compared with the rows.
  validated-returns :
      (m : RunManifest F) (s : ReplayState F) (es : List (EventRecord F))
      → list_events_locked w id l ≡ ok es
      → validated_state_locked w id m l ≡ ok s
      → (as_store (replay_events false es) ≡ ok s)
        × (creation : EventRecord F) × (first es ≡ some creation)
        × (check_indices w id m creation s l ≡ ok tt)
  unfolding validated_state_locked
  validated-returns m s es listed h =
      let (es', listed', h₁) = >>=-eq-ok (list_events_locked w id l) _ h in
      let (s', replayed, h₂) = >>=-eq-ok (as_store (replay_events false es')) _ h₁ in
      let (creation, opening, h₃) = or_raise-eq-ok (first es') _ _ h₂ in
      let (_, checked, h₄) = >>=-eq-ok (check_indices w id m creation s' l) _ h₃ in
      let e : es' ≡ es = ok-injective es' es (sym listed' ∙ listed) in
      let same : s' ≡ s = ok-injective s' s h₄ in
      (
        subst (λ (xs : List (EventRecord F)). as_store (replay_events false xs) ≡ ok s) e
            (replayed ∙ h₄),
        creation,
        subst (λ (xs : List (EventRecord F)). first xs ≡ some creation) e opening,
        subst (λ (x : ReplayState F). check_indices w id m creation x l ≡ ok tt) same checked,
      )

  complete-returns :
      (m : RunManifest F) (s : ReplayState F) (es : List (EventRecord F))
      → is_terminal m.status ≡ true
      → check_complete w m s es ≡ ok tt
      → (s' : ReplayState F) × (as_store (replay_events true es) ≡ ok s')
        × (require
              (same_text s.terminal_reason m.terminal_reason)
              (integrity "manifest terminal reason disagrees with replay")
            ≡ ok tt)
  complete-returns m s es ended h =
      let h₀ : (as_store (replay_events true es) >>= λ final.
      require (same_text s.terminal_reason m.terminal_reason)
        (integrity "manifest terminal reason disagrees with replay"))
          ≡ ok tt =
        rw ended at h in
      >>=-eq-ok (as_store (replay_events true es)) _ h₀

  root-load_manifest : (r : Root) → load_manifest w id l ≡ ok r.manifest
  unfolding load_manifest validate_terminal_state_locked
  root-load_manifest r = elim (Bool-cases (is_terminal r.manifest.status)) [
    | inl ended ↦
        let (s, replayed, reason) = complete-returns r.manifest r.state r.events ended r.complete in
        rw r.loaded (rw r.validated (rw ended (rw r.listed (rw replayed (rw reason)))))
    | inr open_run ↦ rw r.loaded (rw r.validated (rw open_run))
  ]

  root-list_events : (r : Root) → list_events w id l ≡ ok r.events
  unfolding list_events
  root-list_events r = elim (Bool-cases (is_terminal r.manifest.status)) [
    | inl ended ↦
        let (s, replayed, reason) = complete-returns r.manifest r.state r.events ended r.complete in
        rw r.listed (rw r.loaded (rw ended (rw replayed (rw r.validated))))
    | inr open_run ↦
        let (replayed, _, _, _) =
          validated-returns r.manifest r.state r.events r.listed r.validated in
        rw r.listed (rw r.loaded (rw open_run (rw replayed (rw r.validated))))
  ]

module _ {F : Type 0} ⦃fl : Float F⦄ ⦃cn : Canonical F⦄ (w : Wire F) where
  root-returns :
      (row : RunRow) (l : Ledger) {root : VerifiedRunRoot F}
      → verified_root w row l ≡ ok root
      → Root w row.run_id l
  unfolding verified_root
  root-returns row l h =
      let (m, loaded, h₁) = >>=-eq-ok (load_manifest_locked w row.run_id l) _ h in
      let (_, _, h₂) =
        >>=-eq-ok (validate_manifest_history_locked w row.run_id m row.manifest_revision l) _ h₁ in
      let (state, validated, h₃) = >>=-eq-ok (validated_state_locked w row.run_id m l) _ h₂ in
      let (events, listed, h₄) = >>=-eq-ok (list_events_locked w row.run_id l) _ h₃ in
      let (_, complete, _) = >>=-eq-ok (check_complete w m state events) _ h₄ in
      record {
        manifest = m;
        state = state;
        events = events;
        loaded = loaded;
        validated = validated;
        listed = listed;
        complete = complete;
      }

  roots-All :
      (rows : List RunRow) (l : Ledger) {roots : List (VerifiedRunRoot F)}
      → roots_of w rows l ≡ ok roots
      → All (λ (row : RunRow). Root w row.run_id l) rows
  unfolding roots_of
  roots-All [] l h = tt
  roots-All (row ∷ rows) l h =
      let (root, verified, h₁) = >>=-eq-ok (verified_root w row l) _ h in
      let (roots, others, _) = >>=-eq-ok (roots_of w rows l) _ h₁ in
      (root-returns row l verified, roots-All rows l others)

  verified-Root :
      (id : String) (l : Ledger) (row : RunRow)
      → Verified w l
      → run_row id l ≡ some row
      → Root w id l
  unfolding verified_roots_locked run_row
  verified-Root id l row (roots, verified) here =
      let (_, _, all_roots) = >>=-eq-ok (w.inspect_sqlite l) _ verified in
      let (root, hit) =
        All-find (λ (r : RunRow). Root w r.run_id l) (λ (r : RunRow). r.run_id == id) l.runs row
          (All-order_by (λ (r : RunRow). Root w r.run_id l)
            (λ (q r : RunRow). w.before q.run_id r.run_id) l.runs (roots-All _ l all_roots))
          here in
      subst (λ (k : String). Root w k l) ((eq_iff row.run_id id).0 hit) root

  -- After a call that returns, every run of the ledger can be read, and what is read agrees with the
  -- rows. The manifest is the one of the run's row and has the status and the hash of the row. Each row
  -- of the events, in order, holds one event, with its canonical text, its owner, its place, its ID, its
  -- type, the hash of the event before it and its own hash. The budget that is read is the one that the
  -- events replay to; the run has a budget row, whose texts read to usages equal to the replayed ones
  -- and to limits equal to the manifest's. The status, the artifacts and the returned model of the
  -- manifest are the replayed ones, and the first event has the manifest's creation payload.
  pub perform_readable :
      (h : Handle) (op : Operation F) (s t : Ledger) (id : String) (row : RunRow)
      → perform w h op s ≡ ok (tt, t)
      → run_row id t ≡ some row
      → (m : RunManifest F) × (es : List (EventRecord F)) × (state : ReplayState F) × (load_manifest
            w id t
          ≡ ok m)
        × (w.read_manifest row.manifest_json ≡ ok m)
        × (row.status ≡ value m.status)
        × (list_events w id t ≡ ok es)
        × (as_store (replay_events false es) ≡ ok state)
        × (load_budget_state w id t ≡ ok (state.budget_used, state.budget_reserved))
        × Agrees w id t row m es state
  unfolding load_budget_state
  perform_readable h op s t id row returned here =
      let r = verified-Root id t row (perform-Verified w h op s t returned) here in
      let (own, found, read, status) = load_manifest_locked-returns w id t r.loaded in
      let e : own ≡ row = cc in
      let (replayed, creation, opening, checked) =
        validated-returns w id t r.manifest r.state r.events r.listed r.validated in
      (
        r.manifest,
        r.events,
        r.state,
        root-load_manifest w id t r,
        subst (λ (x : RunRow). w.read_manifest x.manifest_json ≡ ok r.manifest) e read,
        subst (λ (x : RunRow). x.status ≡ value r.manifest.status) e status,
        root-list_events w id t r,
        replayed,
        rw r.loaded (rw r.validated),
        check_indices-Agrees w id t row r.manifest r.events r.state creation here r.loaded r.listed
            opening checked,
      )
