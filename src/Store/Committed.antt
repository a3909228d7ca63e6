-- ===== src/Store/Committed.antt =====
-- What a call has verified when it returns: the whole ledger that it commits.
use guildmind.Common.{
  List, Bool, true, false, Bool-cases, inl, inr, ◌≡◌, ◌∙◌, Error, Result, ok, err, if◌then◌else◌,
}
use mathlib.Core.Path.{subst}
use guildmind.Domain.Float.{Float}
use guildmind.Domain.Event.{Canonical}
use guildmind.Store.Exec.{Exec, pure, reads, ◌>>=◌, ◌>>◌}
use guildmind.Store.Returns.{
  bind-returns, reads-then, check-then, lift-then, lift-returns, pure-returns,
}
use guildmind.Store.Tables.{Ledger}
use guildmind.Store.Wire.{Wire}
use guildmind.Store.Read.{VerifiedRunRoot, as_validation_failure, verified_roots_locked}
use guildmind.Store.Write.{Handle, transaction, exit_roots, validate_full_ledger_locked}
use guildmind.Store.Lifecycle.{
  create_run, start_run, record_artifact, start_model_request, complete_model_response,
}
use guildmind.Store.Terminal.{
  complete_evaluation_with_events, recover_run_with_events, complete_budget_exhaustion_with_events,
}
use guildmind.Store.Operation.{
  Operation, create, begin, record_task, request, respond, evaluate, recover, refuse, perform,
  forget,
}

reads-returns :
    {S A : Type 0} (f : S → Result A) {a : A} {s t : S}
    → reads f s ≡ ok (a, t)
    → (f s ≡ ok a) × (s ≡ t)
unfolding reads
reads-returns f {s = s} h = lift-returns (f s) h

as_validation-returns :
    {A : Type 0} (fails : Error → Bool) (r : Result A) {a : A}
    → as_validation_failure fails r ≡ ok a
    → r ≡ ok a
as_validation-returns fails (ok x) h = h
as_validation-returns fails (err e) h = elim (Bool-cases (fails e)) [
  | inl hit ↦ absurd (cc (rw hit at h))
  | inr miss ↦ absurd (cc (rw miss at h))
]

module _ {F : Type 0} ⦃fl : Float F⦄ ⦃cn : Canonical F⦄ (w : Wire F) where
  abbrev pub Verified : Ledger → Type 0
  Verified l = (roots : List (VerifiedRunRoot F)) × (verified_roots_locked w l ≡ ok roots)

  record Commits {A : Type 0} (m : Exec Ledger A) : Type 0 where
    at : (s t : Ledger) (a : A) → m s ≡ ok (a, t) → Verified t

  exit-Verified :
      (h : Handle) (s t : Ledger) (roots : List (VerifiedRunRoot F))
      → exit_roots w h s ≡ ok (roots, t)
      → (verified_roots_locked w s ≡ ok roots) × (s ≡ t)
  unfolding exit_roots validate_full_ledger_locked
  exit-Verified h s t roots e = go h.opens_existing e
    where
      go :
          (existing : Bool)
          → (if existing
                then (reads w.inspect_schema >> reads (validate_full_ledger_locked w))
                else reads (verified_roots_locked w))
              s
            ≡ ok (roots, t)
          → (verified_roots_locked w s ≡ ok roots) × (s ≡ t)
      go true e =
          let (_, _, e₁) = reads-then _ _ e in
          let (full, same) = reads-returns _ e₁ in (as_validation-returns _ _ full, same)
      go false e = reads-returns _ e

  transaction-Commits :
      {A : Type 0} (h : Handle) (guard : List (VerifiedRunRoot F) → Result (Unit {0}))
      (body : Exec Ledger A)
      → Commits (transaction w h guard body)
  unfolding transaction
  transaction-Commits h guard body = record {
    at = λ s t a e.
        let (_, e₁) = check-then _ _ _ e in
        let (_, _, e₂) = reads-then _ _ e₁ in
        let (_, _, e₃) = reads-then _ _ e₂ in
        let (_, s₁, _, e₄) = bind-returns _ _ e₃ in
        let (result, s₂, _, e₅) = bind-returns body _ e₄ in
        let (_, _, e₆) = reads-then _ _ e₅ in
        let (roots, s₃, exit, e₇) = bind-returns (exit_roots w h) _ e₆ in
        let (verified, same) = exit-Verified h s₂ s₃ roots exit in
        let (_, _, e₈) = lift-then _ _ e₇ in
        let (_, _, e₉) = reads-then _ _ e₈ in
        let (_, same') = pure-returns result e₉ in
        (
          roots,
          subst (λ (l : Ledger). verified_roots_locked w l ≡ ok roots) (same ∙ same') verified,
        );
  }

  Commits-after :
      {A B : Type 0} (m : Exec Ledger A) (f : A → Exec Ledger B)
      → ((a : A) → Commits (f a))
      → Commits (m >>= f)
  Commits-after m f last = record {
    at = λ s t b e. let (a, u, _, e₁) = bind-returns m f e in (last a).at u t b e₁;
  }

  Commits-forget : {A : Type 0} (m : Exec Ledger A) → Commits m → Commits (forget m)
  Commits-forget m first = record {
    at = λ s t b e.
        let (a, u, e₁, e₂) = bind-returns m (λ a. pure tt) e in
        subst Verified (pure-returns tt e₂).1 (first.at s u a e₁);
  }

  -- Every ledger that a call leaves behind passes the full verification: SQLite's checks, and for
  -- every run its manifest and its history, its replayed events and its budget.
  pub perform-Verified :
      (h : Handle) (op : Operation F) (s t : Ledger) → perform w h op s ≡ ok (tt, t) → Verified t
  unfolding perform create_run start_run record_artifact start_model_request complete_model_response
      complete_evaluation_with_events recover_run_with_events complete_budget_exhaustion_with_events
  perform-Verified h op s t e = (go op).at s t tt e
    where
      go : (op : Operation F) → Commits (perform w h op)
      go (create m) = Commits-forget _ (Commits-after _ _ (λ _. transaction-Commits h _ _))
      go (begin id at model) = Commits-forget _ (transaction-Commits h _ _)
      go (record_task id name a) =
          Commits-forget _ (Commits-after _ _ (λ _. transaction-Commits h _ _))
      go (request id r m u v) =
          Commits-forget _
            (Commits-after _ _ (λ _. Commits-after _ _ (λ _. transaction-Commits h _ _)))
      go (respond id r model a p u v) = Commits-forget _ (transaction-Commits h _ _)
      go (evaluate id files p s t r u v) =
          Commits-forget _ (Commits-after _ _ (λ _. transaction-Commits h _ _))
      go (recover id t r e g) =
          Commits-forget _ (Commits-after _ _ (λ _. transaction-Commits h _ _))
      go (refuse id t r e g) = Commits-forget _ (Commits-after _ _ (λ _. transaction-Commits h _ _))
