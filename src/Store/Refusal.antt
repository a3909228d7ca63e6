-- ===== src/Store/Refusal.antt =====
-- What an ended run refuses, and the transaction around a method that leaves it alone.
use guildmind.Common.{
  String, List, [], Bool, true, false, ◌&&◌, some, ◌≡◌, refl, arith, Result, ◌==◌, ◌∷◌,
}
use guildmind.Domain.Float.{Float}
use guildmind.Domain.Status.{RunStatus, pending, running, is_terminal, same_status}
use guildmind.Domain.Event.{Canonical}
use guildmind.Domain.Manifest.{RunManifest}
use guildmind.Store.Exec.{Exec, writes}
use guildmind.Store.Returns.{writes-returns}
use guildmind.Store.Tables.{Ledger, RunRow, insert_run, any, find, run_row}
use guildmind.Store.Wire.{Wire}
use guildmind.Store.Manifests.{validate_manifest_transition}
use guildmind.Store.Read.{VerifiedRunRoot}
use guildmind.Store.Write.{Handle, save_manifest_locked, transaction, entry_checks, exit_roots}
use guildmind.Store.Saves.{transition-returns}
use guildmind.Store.Settled.{
  Settled, Refused, Settled-branch, Refused-load, Refused-rest, Refused-lift, settled_rules,
}
use guildmind.Store.Isolation.{ledger_rules}

-- The tests on the status that an ended run fails.
pub not_pending : (s : RunStatus) → is_terminal s ≡ true → same_status s pending ≡ false
not_pending pending h = cc
not_pending _ h = refl

pub not_running : (s : RunStatus) → is_terminal s ≡ true → same_status s running ≡ false
not_running running h = cc
not_running _ h = refl

pub and_false : (a b : Bool) → a ≡ false → (a && b) ≡ false
and_false a b h = ground arith

module _ {F : Type 0} ⦃fl : Float F⦄ ⦃cn : Canonical F⦄ (w : Wire F) (id : String) where
  entry-Settled : (h : Handle) → Settled id (entry_checks w h)
  unfolding entry_checks
  entry-Settled h =
      Settled-branch id h.opens_existing _ _ (search settled_rules depth 20) (search settled_rules)

  exit-Settled : (h : Handle) → Settled id (exit_roots w h)
  unfolding exit_roots
  exit-Settled h =
      Settled-branch id h.opens_existing _ _ (search settled_rules depth 20) (search settled_rules)

  pub transaction-Settled :
      {A : Type 0} (h : Handle) (guard : List (VerifiedRunRoot F) → Result (Unit {0}))
      (body : Exec Ledger A)
      → Settled id body
      → Settled id (transaction w h guard body)
  unfolding transaction
  transaction-Settled h guard body inner =
      search (settled_rules, entry-Settled, exit-Settled) depth 24 fits 8000

  pub save-Refused : (m : RunManifest F) → Refused id (save_manifest_locked w id m)
  unfolding save_manifest_locked
  save-Refused m = Refused-rest id _ _ (search ledger_rules) (λ u.
      Refused-load id w _ (λ current ended.
        Refused-lift id (validate_manifest_transition w current m) _
          (λ v valid. let (open_run, _) = transition-returns w current m valid in cc)))

any_of_find :
    {A : Type 0} (test : A → Bool) (xs : List A) (x : A)
    → find test xs ≡ some x
    → any test xs ≡ true
any_of_find test [] x h = cc
any_of_find test (y ∷ xs) x h = ground (arith, any_of_find test xs x)

-- The primary key of `runs`.
pub insert_run-Refused : (r : RunRow) → Refused r.run_id (writes (insert_run r))
unfolding insert_run run_row
insert_run-Refused r = record {
  at = λ s t a (q, here, ended) h.
      let taken = any_of_find (λ (p : RunRow). p.run_id == r.run_id) s.runs q here in
      let stored = writes-returns (insert_run r) h in ground arith;
}
