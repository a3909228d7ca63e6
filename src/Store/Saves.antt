-- ===== src/Store/Saves.antt =====
-- `_save_manifest_locked` as a step of `Extends`: the checks on the transition keep a run from going
-- back, and an ended run from being written.
use guildmind.Common.{
  String, true, false, Bool, Option, some, not, ◌≡◌, ◌≤◌, refl, sym, ap, ◌∙◌, arith, Result, ok,
  require, require-eq-ok, or_raise, Error, ◌>>=◌, ◌>>◌, or_raise-eq-ok, >>=-eq-ok, ok-injective,
  eq_iff, ◌==◌, Bool-cases, inl, inr, not-eq-true, eqb, ◌&&◌,
}
use mathlib.Core.Path.{subst}
use guildmind.Domain.Float.{Float}
use guildmind.Domain.Status.{RunStatus, pending, running, is_terminal, value}
use guildmind.Domain.Event.{Canonical}
use guildmind.Domain.Manifest.{RunManifest}
use guildmind.Store.Exec.{Respects}
use guildmind.Store.Returns.{check-then, reads-then, lift-then, writes-then, writes-returns}
use guildmind.Store.Tables.{
  Ledger, RunRow, ManifestRow, run_row, manifest_row, insert_manifest, any,
}
use guildmind.Store.Wire.{Wire}
use guildmind.Store.Manifests.{
  integrity, same_fixed, check_status_change, check_rebound, validate_manifest_transition,
}
use guildmind.Store.Read.{load_manifest_locked}
use guildmind.Store.Write.{save_manifest_locked}
use guildmind.Store.Extends.{Extends, Extends-trans, rank}
use guildmind.Store.Statements.{insert_manifest-Extends, update_run-Extends}

pub rank-value_terminal : (s : RunStatus) → rank (value s) ≡ 2 → is_terminal s ≡ true
rank-value_terminal pending h = absurd (omega arith)
rank-value_terminal running h = absurd (omega arith)
rank-value_terminal _ h = refl

status_up : (s t : RunStatus) → check_status_change s t ≡ ok tt → rank (value s) ≤ rank (value t)
unfolding check_status_change
status_up pending t h = omega arith
status_up running pending h = absurd (cc h)
status_up running _ h = omega arith
status_up _ t h = absurd (cc h)

-- The tail of `_load_manifest_locked`, and the guards of `_validate_manifest_transition`.
guarded-returns :
    {A H : Type 0} (hash status : Bool) (e₁ e₂ e₃ e₄ : Error) (history : Option H) (test : H → Bool)
    (m' m : A)
    → (require hash e₁
        >> (require status e₂ >> (or_raise history e₃ >>= λ x. (require (test x) e₄ >> ok m'))))
      ≡ ok m
    → (status ≡ true) × (m' ≡ m)
guarded-returns hash status e₁ e₂ e₃ e₄ history test m' m h =
    let (_, h₁) = require-eq-ok hash e₁ _ h in
    let (right, h₂) = require-eq-ok status e₂ _ h₁ in
    let (x, _, h₃) = or_raise-eq-ok history e₃ _ h₂ in
    let (_, h₄) = require-eq-ok (test x) e₄ _ h₃ in (right, ok-injective m' m h₄)

open-returns :
    (own fixed ended : Bool) (e₁ e₂ e₃ : Error) (change rest : Result (Unit {0}))
    → (require own e₁ >> (require fixed e₂ >> (require (not ended) e₃ >> (change >> rest)))) ≡ ok tt
    → (ended ≡ false) × (change ≡ ok tt)
open-returns own fixed ended e₁ e₂ e₃ change rest h =
    let (_, h₁) = require-eq-ok own e₁ _ h in
    let (_, h₂) = require-eq-ok fixed e₂ _ h₁ in
    let (open_run, h₃) = require-eq-ok (not ended) e₃ _ h₂ in
    let (u, changed, _) = >>=-eq-ok change _ h₃ in (not-eq-true ended open_run, changed)

module _ {F : Type 0} ⦃fl : Float F⦄ ⦃cn : Canonical F⦄ (w : Wire F) where
  -- A manifest that loads is the one of the row, and has its status.
  pub load_manifest_locked-returns :
      (id : String) (l : Ledger) {m : RunManifest F}
      → load_manifest_locked w id l ≡ ok m
      → (row : RunRow) × (run_row id l ≡ some row)
        × (w.read_manifest row.manifest_json ≡ ok m)
        × (row.status ≡ value m.status)
  unfolding load_manifest_locked
  load_manifest_locked-returns id l {m} h =
      let (row, here, h₁) = or_raise-eq-ok (run_row id l) _ _ h in
      let (m', read, h₂) = >>=-eq-ok (w.read_manifest row.manifest_json) _ h₁ in
      let (status, e) =
        guarded-returns _ _ _ _ (integrity "manifest revision is missing")
          (integrity "manifest revision mismatch") (manifest_row id row.manifest_revision l)
          (λ (x : ManifestRow).
            x.manifest_json == row.manifest_json && x.manifest_sha256 == row.manifest_sha256)
          m' m h₂ in
      (
        row,
        here,
        read ∙ ap ok e,
        (eq_iff row.status (value m'.status)).0 status
            ∙ ap (λ (x : RunManifest F). value x.status) e,
      )

  pub transition-returns :
      (current proposed : RunManifest F)
      → validate_manifest_transition w current proposed ≡ ok tt
      → (is_terminal current.status ≡ false)
        × (rank (value current.status) ≤ rank (value proposed.status))
  unfolding validate_manifest_transition
  transition-returns current proposed h =
      let (open_run, change) =
        open-returns (current.run_id == proposed.run_id) (same_fixed w current proposed)
          (is_terminal current.status) (Error.value_error "manifest run ID cannot change")
          (integrity "immutable manifest identity changed")
          (integrity "terminal manifests cannot transition")
          (check_status_change current.status proposed.status) (check_rebound current proposed) h in
      (open_run, status_up current.status proposed.status change)

insert_manifest-run_row :
    (r : ManifestRow) (id : String) (s t : Ledger)
    → insert_manifest r s ≡ ok t
    → run_row id t ≡ run_row id s
unfolding insert_manifest run_row
insert_manifest-run_row r id s t h =
    elim (Bool-cases (
      any (λ (q : ManifestRow). q.run_id == r.run_id && eqb q.revision r.revision)
        s.run_manifests)) [ inl dup ↦ absurd (ground arith) | inr new ↦ ground arith ]

module _ {F : Type 0} ⦃fl : Float F⦄ ⦃cn : Canonical F⦄ (w : Wire F) (id : String) where
  pub save_manifest_locked-Extends :
      (m : RunManifest F) → Respects (Extends id) (save_manifest_locked w id m)
  unfolding save_manifest_locked
  save_manifest_locked-Extends m = record {
    at = λ s t u h.
        let (own, h₁) = check-then _ _ _ h in
        let (current, loaded, h₂) = reads-then _ _ h₁ in
        let (_, valid, h₃) = lift-then (validate_manifest_transition w current m) _ h₂ in
        let (row, here, h₄) = reads-then _ _ h₃ in
        let (s₁, inserted, h₅) = writes-then _ _ h₄ in
        let (old, found, _, status) = load_manifest_locked-returns w id s loaded in
        let (open_run, up) = transition-returns w current m valid in
        let kept = insert_manifest-run_row _ id s s₁ inserted in
        Extends-trans id s s₁ t (insert_manifest-Extends _ refl s s₁ inserted) (
          update_run-Extends _ old refl s₁ t (kept ∙ found)
            (subst (λ (x : String). rank x ≤ rank (value m.status)) (sym status) up)
            (λ ended.
              let closed = rank-value_terminal current.status (sym (ap rank status) ∙ ended) in cc)
            (writes-returns _ h₅));
  }
