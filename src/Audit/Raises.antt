-- ===== src/Audit/Raises.antt =====
-- The audit of the ledger raises only what the audit catches.
use guildmind.Common.{
  ℕ, String, List, [], ◌∷◌, true, ◌≡◌, is_lower_sha256, Catchable, catch_rules, Catchable-ok,
  Catchable-bind, Catchable-widen, Bool, Error, Result, refl, false,
}
use guildmind.Domain.Float.{Float}
use guildmind.Domain.Event.{Canonical}
use guildmind.Store.Tables.{Ledger}
use guildmind.Store.Wire.{Wire}
use guildmind.Store.Read.{VerifiedRunRoot}
use guildmind.Store.Write.{Handle}
use guildmind.Store.Raises.{Reads}
use guildmind.Store.Query.{verify_integrity}
use guildmind.Audit.Findings.{ArtifactAudit, validate_audit}
use guildmind.Audit.Snapshot.{VerifiedLedgerSnapshot, ledger_snapshot}
use guildmind.Audit.Unread.{empty_audit, incomplete_audit, missing_store_audit}
use guildmind.Audit.Site.{
  is_ledger_error, is_artifact_error, PathObservation, Location, Site, require_same_path,
}
use guildmind.Audit.Coordinator.{
  read_store, audit_for_snapshot, require_same_sidecars, audit_ledger,
}
use guildmind.Audit.Catchable.{
  Catchable-attempt, ledger-Catchable, artifact-Catchable, validate_audit-Catchable,
  ledger_snapshot-Catchable, verify_integrity-Catchable,
}

-- What opening a ledger and inspecting its path may raise: of the file system, of SQLite, the store's
-- own, and a refused argument.
abbrev pub is_open_failure : Error → Bool
is_open_failure (Error.os_error _) = true
is_open_failure (Error.constraint _) = true
is_open_failure (Error.store_integrity _) = true
is_open_failure (Error.value_error _) = true
is_open_failure Error.validation_error = true
is_open_failure _ = false

-- What opening and scanning the artifact store may raise, where SQLite has no part.
abbrev pub is_store_failure : Error → Bool
is_store_failure (Error.os_error _) = true
is_store_failure (Error.artifact_corruption _) = true
is_store_failure (Error.store_integrity _) = true
is_store_failure (Error.value_error _) = true
is_store_failure Error.validation_error = true
is_store_failure _ = false

-- The handlers list them.
open-Catchable :
    {A : Type 0} (r : Result A) → Catchable is_open_failure r → Catchable is_ledger_error r
open-Catchable r p = Catchable-widen is_open_failure r wide p
  where
    wide : (e : Error) → is_open_failure e ≡ true → is_ledger_error e ≡ true
    wide (Error.os_error m) h = refl
    wide (Error.constraint m) h = refl
    wide (Error.store_integrity m) h = refl
    wide (Error.value_error m) h = refl
    wide Error.validation_error h = refl
    wide _ h = absurd (cc h)

store-Catchable :
    {A : Type 0} (r : Result A) → Catchable is_store_failure r → Catchable is_artifact_error r
store-Catchable r p = Catchable-widen is_store_failure r wide p
  where
    wide : (e : Error) → is_store_failure e ≡ true → is_artifact_error e ≡ true
    wide (Error.os_error m) h = refl
    wide (Error.artifact_corruption m) h = refl
    wide (Error.store_integrity m) h = refl
    wide (Error.value_error m) h = refl
    wide Error.validation_error h = refl
    wide _ h = absurd (cc h)

-- A digest is 64 hexadecimal digits, and what the audit takes from elsewhere raises no other classes
-- than these: reading a record and inspecting the database, those of a failed verification; opening
-- the ledger and the artifact store, those above.
pub record Behaves {F : Type 0} ⦃cn : Canonical F⦄ (w : Wire F) (site : Site F) : Type 0 where
  pub digests : (t : String) → is_lower_sha256 (cn.sha256_hex t) ≡ true
  pub records : Reads w
  pub opens : Catchable is_open_failure site.open_ledger
  pub inspects : (l : Ledger) → Catchable is_open_failure (w.inspect_path l)
  pub audits :
      (roots : List (VerifiedRunRoot F)) → Catchable is_store_failure (site.audit_store roots)

module _ {F : Type 0} ⦃fl : Float F⦄ ⦃cn : Canonical F⦄ (w : Wire F) (site : Site F) where
  module _ (b : Behaves w site) where
    pub read_store-Catchable :
        (point : ℕ) (roots : List (VerifiedRunRoot F)) (o : PathObservation)
        → Catchable is_artifact_error (read_store w site point roots o)
    unfolding read_store require_same_path
    read_store-Catchable point roots o =
        let valid : (a : ArtifactAudit) → Catchable is_artifact_error (validate_audit w.before a) =
          λ a. artifact-Catchable _ (validate_audit-Catchable w.before a) in
        let scanned : (roots : List (VerifiedRunRoot F))
            → Catchable is_artifact_error (site.audit_store roots) =
          λ roots. store-Catchable _ (b.audits roots) in
        search (catch_rules, scanned, valid) depth 16

    audit_for_snapshot-Catchable :
        (roots : List (VerifiedRunRoot F)) (s : VerifiedLedgerSnapshot) (o : PathObservation)
        → Catchable is_ledger_error (audit_for_snapshot w site roots s o)
    unfolding audit_for_snapshot missing_store_audit empty_audit incomplete_audit
    audit_for_snapshot-Catchable roots s o =
        let valid : (a : ArtifactAudit) → Catchable is_ledger_error (validate_audit w.before a) =
          λ a. ledger-Catchable _ (validate_audit-Catchable w.before a) in
        search (catch_rules, Catchable-attempt is_artifact_error, read_store-Catchable, valid) depth
          16

    require_same_sidecars-Catchable :
        (places : List Location) → Catchable is_ledger_error (require_same_sidecars w site places)
    unfolding require_same_sidecars require_same_path
    require_same_sidecars-Catchable [] = Catchable-ok tt
    require_same_sidecars-Catchable (place ∷ places) =
        Catchable-bind (require_same_path site 9 place (site.observe 2 place)) _
          (search (catch_rules)) (λ _. require_same_sidecars-Catchable places)

    verified-Catchable :
        (h : Handle) (l : Ledger) → Catchable is_ledger_error (verify_integrity w h l)
    verified-Catchable h l =
        verify_integrity-Catchable w b.records h l (open-Catchable _ (b.inspects l))

    taken-Catchable :
        (roots : List (VerifiedRunRoot F)) → Catchable is_ledger_error (ledger_snapshot w roots)
    taken-Catchable roots = ledger-Catchable _ (ledger_snapshot-Catchable w roots)

    pub audit_ledger-Catchable : Catchable is_ledger_error (audit_ledger w site)
    unfolding audit_ledger require_same_path
    audit_ledger-Catchable = Catchable-bind site.open_ledger _ (open-Catchable _ b.opens) (λ opened.
        Catchable-bind (verify_integrity w opened.0 opened.1) _
          (verified-Catchable opened.0 opened.1)
          (λ roots.
            search
              (
                catch_rules, taken-Catchable, audit_for_snapshot-Catchable,
                require_same_sidecars-Catchable,
              )
              depth 32 fits 8000))
