-- ===== src/Audit/Total.antt =====
-- `audit_storage` returns a report whatever it finds.
use mathlib.Core.Path.{subst}
use guildmind.Common.{
  String, List, [], Bool, true, false, not, Option, none, some, ◌≡◌, refl, sym, ◌∙◌, ap, ◌==◌,
  eq_iff, is_lower_sha256, Result, ok, if◌then◌else◌, ◌⊎◌, inl, inr, require-eq-ok, >>=-eq-ok,
  ok-injective, Catchable-ok, Catchable-bind,
}
use guildmind.Domain.Float.{Float}
use guildmind.Domain.Event.{Canonical}
use guildmind.Store.Tables.{any}
use guildmind.Store.Wire.{Wire}
use guildmind.Store.Read.{VerifiedRunRoot}
use guildmind.Audit.Findings.{ArtifactAudit, validate_audit, has_items}
use guildmind.Audit.Snapshot.{VerifiedLedgerSnapshot, ledger_snapshot}
use guildmind.Audit.Report.{StorageIntegrityReport}
use guildmind.Audit.Unread.{
  empty_audit, incomplete_audit, missing_store_audit, missing_claims, empty_claims,
  incomplete_claims,
}
use guildmind.Audit.Site.{
  same_kind, regular, PathObservation, Site, attempt, is_ledger_error, is_artifact_error,
  state_directory, database, artifact_root,
}
use guildmind.Audit.Coordinator.{
  read_store, audit_for_snapshot, audit_without_database, unstable_report, report_unread,
  audit_ledger, attempt_ledger, report_found, report_ledger, audit_directory, audit_storage,
  is_missing, is_directory, are_unchanged, observed_paths, artifact_present, root_diagnostic,
}
use guildmind.Audit.Returns.{
  Returns, Returns-bind, Returns-attempt, report-Returns_unread, report-Returns_bound,
  incomplete_audit-Returns, ledger_snapshot-Returns,
}
use guildmind.Audit.Found.{attempt_ledger-Found}
use guildmind.Audit.Validated.{validate_audit-Validated}
use guildmind.Audit.Raises.{Behaves, read_store-Catchable, audit_ledger-Catchable}

if-Returns :
    {A : Type 0} (test : Bool) (x y : Result A)
    → Returns x
    → Returns y
    → Returns (if test then x else y)
if-Returns true x y p q = p
if-Returns false x y p q = q

pub if-eq-ok :
    {A : Type 0} (test : Bool) (x y : Result A) {a : A}
    → (if test then x else y) ≡ ok a
    → ((test ≡ true) × (x ≡ ok a)) ⊎ ((test ≡ false) × (y ≡ ok a))
if-eq-ok true x y h = inl (refl, h)
if-eq-ok false x y h = inr (refl, h)

module _ {F : Type 0} ⦃fl : Float F⦄ ⦃cn : Canonical F⦄ (w : Wire F) (site : Site F) where
  -- The audit of a snapshot is bound to it.
  validated :
      (a b : ArtifactAudit) (digest : String)
      → a.snapshot_sha256 ≡ digest
      → validate_audit w.before a ≡ ok b
      → b.snapshot_sha256 ≡ digest
  validated a b digest e h =
      let (_, _, same) = validate_audit-Validated w.before a b h in
      sym (ap (λ (x : ArtifactAudit). x.snapshot_sha256) same) ∙ e

  audit_for_snapshot-bound :
      (roots : List (VerifiedRunRoot F)) (s : VerifiedLedgerSnapshot) (o : PathObservation)
      (a : ArtifactAudit)
      → audit_for_snapshot w site roots s o ≡ ok a
      → a.snapshot_sha256 ≡ s.snapshot_sha256
  unfolding audit_for_snapshot missing_store_audit missing_claims empty_audit incomplete_audit
  audit_for_snapshot-bound roots s o a h = elim (if-eq-ok (is_directory o) _ _ h) [
    | inl (_, read) ↦
        let (b, _, rest) =
          >>=-eq-ok (attempt is_artifact_error (read_store w site 8 roots o) _) _ read in
        let (bound, last) = require-eq-ok (b.snapshot_sha256 == s.snapshot_sha256) _ _ rest in
        sym (ap (λ (x : ArtifactAudit). x.snapshot_sha256) (ok-injective b a last))
        ∙ (eq_iff b.snapshot_sha256 s.snapshot_sha256).0 bound
    | inr (_, unread) ↦ elim (if-eq-ok (is_missing o) _ _ unread) [
      | inl (_, absent) ↦
          elim (if-eq-ok
            (any (λ (root : VerifiedRunRoot F). has_items root.manifest.artifacts) roots)
            (missing_store_audit w.before roots s.snapshot_sha256)
            (empty_audit w.before s.snapshot_sha256) absent) [
              | inl (_, referenced) ↦
                  validated (missing_claims w.before roots s.snapshot_sha256) a s.snapshot_sha256
                    refl referenced
              | inr (_, nothing) ↦
                  validated (empty_claims w.before s.snapshot_sha256) a s.snapshot_sha256 refl
                    nothing
            ]
      | inr (_, invalid) ↦
          validated (incomplete_claims w.before s.snapshot_sha256 "artifact_store_path_invalid") a
            s.snapshot_sha256 refl invalid
    ]
  ]

  module _ (b : Behaves w site) where
    failed-Returns :
        (s : VerifiedLedgerSnapshot) (detail : String)
        → ledger_snapshot w [] ≡ ok s
        → Returns (incomplete_audit w.before s.snapshot_sha256 detail)
    failed-Returns s detail h =
        let (t, taken, lower) = ledger_snapshot-Returns w b.digests in
        let (a, made, _) = incomplete_audit-Returns w.before s.snapshot_sha256 detail (
          subst (λ (x : VerifiedLedgerSnapshot). is_lower_sha256 x.snapshot_sha256 ≡ true)
            (ok-injective t s (sym taken ∙ h)) lower) in
        (a, made)

    audit_without_database-Returns :
        (o : PathObservation) → Returns (audit_without_database w site o)
    unfolding audit_without_database
    audit_without_database-Returns o =
        let (s, taken, _) = ledger_snapshot-Returns w b.digests in
        if-Returns (is_missing o) (ok none) _ (_, refl)
          (Returns-bind (ledger_snapshot w []) _ (s, taken)
            (λ t h.
              Returns-bind
                (if not (is_directory o)
                  then incomplete_audit w.before t.snapshot_sha256 "artifact_store_path_invalid"
                  else attempt is_artifact_error (read_store w site 3 [] o)
                      (incomplete_audit w.before t.snapshot_sha256 "artifact_store_open_failed"))
                _
                (if-Returns (not (is_directory o)) _ _
                  (failed-Returns t "artifact_store_path_invalid" h)
                  (Returns-attempt is_artifact_error (read_store w site 3 [] o) _
                    (read_store-Catchable w site b 3 [] o)
                    (failed-Returns t "artifact_store_open_failed" h)))
                (λ a _. (some a, refl))))

    unstable_report-Returns : Returns (unstable_report w site)
    unfolding unstable_report
    unstable_report-Returns =
        if-Returns (not (is_directory (site.observe 5 state_directory))) _ _
          (report-Returns_unread false false none _) (report-Returns_unread _ _ none _)

    report_unread-Returns :
        (present : Bool) (g : Option String) → Returns (report_unread w site present g)
    unfolding report_unread
    report_unread-Returns present g =
        Returns-bind (audit_without_database w site (site.observe 2 artifact_root)) _
          (audit_without_database-Returns (site.observe 2 artifact_root))
          (λ a _.
            if-Returns (are_unchanged w site 4 (observed_paths w site)) _ _
              (report-Returns_unread present (artifact_present w site) a g) unstable_report-Returns)

    attempt_ledger-Returns : Returns (attempt_ledger w site)
    unfolding attempt_ledger
    attempt_ledger-Returns =
        Returns-attempt is_ledger_error _ _
          (Catchable-bind (audit_ledger w site) (λ found. ok (some found))
            (audit_ledger-Catchable w site b) (λ found. Catchable-ok (some found)))
          (none, refl)

    found-Returns :
        (found : Option (VerifiedLedgerSnapshot × ArtifactAudit))
        → attempt_ledger w site ≡ ok found
        → Returns (report_found w site found)
    unfolding report_found
    found-Returns none h = report-Returns_unread true (artifact_present w site) none _
    found-Returns (some (s, a)) h =
        let found = attempt_ledger-Found w site s a h in
        report-Returns_bound (artifact_present w site) s a (root_diagnostic w site)
          (audit_for_snapshot-bound found.roots s (site.observe 2 artifact_root) a found.audited)

    report_ledger-Returns : Returns (report_ledger w site)
    unfolding report_ledger
    report_ledger-Returns =
        Returns-bind (attempt_ledger w site) _ attempt_ledger-Returns found-Returns

    audit_directory-Returns : Returns (audit_directory w site)
    unfolding audit_directory
    audit_directory-Returns =
        if-Returns (is_missing (site.observe 2 database)) _ _ (report_unread-Returns false _) (
          if-Returns (same_kind (site.observe 2 database).kind regular) _ _ report_ledger-Returns
            (report_unread-Returns true _))

    -- If digests are 64 lowercase hexadecimal digits; if reading a record, inspecting the schema and
    -- SQLite's own check raise only an `OSError`, `DatabaseError`, `ValueError`, `KeyError`, `IndexError`
    -- or `StoreIntegrityError`; if opening the ledger and inspecting its path raise only the first three
    -- and the last of these; and if the artifact store raises only an `ArtifactCorruptionError`,
    -- `OSError`, `StoreIntegrityError` or `ValueError`; then the audit returns a report, whatever it
    -- observes in the state directory and however the paths change meanwhile.
    pub audit_storage-Returns : (r : StorageIntegrityReport) × (audit_storage w site ≡ ok r)
    unfolding audit_storage
    audit_storage-Returns =
        if-Returns (is_missing (site.observe 0 state_directory)) _ _
          (if-Returns _ _ _ (report-Returns_unread false false none none)
            (report-Returns_unread false false none _))
          (if-Returns (is_directory (site.observe 0 state_directory)) _ _ audit_directory-Returns
            (report-Returns_unread false false none _))
