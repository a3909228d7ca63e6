-- ===== src/Audit/Permission.antt =====
-- What the audit has seen when its report allows mutation.
use guildmind.Common.{
  String, Bool, true, false, not, Option, none, some, ◌≡◌, sym, ◌∙◌, ap, ok, inl, inr, >>=-eq-ok,
  require-eq-ok, ok-injective,
}
use guildmind.Domain.Float.{Float}
use guildmind.Domain.Event.{Canonical}
use guildmind.Store.Wire.{Wire}
use guildmind.Audit.Findings.{ArtifactAudit}
use guildmind.Audit.Snapshot.{VerifiedLedgerSnapshot}
use guildmind.Audit.Report.{
  StorageIntegrityReport, Derivation, derive_report, reported, report, validate_report, same_gates,
  is_bound,
}
use guildmind.Audit.Gates.{Trusted, IsTrusted, derive_report-IsTrusted}
use guildmind.Audit.Site.{
  Site, same_kind, same_observation, regular, state_directory, database, artifact_root,
  path_diagnostic,
}
use guildmind.Audit.Coordinator.{
  is_missing, is_directory, are_unchanged, observed_paths, audit_without_database, unstable_report,
  report_unread, attempt_ledger, report_found, report_ledger, audit_directory, audit_storage,
  artifact_present, root_diagnostic,
}
use guildmind.Audit.Found.{Found, attempt_ledger-Found}
use guildmind.Audit.Total.{if-eq-ok}

-- A report that is made is the record of its derivation.
report-reported :
    (present root : Bool) (s : Option VerifiedLedgerSnapshot) (a : Option ArtifactAudit)
    (g : Option String) (r : StorageIntegrityReport)
    → report present root s a g ≡ ok r
    → (d : Derivation) × (derive_report present s a g ≡ ok d) × (reported d present root s a g ≡ r)
unfolding report validate_report
report-reported present root s a g r h =
    let (d, derives, checked) = >>=-eq-ok (derive_report present s a g) _ h in
    let (d', _, compared) = >>=-eq-ok (derive_report present s a g) _ checked in
    let (_, bound) = require-eq-ok (same_gates (reported d present root s a g) d') _ _ compared in
    let (_, last) = require-eq-ok (is_bound (reported d present root s a g)) _ _ bound in
    (d, derives, ok-injective _ _ last)

-- A report that allows mutation is about trusted evidence.
report-IsTrusted :
    (present root : Bool) (s : Option VerifiedLedgerSnapshot) (a : Option ArtifactAudit)
    (g : Option String) (r : StorageIntegrityReport)
    → report present root s a g ≡ ok r
    → r.mutation_allowed ≡ true
    → IsTrusted present s a g
report-IsTrusted present root s a g r h allowed =
    let (d, derives, same) = report-reported present root s a g r h in
    (derive_report-IsTrusted present s a g d derives).0
      (ap (λ (x : StorageIntegrityReport). x.mutation_allowed) same ∙ allowed)

unread-IsTrusted :
    (present : Bool) (a : Option ArtifactAudit) (g : Option String) → IsTrusted present none a g → ⊥
unread-IsTrusted true a g t = t
unread-IsTrusted false a g t = t

report-unread :
    (present root : Bool) (a : Option ArtifactAudit) (g : Option String)
    (r : StorageIntegrityReport)
    → report present root none a g ≡ ok r
    → r.mutation_allowed ≡ true
    → ⊥
report-unread present root a g r h allowed =
    unread-IsTrusted present a g (report-IsTrusted present root none a g r h allowed)

module _ {F : Type 0} ⦃fl : Float F⦄ ⦃cn : Canonical F⦄ (w : Wire F) (site : Site F) where
  -- The evidence behind a report that allows mutation.
  pub record Permitted (r : StorageIntegrityReport) : Type 0 where
    pub snapshot : VerifiedLedgerSnapshot
    pub audit : ArtifactAudit
    pub found : Found w site snapshot audit
    pub trusted : Trusted snapshot audit
    pub keeps_snapshot : r.ledger_snapshot ≡ some snapshot
    pub keeps_audit : r.artifact_audit ≡ some audit

  report_found-Permitted :
      (found : Option (VerifiedLedgerSnapshot × ArtifactAudit)) (r : StorageIntegrityReport)
      → attempt_ledger w site ≡ ok found
      → report_found w site found ≡ ok r
      → r.mutation_allowed ≡ true
      → Permitted r
  unfolding report_found
  report_found-Permitted none r h made allowed =
      absurd (report-unread true (artifact_present w site) none _ r made allowed)
  report_found-Permitted (some (s, a)) r h made allowed =
      let (d, _, same) =
        report-reported true (artifact_present w site) (some s) (some a) (root_diagnostic w site) r
          made in
      record {
        snapshot = s;
        audit = a;
        found = attempt_ledger-Found w site s a h;
        trusted = undiagnosed (root_diagnostic w site) (
            report-IsTrusted true (artifact_present w site) (some s) (some a)
              (root_diagnostic w site) r made allowed);
        keeps_snapshot = sym (ap (λ (x : StorageIntegrityReport). x.ledger_snapshot) same);
        keeps_audit = sym (ap (λ (x : StorageIntegrityReport). x.artifact_audit) same);
      }
    where
      undiagnosed :
          {s : VerifiedLedgerSnapshot} {a : ArtifactAudit} (g : Option String)
          → IsTrusted true (some s) (some a) g
          → Trusted s a
      undiagnosed none t = t
      undiagnosed (some g) t = absurd t

  unstable_report-shut :
      (r : StorageIntegrityReport) → unstable_report w site ≡ ok r → r.mutation_allowed ≡ true → ⊥
  unfolding unstable_report
  unstable_report-shut r h allowed =
      elim (if-eq-ok (not (is_directory (site.observe 5 state_directory))) _ _ h) [
        | inl (_, made) ↦ report-unread false false none _ r made allowed
        | inr (_, made) ↦ report-unread _ _ none _ r made allowed
      ]

  report_unread-shut :
      (present : Bool) (g : Option String) (r : StorageIntegrityReport)
      → report_unread w site present g ≡ ok r
      → r.mutation_allowed ≡ true
      → ⊥
  unfolding report_unread
  report_unread-shut present g r h allowed =
      let (a, _, rest) =
        >>=-eq-ok (audit_without_database w site (site.observe 2 artifact_root)) _ h in
      elim (if-eq-ok (are_unchanged w site 4 (observed_paths w site)) _ _ rest) [
        | inl (_, made) ↦ report-unread present (artifact_present w site) a g r made allowed
        | inr (_, made) ↦ unstable_report-shut r made allowed
      ]

  audit_directory-Permitted :
      (r : StorageIntegrityReport)
      → audit_directory w site ≡ ok r
      → r.mutation_allowed ≡ true
      → Permitted r
  unfolding audit_directory report_ledger
  audit_directory-Permitted r h allowed =
      elim (if-eq-ok (is_missing (site.observe 2 database)) _ _ h) [
        | inl (_, made) ↦ absurd (report_unread-shut false _ r made allowed)
        | inr (_, rest) ↦
            elim (if-eq-ok (same_kind (site.observe 2 database).kind regular) (report_ledger w site)
              (report_unread w site true
                (some (path_diagnostic site database (site.observe 2 database))))
              rest) [
                | inl (_, made) ↦
                    let (found, attempted, last) = >>=-eq-ok (attempt_ledger w site) _ made in
                    report_found-Permitted found r attempted last allowed
                | inr (_, made) ↦ absurd (report_unread-shut true _ r made allowed)
              ]
      ]

  -- If the report of an audit allows mutation, then the event store was opened and its ledger verified,
  -- the report's snapshot commits to the verified roots, its artifact audit is the one made of these
  -- roots, with no finding about referenced bytes and all reachable bytes verified, and at the end the
  -- state directory, the database and the artifact root were the paths observed at the beginning.
  pub audit_storage-Permitted :
      (r : StorageIntegrityReport)
      → audit_storage w site ≡ ok r
      → r.mutation_allowed ≡ true
      → Permitted r
  unfolding audit_storage
  audit_storage-Permitted r h allowed =
      elim (if-eq-ok (is_missing (site.observe 0 state_directory)) _ _ h) [
        | inl (_, absent) ↦
            elim (if-eq-ok
              (same_observation (site.observe 1 state_directory) (site.observe 0 state_directory))
              (report false false none none none)
              (report false false none none (some "state_directory_changed_during_audit")) absent) [
                | inl (_, made) ↦ absurd (report-unread false false none _ r made allowed)
                | inr (_, made) ↦ absurd (report-unread false false none _ r made allowed)
              ]
        | inr (_, present) ↦
            elim (if-eq-ok (is_directory (site.observe 0 state_directory)) (audit_directory w site)
              (report false false none none
                (some (path_diagnostic site state_directory (site.observe 0 state_directory))))
              present) [
                | inl (_, made) ↦ audit_directory-Permitted r made allowed
                | inr (_, made) ↦ absurd (report-unread false false none _ r made allowed)
              ]
      ]
