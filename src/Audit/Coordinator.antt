-- ===== src/Audit/Coordinator.antt =====
-- storage/coordinator.py: `audit_storage` and its parts. Each observation of a path has its point.
use guildmind.Common.{
  ℕ, String, List, [], ◌∷◌, Bool, true, false, not, ◌&&◌, ◌||◌, Option, none, some, ◌==◌, Error,
  Result, ok, require, ◌>>=◌, ◌>>◌, if◌then◌else◌,
}
use guildmind.Domain.Float.{Float}
use guildmind.Domain.Event.{Canonical}
use guildmind.Store.Tables.{any}
use guildmind.Store.Wire.{Wire}
use guildmind.Store.Read.{VerifiedRunRoot}
use guildmind.Store.Query.{verify_integrity}
use guildmind.Audit.Findings.{ArtifactAudit, validate_audit, has_items}
use guildmind.Audit.Snapshot.{VerifiedLedgerSnapshot, ledger_snapshot}
use guildmind.Audit.Report.{StorageIntegrityReport, report}
use guildmind.Audit.Unread.{empty_audit, incomplete_audit, missing_store_audit}
use guildmind.Audit.Site.{
  PathObservation, Location, Site, missing, directory, regular, state_directory, database,
  artifact_root, database_wal, database_shm, database_journal, same_kind, same_observation, attempt,
  is_artifact_error, is_ledger_error, require_same_path, path_diagnostic,
}

abbrev pub is_missing : PathObservation → Bool
is_missing o = same_kind o.kind missing

abbrev pub is_directory : PathObservation → Bool
is_directory o = same_kind o.kind directory

module _ {F : Type 0} ⦃fl : Float F⦄ ⦃cn : Canonical F⦄ (w : Wire F) (site : Site F) where
  -- `audit_artifact_store(roots, store)`, a validated record, and the path check behind it.
  unfoldable pub read_store : ℕ → List (VerifiedRunRoot F) → PathObservation → Result ArtifactAudit
  unfolding validate_audit require_same_path
  read_store point roots observation = do
    claims ← site.audit_store roots
    audit ← validate_audit w.before claims
    require_same_path site point artifact_root observation
    ok audit

  -- `_audit_for_snapshot`
  unfoldable pub audit_for_snapshot :
      List (VerifiedRunRoot F) → VerifiedLedgerSnapshot → PathObservation → Result ArtifactAudit
  unfolding attempt empty_audit incomplete_audit missing_store_audit
  audit_for_snapshot roots s observation =
      if is_directory observation
      then (do
        audit ←
            attempt is_artifact_error (read_store 8 roots observation)
              (incomplete_audit w.before s.snapshot_sha256 "artifact_store_open_failed")
        require (audit.snapshot_sha256 == s.snapshot_sha256)
            (Error.value_error "artifact audit snapshot binding mismatch")
        ok audit)
      else if is_missing observation
      then (if any (λ (root : VerifiedRunRoot F). has_items root.manifest.artifacts) roots
          then missing_store_audit w.before roots s.snapshot_sha256
          else empty_audit w.before s.snapshot_sha256)
      else incomplete_audit w.before s.snapshot_sha256 "artifact_store_path_invalid"

  -- `_audit_without_database`
  unfoldable pub audit_without_database : PathObservation → Result (Option ArtifactAudit)
  unfolding attempt ledger_snapshot incomplete_audit
  audit_without_database observation = if is_missing observation then ok none else (do
    s ← ledger_snapshot w []
    audit ←
        if not (is_directory observation)
        then incomplete_audit w.before s.snapshot_sha256 "artifact_store_path_invalid"
        else attempt is_artifact_error (read_store 3 [] observation)
            (incomplete_audit w.before s.snapshot_sha256 "artifact_store_open_failed")
    ok (some audit))

  -- `_paths_are_unchanged(observed_paths)`: each path at the point where it was first observed, and
  -- at a later one.
  abbrev pub are_unchanged : ℕ → List (ℕ × Location) → Bool
  are_unchanged later [] = true
  are_unchanged later ((point, place) ∷ rest) =
      same_observation (site.observe later place) (site.observe point place)
      && are_unchanged later rest

  abbrev pub observed_paths : List (ℕ × Location)
  observed_paths =
      (0, state_directory)
      ∷ (2, database)
      ∷ (2, artifact_root)
      ∷ (2, database_wal)
      ∷ (2, database_shm)
      ∷ (2, database_journal)
      ∷ []

  -- `_unstable_report`
  unfoldable pub unstable_report : Result StorageIntegrityReport
  unfolding report
  unstable_report =
      if not (is_directory (site.observe 5 state_directory))
      then report false false none none (some "state_directory_changed_during_audit")
      else report (not (is_missing (site.observe 5 database)))
          (not (is_missing (site.observe 5 artifact_root))) none none
          (some "storage_paths_changed_during_audit")

  -- The diagnostic of an artifact root that is neither missing nor a directory.
  abbrev pub root_diagnostic : Option String
  root_diagnostic =
      let o = site.observe 2 artifact_root in
      if is_missing o || is_directory o then none else some (path_diagnostic site artifact_root o)

  -- The loop over the sidecars, which stops at the first that is there.
  abbrev pub sidecar_diagnostic : List Location → Option String → Option String
  sidecar_diagnostic [] diagnostic = diagnostic
  sidecar_diagnostic (place ∷ rest) diagnostic =
      let o = site.observe 2 place in
      let next = sidecar_diagnostic rest diagnostic in
      if is_missing o then next else some (path_diagnostic site place o)

  abbrev pub sidecars : List Location
  sidecars = database_wal ∷ database_shm ∷ database_journal ∷ []

  abbrev pub artifact_present : Bool
  artifact_present = not (is_missing (site.observe 2 artifact_root))

  -- The report of a missing or of an irregular database, unless a path has changed.
  unfoldable pub report_unread : Bool → Option String → Result StorageIntegrityReport
  unfolding audit_without_database unstable_report report
  report_unread present diagnostic = do
    audit ← audit_without_database (site.observe 2 artifact_root)
    if are_unchanged 4 observed_paths
        then report present artifact_present none audit diagnostic
        else unstable_report

  unfoldable pub require_same_sidecars : List Location → Result (Unit {0})
  unfolding require_same_path
  require_same_sidecars [] = ok tt
  require_same_sidecars (place ∷ rest) = do
    require_same_path site 9 place (site.observe 2 place)
    require_same_sidecars rest

  -- The `try` block: the ledger's roots, and the store against them while the snapshot is held.
  unfoldable pub audit_ledger : Result (VerifiedLedgerSnapshot × ArtifactAudit)
  unfolding verify_integrity require_same_path ledger_snapshot audit_for_snapshot
  audit_ledger = do
    opened ← site.open_ledger
    roots ← verify_integrity w opened.0 opened.1
    require_same_path site 7 state_directory (site.observe 0 state_directory)
    require_same_path site 7 database (site.observe 2 database)
    s ← ledger_snapshot w roots
    audit ← audit_for_snapshot roots s (site.observe 2 artifact_root)
    require_same_path site 9 state_directory (site.observe 0 state_directory)
    require_same_path site 9 database (site.observe 2 database)
    require_same_path site 9 artifact_root (site.observe 2 artifact_root)
    require_same_sidecars sidecars
    ok (s, audit)

  -- What `audit_ledger` found, or `none` for a caught exception.
  unfoldable pub attempt_ledger : Result (Option (VerifiedLedgerSnapshot × ArtifactAudit))
  unfolding attempt audit_ledger
  attempt_ledger = attempt is_ledger_error (do found ← audit_ledger; ok (some found)) (ok none)

  -- The two reports behind the `try` block.
  unfoldable pub report_found :
      Option (VerifiedLedgerSnapshot × ArtifactAudit) → Result StorageIntegrityReport
  unfolding report
  report_found none =
      report true artifact_present none none (some "database_integrity_validation_failed")
  report_found (some (s, audit)) =
      report true artifact_present (some s) (some audit) root_diagnostic

  -- The report of a regular database file.
  unfoldable pub report_ledger : Result StorageIntegrityReport
  unfolding attempt_ledger report_found
  report_ledger = do found ← attempt_ledger; report_found found

  -- The part for a state directory that is a directory.
  unfoldable pub audit_directory : Result StorageIntegrityReport
  unfolding report_unread report_ledger path_diagnostic
  audit_directory =
      let o = site.observe 2 database in
      if is_missing o
      then report_unread false (sidecar_diagnostic sidecars root_diagnostic)
      else if same_kind o.kind regular
      then report_ledger
      else report_unread true (some (path_diagnostic site database o))

  unfoldable pub audit_storage : Result StorageIntegrityReport
  unfolding audit_directory report path_diagnostic
  audit_storage =
      let o = site.observe 0 state_directory in
      if is_missing o
      then (if same_observation (site.observe 1 state_directory) o
          then report false false none none none
          else report false false none none (some "state_directory_changed_during_audit"))
      else if is_directory o
      then audit_directory
      else report false false none none (some (path_diagnostic site state_directory o))
