-- ===== src/Audit/Found.antt =====
-- What the audit of the ledger has found when it returns.
use mathlib.Core.Path.{subst}
use guildmind.Common.{
  List, none, some, Bool, true, false, Error, ◌≡◌, Result, ok, err, ◌>>=◌, ◌⊎◌, inl, inr, >>=-eq-ok,
  ok-injective, if◌then◌else◌,
}
use guildmind.Domain.Float.{Float}
use guildmind.Domain.Event.{Canonical}
use guildmind.Store.Tables.{Ledger}
use guildmind.Store.Wire.{Wire}
use guildmind.Store.Write.{Handle}
use guildmind.Store.Read.{VerifiedRunRoot}
use guildmind.Store.Query.{verify_integrity}
use guildmind.Audit.Findings.{ArtifactAudit}
use guildmind.Audit.Snapshot.{VerifiedLedgerSnapshot, ledger_snapshot}
use guildmind.Audit.Site.{
  Site, attempt, is_ledger_error, require_same_path, state_directory, database, artifact_root,
}
use guildmind.Audit.Coordinator.{
  audit_for_snapshot, audit_ledger, attempt_ledger, require_same_sidecars, sidecars,
}

module _ {F : Type 0} ⦃fl : Float F⦄ ⦃cn : Canonical F⦄ (w : Wire F) (site : Site F) where
  -- The event store opened and verified the roots, the snapshot commits to them, the artifact audit is
  -- of these roots, and the three paths are as they were when the audit began.
  pub record Found (s : VerifiedLedgerSnapshot) (a : ArtifactAudit) : Type 0 where
    pub handle : Handle
    pub ledger : Ledger
    pub roots : List (VerifiedRunRoot F)
    pub opened : site.open_ledger ≡ ok (handle, ledger)
    pub verified : verify_integrity w handle ledger ≡ ok roots
    pub committed : ledger_snapshot w roots ≡ ok s
    pub audited : audit_for_snapshot w site roots s (site.observe 2 artifact_root) ≡ ok a
    pub same_state :
        require_same_path site 9 state_directory (site.observe 0 state_directory) ≡ ok tt
    pub same_database : require_same_path site 9 database (site.observe 2 database) ≡ ok tt
    pub same_root : require_same_path site 9 artifact_root (site.observe 2 artifact_root) ≡ ok tt

  audit_ledger-Found :
      (s : VerifiedLedgerSnapshot) (a : ArtifactAudit) → audit_ledger w site ≡ ok (s, a) → Found s a
  unfolding audit_ledger
  audit_ledger-Found s a h =
      let (o, opened, h1) = >>=-eq-ok site.open_ledger _ h in
      let (roots, verified, h2) = >>=-eq-ok (verify_integrity w o.0 o.1) _ h1 in
      let (_, _, h3) =
        >>=-eq-ok (require_same_path site 7 state_directory (site.observe 0 state_directory)) _
          h2 in
      let (_, _, h4) =
        >>=-eq-ok (require_same_path site 7 database (site.observe 2 database)) _ h3 in
      let (t, committed, h5) = >>=-eq-ok (ledger_snapshot w roots) _ h4 in
      let (b, audited, h6) =
        >>=-eq-ok (audit_for_snapshot w site roots t (site.observe 2 artifact_root)) _ h5 in
      let (u, same_state, h7) =
        >>=-eq-ok (require_same_path site 9 state_directory (site.observe 0 state_directory)) _
          h6 in
      let (v, same_database, h8) =
        >>=-eq-ok (require_same_path site 9 database (site.observe 2 database)) _ h7 in
      let (x, same_root, h9) =
        >>=-eq-ok (require_same_path site 9 artifact_root (site.observe 2 artifact_root)) _ h8 in
      let (_, _, last) = >>=-eq-ok (require_same_sidecars w site (sidecars w site)) _ h9 in
      let both = ok-injective (t, b) (s, a) last in
      subst (λ (p : VerifiedLedgerSnapshot × ArtifactAudit). Found p.0 p.1) both
        (record {
          handle = o.0;
          ledger = o.1;
          roots = roots;
          opened = opened;
          verified = verified;
          committed = committed;
          audited = audited;
          same_state = same_state;
          same_database = same_database;
          same_root = same_root;
        })

  attempt-eq-ok :
      {A : Type 0} (k : Error → Bool) (r handler : Result A) {v : A}
      → attempt k r handler ≡ ok v
      → (r ≡ ok v) ⊎ (handler ≡ ok v)
  unfolding attempt
  attempt-eq-ok k (ok x) handler h = inl h
  attempt-eq-ok k (err e) handler h = caught (k e) h
    where
      caught :
          {A : Type 0} {handler : Result A} {v : A} {e : Error} (test : Bool)
          → (if test then handler else err e) ≡ ok v
          → (err e ≡ ok v) ⊎ (handler ≡ ok v)
      caught true h = inr h
      caught false h = inl h

  pub attempt_ledger-Found :
      (s : VerifiedLedgerSnapshot) (a : ArtifactAudit)
      → attempt_ledger w site ≡ ok (some (s, a))
      → Found s a
  unfolding attempt_ledger
  attempt_ledger-Found s a h =
      elim (attempt-eq-ok is_ledger_error (audit_ledger w site >>= λ found. ok (some found))
        (ok none) h) [
          | inl returned ↦
              let (found, audited, last) = >>=-eq-ok (audit_ledger w site) _ returned in
              audit_ledger-Found s a (
                subst (λ (p : VerifiedLedgerSnapshot × ArtifactAudit). audit_ledger w site ≡ ok p)
                  (cc last) audited)
          | inr impossible ↦ absurd (cc impossible)
        ]
