-- ===== src/Audit/Gates.antt =====
-- What the gates of a report permit: the derivation against an independent account of it.
use guildmind.Common.{
  String, Bool, true, false, not, Option, none, some, ◌≡◌, sym, ◌==◌, arith, ◌↔◌, ok, require-eq-ok,
  >>=-eq-ok, ok-injective, eq_iff, ap, ◌∙◌,
}
use guildmind.Store.Tables.{any}
use guildmind.Audit.Findings.{ArtifactAudit, ReachableArtifact, has_owner}
use guildmind.Audit.Snapshot.{VerifiedLedgerSnapshot}
use guildmind.Audit.Report.{
  StorageIntegrityReport, Derivation, derive_report, derive_absent, derive_audited, same_gates,
  validate_report, has_referenced_failure,
}

-- The evidence that an operation needs: a ledger snapshot and a complete audit of it, in which no
-- finding is about referenced bytes and all reachable bytes are verified.
pub record Trusted (s : VerifiedLedgerSnapshot) (a : ArtifactAudit) : Type 0 where
  pub bound : a.snapshot_sha256 ≡ s.snapshot_sha256
  pub complete : a.complete ≡ true
  pub unowned : any has_owner a.findings ≡ false
  pub verified : any (λ (r : ReachableArtifact). not r.bytes_verified) a.reachable ≡ false

abbrev pub IsTrusted :
    Bool → Option VerifiedLedgerSnapshot → Option ArtifactAudit → Option String → Type 0
IsTrusted true (some s) (some a) none = Trusted s a
IsTrusted _ _ _ _ = ⊥

-- The gates of a report that passes its validator are those of the derivation.
pub record Derived (r : StorageIntegrityReport) (d : Derivation) : Type 0 where
  pub derives :
      derive_report r.database_present r.ledger_snapshot r.artifact_audit r.diagnostic ≡ ok d
  pub initialization : r.initialization_allowed ≡ d.initialization_allowed
  pub references : r.references_verified ≡ d.references_verified
  pub read : r.read_allowed ≡ d.read_allowed
  pub mutation : r.mutation_allowed ≡ d.mutation_allowed
  pub quarantine : r.quarantine_allowed ≡ d.quarantine_allowed
  pub clean : r.clean ≡ d.clean

same_gates-Derived :
    (r : StorageIntegrityReport) (d : Derivation)
    → derive_report r.database_present r.ledger_snapshot r.artifact_audit r.diagnostic ≡ ok d
    → same_gates r d ≡ true
    → Derived r d
unfolding same_gates
same_gates-Derived r d derives same = record {
  derives = derives;
  initialization = ground arith;
  references = ground arith;
  read = ground arith;
  mutation = ground arith;
  quarantine = ground arith;
  clean = ground arith;
}

pub validate_report-Derived :
    (r r' : StorageIntegrityReport) → validate_report r ≡ ok r' → (d : Derivation) × Derived r d
unfolding validate_report
validate_report-Derived r r' h =
    let (d, derives, rest) =
      >>=-eq-ok (derive_report r.database_present r.ledger_snapshot r.artifact_audit r.diagnostic) _
        h in
    let (same, _) = require-eq-ok (same_gates r d) _ _ rest in
    (d, same_gates-Derived r d derives same)

derive_audited-Trusted :
    (s : VerifiedLedgerSnapshot) (a : ArtifactAudit)
    → a.snapshot_sha256 ≡ s.snapshot_sha256
    → (derive_audited s a).mutation_allowed ≡ true
    → Trusted s a
unfolding derive_audited has_referenced_failure
derive_audited-Trusted s a bound h = record {
  bound = bound;
  complete = ground arith;
  unowned = ground arith;
  verified = ground arith;
}

Trusted-mutation :
    (s : VerifiedLedgerSnapshot) (a : ArtifactAudit)
    → Trusted s a
    → (derive_audited s a).mutation_allowed ≡ true
unfolding derive_audited has_referenced_failure
Trusted-mutation s a t = ground (arith, t.complete, t.unowned, t.verified)

-- The derivation of a database that is present, without a diagnostic, and audited.
pub derived :
    (s : VerifiedLedgerSnapshot) (a : ArtifactAudit) (d : Derivation)
    → derive_report true (some s) (some a) none ≡ ok d
    → (a.snapshot_sha256 ≡ s.snapshot_sha256) × (derive_audited s a ≡ d)
unfolding derive_report
derived s a d h =
    let (bound, rest) = require-eq-ok (a.snapshot_sha256 == s.snapshot_sha256) _ _ h in
    ((eq_iff a.snapshot_sha256 s.snapshot_sha256).0 bound, ok-injective _ _ rest)

derive_absent-mutation :
    (a : Option ArtifactAudit) (g : Option String) → (derive_absent a g).mutation_allowed ≡ false
unfolding derive_absent
derive_absent-mutation a g = ground arith

-- Mutation is allowed exactly on trusted evidence.
pub derive_report-IsTrusted :
    (present : Bool) (s : Option VerifiedLedgerSnapshot) (a : Option ArtifactAudit)
    (g : Option String) (d : Derivation)
    → derive_report present s a g ≡ ok d
    → (d.mutation_allowed ≡ true) ↔ IsTrusted present s a g
unfolding derive_report
derive_report-IsTrusted false s a g d h =
    let at = ap (λ (e : Derivation). e.mutation_allowed) (ok-injective _ _ h) in
    let shut = derive_absent-mutation a g in (λ k. absurd (cc), λ t. absurd t)
derive_report-IsTrusted true none a g d h =
    let at = ap (λ (e : Derivation). e.mutation_allowed) (ok-injective _ _ h) in
    (λ k. absurd (cc), λ t. absurd t)
derive_report-IsTrusted true (some s) none (some g) d h =
    let at = ap (λ (e : Derivation). e.mutation_allowed) (ok-injective _ _ h) in
    (λ k. absurd (cc), λ t. absurd t)
derive_report-IsTrusted true (some s) (some a) (some g) d h =
    let at = ap (λ (e : Derivation). e.mutation_allowed) (ok-injective _ _ h) in
    (λ k. absurd (cc), λ t. absurd t)
derive_report-IsTrusted true (some s) none none d h = absurd (cc h)
derive_report-IsTrusted true (some s) (some a) none d h =
    let (bound, same) = derived s a d h in
    let at = ap (λ (e : Derivation). e.mutation_allowed) same in
    (λ k. derive_audited-Trusted s a bound (at ∙ k), λ t. sym at ∙ Trusted-mutation s a t)

-- A report that passes its validator allows mutation exactly if it has a database, a ledger snapshot,
-- a complete artifact audit bound to that snapshot, and no diagnostic, and in the audit no finding has
-- an owner and the bytes of every reachable artifact are verified.
pub validate_report-IsTrusted :
    (r r' : StorageIntegrityReport)
    → validate_report r ≡ ok r'
    → (r.mutation_allowed ≡ true)
      ↔ IsTrusted r.database_present r.ledger_snapshot r.artifact_audit r.diagnostic
validate_report-IsTrusted r r' h =
    let (d, e) = validate_report-Derived r r' h in
    let (to, from) =
      derive_report-IsTrusted r.database_present r.ledger_snapshot r.artifact_audit r.diagnostic d
        e.derives in
    (λ k. to (sym e.mutation ∙ k), λ t. e.mutation ∙ from t)
