-- ===== src/Audit/Quarantine.antt =====
-- The permission to quarantine, which an artifact audit derives for itself.
use mathlib.Core.Path.{subst}
use guildmind.Common.{
  List, String, Bool, true, false, not, Option, none, some, ◌≡◌, refl, sym, arith, inl, inr, ok,
  all, Bool-cases, ◌∷◌, [], ap, ◌∙◌,
}
use guildmind.Store.Tables.{any}
use guildmind.Audit.Findings.{ArtifactAudit, ReachableArtifact, derived_quarantine, validate_audit}
use guildmind.Audit.Snapshot.{VerifiedLedgerSnapshot}
use guildmind.Audit.Report.{
  StorageIntegrityReport, Derivation, derive_report, derive_audited, validate_report,
  has_referenced_failure,
}
use guildmind.Audit.Validated.{validate_audit-Validated}
use guildmind.Audit.Consistent.{validate_report-IsConsistent}
use guildmind.Audit.Gates.{
  Trusted, IsTrusted, derived, validate_report-Derived, validate_report-IsTrusted,
}

all_verified :
    (rs : List ReachableArtifact)
    → any (λ (r : ReachableArtifact). not r.bytes_verified) rs ≡ false
    → all (λ (r : ReachableArtifact). r.bytes_verified) rs ≡ true
all_verified [] h = refl
all_verified (r ∷ rs) h = let rest = all_verified rs (ground arith) in ground arith

Trusted-quarantine :
    (before : String → String → Bool) (s : VerifiedLedgerSnapshot) (a a' : ArtifactAudit)
    → validate_audit before a ≡ ok a'
    → Trusted s a
    → a.quarantine_allowed ≡ true
unfolding derived_quarantine
Trusted-quarantine before s a a' h t =
    let (complete, quarantine, _) = validate_audit-Validated before a a' h in
    let every = all_verified a.reachable t.verified in ground (arith, t.complete, t.unowned)

-- The quarantine gate of trusted evidence.
derive_report-quarantine :
    (before : String → String → Bool) (present : Bool) (s : Option VerifiedLedgerSnapshot)
    (a a' : ArtifactAudit) (g : Option String) (d : Derivation)
    → derive_report present s (some a) g ≡ ok d
    → validate_audit before a ≡ ok a'
    → IsTrusted present s (some a) g
    → d.quarantine_allowed ≡ true
unfolding derive_audited has_referenced_failure
derive_report-quarantine before false s a a' g d h v t = absurd t
derive_report-quarantine before true none a a' g d h v t = absurd t
derive_report-quarantine before true (some s) a a' (some g) d h v t = absurd t
derive_report-quarantine before true (some s) a a' none d h v t =
    let at = ap (λ (e : Derivation). e.quarantine_allowed) ((derived s a d h).1) in
    let allowed = Trusted-quarantine before s a a' v t in
    ground (arith, t.complete, t.unowned, t.verified)

-- In a report that passes its validator and whose artifact audit passes its own, quarantine is
-- allowed exactly when mutation is.
pub validate_report-quarantine :
    (before : String → String → Bool) (r r' : StorageIntegrityReport) (a a' : ArtifactAudit)
    → validate_report r ≡ ok r'
    → r.artifact_audit ≡ some a
    → validate_audit before a ≡ ok a'
    → r.quarantine_allowed ≡ r.mutation_allowed
validate_report-quarantine before r r' a a' h at v =
    let (d, e) = validate_report-Derived r r' h in
    let (to, _) = validate_report-IsTrusted r r' h in
    let trusted : (r.mutation_allowed ≡ true) → r.quarantine_allowed ≡ true = λ k.
      e.quarantine
      ∙ derive_report-quarantine before r.database_present r.ledger_snapshot a a' r.diagnostic d
          (subst
            (λ (o : Option ArtifactAudit).
              derive_report r.database_present r.ledger_snapshot o r.diagnostic ≡ ok d)
            at e.derives)
          v
          (subst
            (λ (o : Option ArtifactAudit).
              IsTrusted r.database_present r.ledger_snapshot o r.diagnostic)
            at (to k)) in
    let quarantines = (validate_report-IsConsistent r r' h).quarantines in
    elim (Bool-cases r.mutation_allowed) [
      | inl open_gate ↦ trusted open_gate ∙ sym open_gate
      | inr shut ↦ elim (Bool-cases r.quarantine_allowed) [
        | inl allowed ↦ ground arith
        | inr denied ↦ denied ∙ sym shut
      ]
    ]
