-- ===== src/Audit/Consistent.antt =====
-- The gates of a report agree with each other.
use mathlib.Core.Path.{subst}
use guildmind.Common.{
  String, Bool, true, false, not, ◌&&◌, ◌||◌, Option, none, some, ◌≡◌, refl, sym, arith, ok,
  ok-injective, ◌∙◌,
}
use guildmind.Audit.Findings.{ArtifactAudit}
use guildmind.Audit.Snapshot.{VerifiedLedgerSnapshot}
use guildmind.Audit.Report.{
  StorageIntegrityReport, Derivation, derive_report, derive_absent, derive_audited, closed,
  validate_report, audited_state, database_invalid, audit_incomplete, StorageIntegrityState,
}
use guildmind.Audit.Gates.{derived, validate_report-Derived}

-- The tuple `observed` of the validator.
abbrev pub observed : StorageIntegrityReport → Derivation
observed r = record {
  state = r.state;
  initialization_allowed = r.initialization_allowed;
  references_verified = r.references_verified;
  read_allowed = r.read_allowed;
  mutation_allowed = r.mutation_allowed;
  quarantine_allowed = r.quarantine_allowed;
  clean = r.clean;
}

-- What one derivation allows agrees with the rest of it.
pub record IsConsistent (d : Derivation) : Type 0 where
  pub reads : d.read_allowed ≡ d.references_verified
  pub mutates : d.mutation_allowed ≡ d.references_verified
  pub initializes : (d.initialization_allowed && d.mutation_allowed) ≡ false
  pub clean_allows : (not d.clean || (d.initialization_allowed || d.mutation_allowed)) ≡ true
  pub quarantines : (not d.quarantine_allowed || d.mutation_allowed) ≡ true

derive_absent-IsConsistent :
    (a : Option ArtifactAudit) (g : Option String) → IsConsistent (derive_absent a g)
unfolding derive_absent
derive_absent-IsConsistent a g = record {
  reads = ground arith;
  mutates = ground arith;
  initializes = ground arith;
  clean_allows = ground arith;
  quarantines = ground arith;
}

derive_audited-IsConsistent :
    (s : VerifiedLedgerSnapshot) (a : ArtifactAudit) → IsConsistent (derive_audited s a)
unfolding derive_audited audited_state
derive_audited-IsConsistent s a = record {
  reads = refl;
  mutates = refl;
  initializes = refl;
  clean_allows = ground arith;
  quarantines = ground arith;
}

closed-IsConsistent : (state : StorageIntegrityState) → IsConsistent (closed state)
closed-IsConsistent state = record {
  reads = refl;
  mutates = refl;
  initializes = refl;
  clean_allows = refl;
  quarantines = refl;
}

derive_report-IsConsistent :
    (present : Bool) (s : Option VerifiedLedgerSnapshot) (a : Option ArtifactAudit)
    (g : Option String) (d : Derivation)
    → derive_report present s a g ≡ ok d
    → IsConsistent d
unfolding derive_report
derive_report-IsConsistent false s a g d h =
    subst IsConsistent (ok-injective _ _ h) (derive_absent-IsConsistent a g)
derive_report-IsConsistent true none a g d h =
    subst IsConsistent (ok-injective _ _ h) (closed-IsConsistent database_invalid)
derive_report-IsConsistent true (some s) a (some g) d h =
    subst IsConsistent (ok-injective _ _ h) (closed-IsConsistent audit_incomplete)
derive_report-IsConsistent true (some s) none none d h = absurd (cc h)
derive_report-IsConsistent true (some s) (some a) none d h =
    subst IsConsistent ((derived s a d h).1) (derive_audited-IsConsistent s a)

-- A report that passes its validator has consistent gates: reading and mutation are allowed exactly
-- when the references are verified, initialization and mutation are never both allowed, a clean
-- directory allows one of the two, and quarantine needs what mutation needs.
pub validate_report-IsConsistent :
    (r r' : StorageIntegrityReport) → validate_report r ≡ ok r' → IsConsistent (observed r)
validate_report-IsConsistent r r' h =
    let (d, e) = validate_report-Derived r r' h in
    let c =
      derive_report-IsConsistent r.database_present r.ledger_snapshot r.artifact_audit r.diagnostic
        d e.derives in
    record {
      reads = e.read ∙ c.reads ∙ sym e.references;
      mutates = e.mutation ∙ c.mutates ∙ sym e.references;
      initializes = ground (arith, e.initialization, e.mutation, c.initializes);
      clean_allows = ground (arith, e.initialization, e.mutation, e.clean, c.clean_allows);
      quarantines = ground (arith, e.quarantine, e.mutation, c.quarantines);
    }
