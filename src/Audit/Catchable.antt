-- ===== src/Audit/Catchable.antt =====
-- Blocks whose exceptions are all of the classes that the audit catches.
use mathlib.Core.Path.{subst}
use guildmind.Common.{
  sym, not, List, [], ◌∷◌, Bool, true, ◌≡◌, refl, String, Option, some, if◌then◌else◌, Error,
  Result, ok, err, require, Catchable, catch_rules, Catchable-ok, Catchable-bind, Catchable-raise,
  Catchable-require, Catchable-if, Catchable-widen, is_value_error,
}
use guildmind.Domain.Float.{Float}
use guildmind.Domain.Event.{Canonical}
use guildmind.Store.Wire.{Wire}
use guildmind.Store.Manifests.{same_text}
use guildmind.Store.Read.{
  VerifiedRunRoot, verified_run_roots_sha256, identities_from, as_validation_failure,
  is_validation_failure,
}
use guildmind.Store.Query.{snapshot_roots, verify_integrity}
use guildmind.Store.Raises.{Faults, Reads, is_ledger_fault, verified_roots_locked-Catchable}
use guildmind.Store.Write.{Handle}
use guildmind.Store.Tables.{Ledger}
use guildmind.Audit.Findings.{
  ArtifactAudit, ArtifactFinding, ReachableArtifact, ArtifactOwner, validate_owner, validate_owners,
  validate_reachable, validate_finding, validate_reachables, validate_findings, validate_audit,
}
use guildmind.Audit.Snapshot.{
  VerifiedRunRootCommitment, validate_commitment, validate_commitments, validate_snapshot,
  ledger_snapshot,
}
use guildmind.Audit.Site.{is_ledger_error, is_artifact_error, attempt}

-- Exceptions of the inner classes that a block raises are caught; those of its handler are not.
pub Catchable-attempt :
    {A : Type 0} (j k : Error → Bool) (r handler : Result A)
    → Catchable j r
    → Catchable k handler
    → Catchable k (attempt j r handler)
unfolding attempt
Catchable-attempt j k (ok a) handler p q = Catchable-ok a
Catchable-attempt j k (err e) handler p q =
    subst (λ (b : Bool). Catchable k (if b then handler else err e)) (sym (p.caught e refl)) q

-- Both lists of classes have `ValueError`, with pydantic's.
pub ledger-Catchable :
    {A : Type 0} (r : Result A) → Catchable is_value_error r → Catchable is_ledger_error r
ledger-Catchable r p = Catchable-widen is_value_error r wide p
  where
    wide : (e : Error) → is_value_error e ≡ true → is_ledger_error e ≡ true
    wide (Error.value_error m) h = refl
    wide Error.validation_error h = refl
    wide _ h = absurd (cc h)

pub artifact-Catchable :
    {A : Type 0} (r : Result A) → Catchable is_value_error r → Catchable is_artifact_error r
artifact-Catchable r p = Catchable-widen is_value_error r wide p
  where
    wide : (e : Error) → is_value_error e ≡ true → is_artifact_error e ≡ true
    wide (Error.value_error m) h = refl
    wide Error.validation_error h = refl
    wide _ h = absurd (cc h)

-- Every class that the audit of a ledger catches is one that a verification may raise.
fault-Catchable : {A : Type 0} (r : Result A) → Catchable is_ledger_error r → Faults r
fault-Catchable r p = Catchable-widen is_ledger_error r wide p
  where
    wide : (e : Error) → is_ledger_error e ≡ true → is_ledger_fault e ≡ true
    wide (Error.os_error m) h = refl
    wide (Error.constraint m) h = refl
    wide (Error.store_integrity m) h = refl
    wide (Error.value_error m) h = refl
    wide Error.validation_error h = refl
    wide _ h = absurd (cc h)

validate_owners-Catchable :
    (os : List ArtifactOwner) → Catchable is_value_error (validate_owners os)
unfolding validate_owner validate_owners
validate_owners-Catchable [] = Catchable-ok tt
validate_owners-Catchable (o ∷ os) =
    Catchable-bind (validate_owner o) (λ _. validate_owners os) (search (catch_rules))
      (λ _. validate_owners-Catchable os)

module _ (before : String → String → Bool) where
  validate_reachables-Catchable :
      (rs : List ReachableArtifact) → Catchable is_value_error (validate_reachables before rs)
  unfolding validate_reachables validate_reachable
  validate_reachables-Catchable [] = Catchable-ok tt
  validate_reachables-Catchable (r ∷ rs) =
      Catchable-bind (validate_reachable before r) (λ _. validate_reachables before rs)
        (search (catch_rules, validate_owners-Catchable) depth 24 fits 8000)
        (λ _. validate_reachables-Catchable rs)

  validate_findings-Catchable :
      (fs : List ArtifactFinding) → Catchable is_value_error (validate_findings before fs)
  unfolding validate_findings validate_finding
  validate_findings-Catchable [] = Catchable-ok tt
  validate_findings-Catchable (f ∷ fs) =
      Catchable-bind (validate_finding before f) (λ _. validate_findings before fs)
        (search (catch_rules, validate_owners-Catchable) depth 24 fits 8000)
        (λ _. validate_findings-Catchable fs)

  pub validate_audit-Catchable :
      (a : ArtifactAudit) → Catchable is_value_error (validate_audit before a)
  unfolding validate_audit
  validate_audit-Catchable a =
      search (catch_rules, validate_reachables-Catchable, validate_findings-Catchable) depth 24 fits
        8000

validate_commitments-Catchable :
    (rs : List VerifiedRunRootCommitment) → Catchable is_value_error (validate_commitments rs)
unfolding validate_commitment validate_commitments
validate_commitments-Catchable [] = Catchable-ok tt
validate_commitments-Catchable (r ∷ rs) =
    Catchable-bind (validate_commitment r) (λ _. validate_commitments rs)
      (search (catch_rules) depth 24 fits 8000) (λ _. validate_commitments-Catchable rs)

-- What passes the conversion of a failed verification is caught too.
as_validation_failure-Catchable :
    {A : Type 0} (r : Result A)
    → Faults r
    → Catchable is_ledger_error (as_validation_failure is_validation_failure r)
as_validation_failure-Catchable (ok a) p = Catchable-ok a
as_validation_failure-Catchable (err e) p = go e (p.caught e refl)
  where
    go :
        {A : Type 0} (e : Error)
        → is_ledger_fault e ≡ true
        → Catchable {A = A} is_ledger_error (as_validation_failure is_validation_failure (err e))
    go (Error.store_integrity m) h = Catchable-raise _ refl
    go (Error.os_error m) h = Catchable-raise _ refl
    go (Error.constraint m) h = Catchable-raise _ refl
    go (Error.value_error m) h = Catchable-raise _ refl
    go (Error.key_error m) h = Catchable-raise _ refl
    go (Error.index_error m) h = Catchable-raise _ refl
    go Error.validation_error h = Catchable-raise _ refl
    go _ h = absurd (cc h)

module _ {F : Type 0} ⦃fl : Float F⦄ ⦃cn : Canonical F⦄ (w : Wire F) where
  identities_from-Catchable :
      (previous : Option String) (roots : List (VerifiedRunRoot F))
      → Catchable is_value_error (identities_from w previous roots)
  identities_from-Catchable previous [] = Catchable-ok []
  identities_from-Catchable previous (root ∷ roots) =
      Catchable-bind (require (not (same_text (some root.manifest.run_id) previous)) _) _
        (Catchable-require _ _ refl)
        (λ _.
          Catchable-bind (identities_from w (some root.manifest.run_id) roots) _
            (identities_from-Catchable (some root.manifest.run_id) roots) (λ _. Catchable-ok _))

  pub ledger_snapshot-Catchable :
      (roots : List (VerifiedRunRoot F)) → Catchable is_value_error (ledger_snapshot w roots)
  unfolding ledger_snapshot verified_run_roots_sha256 validate_snapshot
  ledger_snapshot-Catchable roots =
      search (catch_rules, validate_commitments-Catchable, identities_from-Catchable) depth 24 fits
        8000

  snapshot_roots-Catchable :
      (b : Reads w) (h : Handle) (l : Ledger)
      → Catchable is_ledger_error (w.inspect_path l)
      → Faults (snapshot_roots w h l)
  snapshot_roots-Catchable b h l path =
      Catchable-bind (w.inspect_path l) _ (fault-Catchable _ path) (λ _.
        Catchable-bind (if h.opens_existing then w.inspect_schema l else ok tt) _
          (Catchable-if h.opens_existing _ _ (b.schema l) (Catchable-ok tt))
          (λ _. verified_roots_locked-Catchable w b l))

  pub verify_integrity-Catchable :
      (b : Reads w) (h : Handle) (l : Ledger)
      → Catchable is_ledger_error (w.inspect_path l)
      → Catchable is_ledger_error (verify_integrity w h l)
  unfolding verify_integrity
  verify_integrity-Catchable b h l path =
      let roots = as_validation_failure-Catchable _ (snapshot_roots-Catchable b h l path) in
      search (catch_rules, path, roots) depth 24 fits 8000
