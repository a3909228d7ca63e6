-- ===== src/Audit/Returns.antt =====
-- The parts of the audit that always return.
use mathlib.Core.Path.{subst}
use guildmind.Common.{
  String, [], ◌∷◌, Bool, true, false, Option, none, some, ◌≡◌, refl, sym, ◌==◌, eq_refl, arith,
  is_lower_sha256, Error, Result, ok, err, require, ◌>>=◌, ◌>>◌, ℕ, if◌then◌else◌, ◌∙◌,
  ok-injective, eq_iff, Catchable,
}
use guildmind.Domain.Float.{Float}
use guildmind.Domain.Event.{Canonical}
use guildmind.Store.Wire.{Wire}
use guildmind.Store.Read.{verified_run_roots_sha256}
use guildmind.Audit.Order.{same_optional, is_canonical, is_sorted_set}
use guildmind.Audit.Findings.{
  ArtifactAudit, same_finding, finding_key, validate_audit, validate_findings, validate_reachables,
  derived_complete, derived_quarantine, validate_finding, validate_owners, is_optional_sha256,
}
use guildmind.Audit.Snapshot.{
  VerifiedLedgerSnapshot, ledger_snapshot, validate_snapshot, validate_commitments,
}
use guildmind.Audit.Report.{
  Derivation, state_value, same_gates, is_bound, validate_report, report, derive_report, reported,
}
use guildmind.Audit.Unread.{incomplete_audit, scan_finding, errno_of}
use guildmind.Audit.Site.{attempt}

abbrev pub Returns : {A : Type 0} → Result A → Type 0
Returns {A} r = (a : A) × (r ≡ ok a)

pub Returns-require :
    {A : Type 0} (test : Bool) (e : Error) (rest : Result A)
    → test ≡ true
    → Returns rest
    → Returns (require test e >> rest)
Returns-require true e rest h k = k
Returns-require false e rest h k = absurd (cc h)

pub Returns-bind :
    {A B : Type 0} (m : Result A) (f : A → Result B)
    → Returns m
    → ((a : A) → m ≡ ok a → Returns (f a))
    → Returns (m >>= f)
Returns-bind (ok a) f first rest = rest a refl
Returns-bind (err e) f (_, h) rest = absurd (cc h)

pub Returns-attempt :
    {A : Type 0} (k : Error → Bool) (r handler : Result A)
    → Catchable k r
    → Returns handler
    → Returns (attempt k r handler)
unfolding attempt
Returns-attempt k (ok a) handler p q = (a, refl)
Returns-attempt k (err e) handler p q =
    subst (λ (b : Bool). Returns (if b then handler else err e)) (sym (p.caught e refl)) q

module _ (present root : Bool) (s : Option VerifiedLedgerSnapshot) (a : Option ArtifactAudit)
    (g : Option String) where
  same_gates-reported :
      (d d' : Derivation) → d' ≡ d → same_gates (reported d present root s a g) d' ≡ true
  unfolding same_gates
  same_gates-reported d d' e =
      subst (λ (x : Derivation). same_gates (reported d present root s a g) x ≡ true) (sym e)
        (ground (arith, eq_refl (state_value d.state)))

  -- A report whose snapshot and audit belong together passes its validator.
  report-Returns :
      Returns (derive_report present s a g)
      → ((d : Derivation) → is_bound (reported d present root s a g) ≡ true)
      → Returns (report present root s a g)
  unfolding report validate_report
  report-Returns derives bound = Returns-bind (derive_report present s a g) _ derives (λ d h.
      Returns-bind (derive_report present s a g) _ derives (λ d' h'.
        Returns-require (same_gates (reported d present root s a g) d') _ _
          (same_gates-reported d d' (ok-injective _ _ (sym h' ∙ h)))
          (Returns-require (is_bound (reported d present root s a g)) _ _ (bound d) (_, refl))))

-- Reports without a ledger snapshot.
pub report-Returns_unread :
    (present root : Bool) (a : Option ArtifactAudit) (g : Option String)
    → Returns (report present root none a g)
unfolding derive_report is_bound
report-Returns_unread true root a g = report-Returns true root none a g (_, refl) (λ d. refl)
report-Returns_unread false root a g = report-Returns false root none a g (_, refl) (λ d. refl)

derive_report-Returns :
    (s : VerifiedLedgerSnapshot) (a : ArtifactAudit) (g : Option String)
    → a.snapshot_sha256 ≡ s.snapshot_sha256
    → Returns (derive_report true (some s) (some a) g)
unfolding derive_report
derive_report-Returns s a (some g) bound = (_, refl)
derive_report-Returns s a none bound =
    Returns-require (a.snapshot_sha256 == s.snapshot_sha256) _ _
      ((eq_iff a.snapshot_sha256 s.snapshot_sha256).1 bound) (_, refl)

-- Reports of a ledger snapshot and an audit that is bound to it.
pub report-Returns_bound :
    (root : Bool) (s : VerifiedLedgerSnapshot) (a : ArtifactAudit) (g : Option String)
    → a.snapshot_sha256 ≡ s.snapshot_sha256
    → Returns (report true root (some s) (some a) g)
unfolding is_bound
report-Returns_bound root s a g bound =
    report-Returns true root (some s) (some a) g (derive_report-Returns s a g bound)
      (λ d. (eq_iff s.snapshot_sha256 a.snapshot_sha256).1 (sym bound))

same_optional_refl : (o : Option ℕ) → same_optional o o ≡ true
same_optional_refl none = refl
same_optional_refl (some n) = ground arith

require-passes :
    {A : Type 0} (test : Bool) (e : Error) (rest : Result A)
    → test ≡ true
    → (require test e >> rest) ≡ rest
require-passes true e rest h = refl
require-passes false e rest h = absurd (cc h)

-- The audit that stands for a failed scan.
pub incomplete_audit-Returns :
    (before : String → String → Bool) (digest detail : String)
    → is_lower_sha256 digest ≡ true
    → (a : ArtifactAudit) × (incomplete_audit before digest detail ≡ ok a)
      × (a.snapshot_sha256 ≡ digest)
unfolding incomplete_audit validate_audit validate_reachables validate_findings validate_finding
    validate_owners is_optional_sha256 is_canonical derived_complete derived_quarantine
incomplete_audit-Returns before digest detail h =
    let single : is_canonical same_finding (finding_key before) (scan_finding before detail ∷ [])
        ≡ true =
      ground (arith, eq_refl detail, same_optional_refl (errno_of detail)) in
    (
      _,
      require-passes (is_lower_sha256 digest) _ _ h
          ∙ require-passes
              (is_canonical same_finding (finding_key before) (scan_finding before detail ∷ [])) _ _
              single,
      refl,
    )

module _ {F : Type 0} ⦃fl : Float F⦄ ⦃cn : Canonical F⦄ (w : Wire F) where
  pub ledger_snapshot-Returns :
      ((t : String) → is_lower_sha256 (cn.sha256_hex t) ≡ true)
      → (s : VerifiedLedgerSnapshot) × (ledger_snapshot w [] ≡ ok s)
        × (is_lower_sha256 s.snapshot_sha256 ≡ true)
  unfolding ledger_snapshot verified_run_roots_sha256 validate_snapshot validate_commitments
      is_sorted_set is_canonical
  ledger_snapshot-Returns lower =
      let digest = cn.sha256_hex (w.roots_json []) in
      (
        _,
        require-passes (is_lower_sha256 digest) _ _ (lower _)
            ∙ require-passes (digest == digest) _ _ (eq_refl digest),
        lower _,
      )
