-- ===== src/Audit/Validated.antt =====
-- What the validator of an artifact audit has checked.
use guildmind.Common.{
  String, Bool, true, ◌≡◌, arith, ok, require-eq-ok, >>=-eq-ok, ok-injective, map, is_lower_sha256,
}
use guildmind.Audit.Findings.{
  ArtifactAudit, ReachableArtifact, same_bool, derived_quarantine, derived_complete, validate_audit,
  validate_reachables, validate_findings, same_finding, finding_key,
}
use guildmind.Audit.Order.{is_sorted_set, is_canonical}

same_bool-eq : (a b : Bool) → same_bool a b ≡ true → a ≡ b
same_bool-eq a b h = ground arith

-- The validator of an audit derives its two claims, and returns what it was given.
pub validate_audit-Validated :
    (before : String → String → Bool) (a a' : ArtifactAudit)
    → validate_audit before a ≡ ok a'
    → (a.complete ≡ derived_complete a.findings)
      × (a.quarantine_allowed ≡ derived_quarantine a.reachable a.findings)
      × (a ≡ a')
unfolding validate_audit
validate_audit-Validated before a a' h =
    let (_, h1) = require-eq-ok (is_lower_sha256 a.snapshot_sha256) _ _ h in
    let (_, _, h2) = >>=-eq-ok (validate_reachables before a.reachable) _ h1 in
    let (_, _, h3) = >>=-eq-ok (validate_findings before a.findings) _ h2 in
    let (_, h4) =
      require-eq-ok (is_sorted_set before (map (λ (r : ReachableArtifact). r.sha256) a.reachable)) _
        _ h3 in
    let (_, h5) =
      require-eq-ok (is_canonical same_finding (finding_key before) a.findings) _ _ h4 in
    let (complete, h6) =
      require-eq-ok (same_bool a.complete (derived_complete a.findings)) _ _ h5 in
    let (quarantine, h7) =
      require-eq-ok (same_bool a.quarantine_allowed (derived_quarantine a.reachable a.findings)) _ _
        h6 in
    (same_bool-eq _ _ complete, same_bool-eq _ _ quarantine, ok-injective a a' h7)
