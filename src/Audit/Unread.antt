-- ===== src/Audit/Unread.antt =====
-- storage/coordinator.py: the artifact audits that are made without a look into the store.
use guildmind.Common.{
  ℕ, String, List, [], ◌∷◌, ◌++◌, map, Bool, true, false, Option, none, some, Dict, lookup, insert,
  ◌==◌, Result, if◌then◌else◌,
}
use guildmind.Domain.Event.{ArtifactRef}
use guildmind.Store.Tables.{order_by}
use guildmind.Store.Read.{VerifiedRunRoot}
use guildmind.Audit.Order.{is_less, unique}
use guildmind.Audit.Findings.{
  ArtifactOwner, ArtifactFinding, ReachableArtifact, ArtifactAudit, scan_error, missing_referenced,
  validate_audit, canonical_relative_path, same_owner, owner_key,
}

-- `errno.ENOENT`
abbrev pub enoent : ℕ
enoent = 2

abbrev pub errno_of : String → Option ℕ
errno_of detail = if detail == "artifact_store_missing" then some enoent else none

-- `references`: by digest the size, the media types and the owners, the sets as they are filled.
abbrev pub Reference : Type 0
Reference = ℕ × List String × List ArtifactOwner

abbrev pub References : Type 0
References = Dict Reference

unfoldable pub add_reference : String → String × ArtifactRef → References → References
add_reference run_id (role, reference) known =
    let owner : ArtifactOwner = record { run_id = run_id; path = role ∷ [] } in
    elim (lookup reference.sha256 known) [
      | none ↦
          insert reference.sha256 (reference.size_bytes, reference.media_type ∷ [], owner ∷ [])
            known
      | some (size, media_types, owners) ↦
          insert reference.sha256
            (size, media_types ++ reference.media_type ∷ [], owners ++ owner ∷ []) known
    ]

unfoldable pub add_artifacts : String → List (String × ArtifactRef) → References → References
unfolding add_reference
add_artifacts run_id [] known = known
add_artifacts run_id (item ∷ items) known =
    add_artifacts run_id items (add_reference run_id item known)

module _ (before : String → String → Bool) where
  abbrev pub empty_claims : String → ArtifactAudit
  empty_claims snapshot_sha256 = record {
    snapshot_sha256 = snapshot_sha256;
    reachable = [];
    findings = [];
    complete = true;
    quarantine_allowed = true;
  }

  -- `_empty_audit`
  unfoldable pub empty_audit : String → Result ArtifactAudit
  unfolding validate_audit
  empty_audit snapshot_sha256 = validate_audit before (empty_claims snapshot_sha256)

  abbrev pub scan_finding : String → ArtifactFinding
  scan_finding detail = record {
    kind = scan_error;
    relative_path = ".";
    expected_sha256 = none;
    observed_sha256 = none;
    size_bytes = none;
    detail = some detail;
    errno = errno_of detail;
    owners = [];
  }

  abbrev pub incomplete_claims : String → String → ArtifactAudit
  incomplete_claims snapshot_sha256 detail = record {
    snapshot_sha256 = snapshot_sha256;
    reachable = [];
    findings = scan_finding detail ∷ [];
    complete = false;
    quarantine_allowed = false;
  }

  -- `_incomplete_audit`
  unfoldable pub incomplete_audit : String → String → Result ArtifactAudit
  unfolding validate_audit
  incomplete_audit snapshot_sha256 detail =
      validate_audit before (incomplete_claims snapshot_sha256 detail)

  -- `sorted(items, key=…)` on texts that begin a pair.
  abbrev pub by_name : {V : Type 0} → List (String × V) → List (String × V)
  by_name = order_by (λ p q. before p.0 q.0)

  unfoldable pub references_of : {F : Type 0} → List (VerifiedRunRoot F) → References → References
  unfolding add_reference
  references_of [] known = known
  references_of (root ∷ roots) known =
      references_of roots
        (add_artifacts root.manifest.run_id (by_name root.manifest.artifacts) known)

  abbrev pub ordered_owners : List ArtifactOwner → List ArtifactOwner
  ordered_owners owners =
      order_by (λ a b. is_less (owner_key before a b)) (unique same_owner owners)

  abbrev pub missing_artifact : String × Reference → ReachableArtifact
  missing_artifact (digest, (size, media_types, owners)) = record {
    sha256 = digest;
    size_bytes = size;
    storage_ref = canonical_relative_path digest;
    media_types = order_by before (unique (λ a b. a == b) media_types);
    owners = ordered_owners owners;
    bytes_verified = false;
  }

  abbrev pub missing_finding : String × Reference → ArtifactFinding
  missing_finding (digest, (size, media_types, owners)) = record {
    kind = missing_referenced;
    relative_path = canonical_relative_path digest;
    expected_sha256 = some digest;
    observed_sha256 = none;
    size_bytes = some size;
    detail = some "artifact_store_missing";
    errno = some enoent;
    owners = ordered_owners owners;
  }

  unfoldable pub missing_claims : {F : Type 0} → List (VerifiedRunRoot F) → String → ArtifactAudit
  unfolding references_of canonical_relative_path
  missing_claims roots snapshot_sha256 =
      let references = by_name (references_of roots []) in
      record {
        snapshot_sha256 = snapshot_sha256;
        reachable = map missing_artifact references;
        findings = map missing_finding references;
        complete = true;
        quarantine_allowed = false;
      }

  -- `_missing_store_audit`
  unfoldable pub missing_store_audit :
      {F : Type 0} → List (VerifiedRunRoot F) → String → Result ArtifactAudit
  unfolding validate_audit missing_claims
  missing_store_audit roots snapshot_sha256 =
      validate_audit before (missing_claims roots snapshot_sha256)
