-- ===== src/Audit/Findings.antt =====
-- storage/integrity.py: the records of an artifact audit with their validators.
use guildmind.Common.{
  ℕ, String, List, [], ◌∷◌, map, Bool, true, false, not, ◌&&◌, ◌||◌, Option, none, some, ◌==◌, all,
  Error, Result, ok, require, ◌>>◌, has_text, is_lower_sha256, take_chars, concat, count_chars, eqb,
}
use guildmind.Store.Tables.{any}
use guildmind.Store.Manifests.{same_text}
use guildmind.Audit.Order.{
  Order, ◌then_by◌, compare_text, compare_optional_text, compare_optional_number, compare_list,
  same_list, same_texts, same_optional, is_canonical, is_sorted_set,
}

pub data ArtifactFindingKind : Type 0 where
  missing_referenced corrupt_referenced valid_finalized_orphan corrupt_finalized_orphan temp_orphan
        noncanonical_entry hardlink symlink special_file scan_error limit_exceeded :
      ArtifactFindingKind

-- The `StrEnum` value.
abbrev pub kind_value : ArtifactFindingKind → String
kind_value missing_referenced = "missing_referenced"
kind_value corrupt_referenced = "corrupt_referenced"
kind_value valid_finalized_orphan = "valid_finalized_orphan"
kind_value corrupt_finalized_orphan = "corrupt_finalized_orphan"
kind_value temp_orphan = "temp_orphan"
kind_value noncanonical_entry = "noncanonical_entry"
kind_value hardlink = "hardlink"
kind_value symlink = "symlink"
kind_value special_file = "special_file"
kind_value scan_error = "scan_error"
kind_value limit_exceeded = "limit_exceeded"

abbrev pub is_referenced_failure : ArtifactFindingKind → Bool
is_referenced_failure missing_referenced = true
is_referenced_failure corrupt_referenced = true
is_referenced_failure _ = false

-- The kinds that leave the inventory incomplete.
abbrev pub is_scan_failure : ArtifactFindingKind → Bool
is_scan_failure scan_error = true
is_scan_failure limit_exceeded = true
is_scan_failure _ = false

pub record ArtifactOwner : Type 0 where
  pub run_id : String
  pub path : List String

-- `bool(items)`
abbrev pub has_items {ℓ} : {A : Type ℓ} → List A → Bool
has_items [] = false
has_items (x ∷ xs) = true

unfoldable pub validate_owner : ArtifactOwner → Result (Unit {0})
unfolding has_text
validate_owner o = do
  require (has_text o.run_id) (Error.value_error "artifact owner run_id cannot be blank")
  require (has_items o.path && all has_text o.path)
      (Error.value_error "artifact owner path must contain nonblank components")

unfoldable pub validate_owners : List ArtifactOwner → Result (Unit {0})
unfolding validate_owner
validate_owners [] = ok tt
validate_owners (o ∷ os) = do validate_owner o; validate_owners os

abbrev pub same_owner : ArtifactOwner → ArtifactOwner → Bool
same_owner a b = (a.run_id == b.run_id) && same_texts a.path b.path

pub record ReachableArtifact : Type 0 where
  pub sha256 : String
  pub size_bytes : ℕ
  pub storage_ref : String
  pub media_types : List String
  pub owners : List ArtifactOwner
  pub bytes_verified : Bool

pub record ArtifactFinding : Type 0 where
  pub kind : ArtifactFindingKind
  pub relative_path : String
  pub expected_sha256 : Option String
  pub observed_sha256 : Option String
  pub size_bytes : Option ℕ
  pub detail : Option String
  pub errno : Option ℕ
  pub owners : List ArtifactOwner

pub record ArtifactAudit : Type 0 where
  pub snapshot_sha256 : String
  pub reachable : List ReachableArtifact
  pub findings : List ArtifactFinding
  pub complete : Bool
  pub quarantine_allowed : Bool

-- `sha256/<two digits>/<digest>`
unfoldable pub canonical_relative_path : String → String
unfolding take_chars
canonical_relative_path digest = concat "sha256/" (concat (take_chars 2 digest) (concat "/" digest))

abbrev pub same_finding : ArtifactFinding → ArtifactFinding → Bool
same_finding a b =
    (kind_value a.kind == kind_value b.kind)
    && (a.relative_path == b.relative_path)
    && same_text a.expected_sha256 b.expected_sha256
    && same_text a.observed_sha256 b.observed_sha256
    && same_optional a.size_bytes b.size_bytes
    && same_text a.detail b.detail
    && same_optional a.errno b.errno
    && same_list same_owner a.owners b.owners

-- The pattern `^[0-9a-f]{64}$` of an optional field.
unfoldable pub is_optional_sha256 : Option String → Bool
unfolding is_lower_sha256
is_optional_sha256 none = true
is_optional_sha256 (some digest) = is_lower_sha256 digest

module _ (before : String → String → Bool) where
  abbrev pub owner_key : ArtifactOwner → ArtifactOwner → Order
  owner_key a b =
      compare_text before a.run_id b.run_id then_by compare_list (compare_text before) a.path b.path

  abbrev pub finding_key : ArtifactFinding → ArtifactFinding → Order
  finding_key a b =
      compare_text before (kind_value a.kind) (kind_value b.kind)
      then_by compare_text before a.relative_path b.relative_path
      then_by compare_optional_text before a.expected_sha256 b.expected_sha256
      then_by compare_optional_text before a.observed_sha256 b.observed_sha256
      then_by compare_optional_number a.size_bytes b.size_bytes
      then_by compare_optional_text before a.detail b.detail
      then_by compare_optional_number a.errno b.errno
      then_by compare_list owner_key a.owners b.owners

  unfoldable pub validate_reachable : ReachableArtifact → Result (Unit {0})
  unfolding has_text is_lower_sha256 canonical_relative_path is_sorted_set is_canonical
  validate_reachable r = do
    require (is_lower_sha256 r.sha256) Error.validation_error
    validate_owners r.owners
    require (r.storage_ref == canonical_relative_path r.sha256)
        (Error.value_error "reachable storage_ref must be the canonical digest path")
    require (is_sorted_set before r.media_types)
        (Error.value_error "reachable media types must be sorted and unique")
    require (has_items r.media_types && all has_text r.media_types)
        (Error.value_error "reachable artifact requires nonblank media types")
    require (is_canonical same_owner owner_key r.owners)
        (Error.value_error "reachable owners must be sorted and unique")
    require (has_items r.owners)
        (Error.value_error "reachable artifact requires at least one owner")

  unfoldable pub validate_finding : ArtifactFinding → Result (Unit {0})
  unfolding is_optional_sha256 is_canonical count_chars
  validate_finding f = do
    require (not (eqb (count_chars f.relative_path) 0)) Error.validation_error
    require (is_optional_sha256 f.expected_sha256) Error.validation_error
    require (is_optional_sha256 f.observed_sha256) Error.validation_error
    validate_owners f.owners
    require (is_canonical same_owner owner_key f.owners)
        (Error.value_error "finding owners must be sorted and unique")
    require (not (is_referenced_failure f.kind) || has_items f.owners)
        (Error.value_error "referenced findings require an owner")

  unfoldable pub validate_reachables : List ReachableArtifact → Result (Unit {0})
  unfolding validate_reachable
  validate_reachables [] = ok tt
  validate_reachables (r ∷ rs) = do validate_reachable r; validate_reachables rs

  unfoldable pub validate_findings : List ArtifactFinding → Result (Unit {0})
  unfolding validate_finding
  validate_findings [] = ok tt
  validate_findings (f ∷ fs) = do validate_finding f; validate_findings fs

abbrev pub has_owner : ArtifactFinding → Bool
has_owner f = has_items f.owners

-- `complete` and `quarantine_allowed` as they are derived.
unfoldable pub derived_complete : List ArtifactFinding → Bool
derived_complete findings = not (any (λ (f : ArtifactFinding). is_scan_failure f.kind) findings)

unfoldable pub derived_quarantine : List ReachableArtifact → List ArtifactFinding → Bool
unfolding derived_complete
derived_quarantine reachable findings =
    derived_complete findings
    && not (any has_owner findings)
    && all (λ (r : ReachableArtifact). r.bytes_verified) reachable

-- `a is b` on truth values
abbrev pub same_bool : Bool → Bool → Bool
same_bool true b = b
same_bool false b = not b

unfoldable pub validate_audit : (String → String → Bool) → ArtifactAudit → Result ArtifactAudit
unfolding is_lower_sha256 validate_reachables validate_findings is_sorted_set is_canonical
    derived_complete derived_quarantine
validate_audit before a = do
  require (is_lower_sha256 a.snapshot_sha256) Error.validation_error
  validate_reachables before a.reachable
  validate_findings before a.findings
  require (is_sorted_set before (map (λ (r : ReachableArtifact). r.sha256) a.reachable))
      (Error.value_error "reachable artifacts must be unique and sorted by digest")
  require (is_canonical same_finding (finding_key before) a.findings)
      (Error.value_error "artifact findings must be sorted and unique")
  require (same_bool a.complete (derived_complete a.findings))
      (Error.value_error "audit completeness must be derived from scan findings")
  require (same_bool a.quarantine_allowed (derived_quarantine a.reachable a.findings))
      (Error.value_error "quarantine_allowed must require a complete, byte-verified trusted graph")
  ok a
