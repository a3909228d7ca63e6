-- ===== src/Audit/Snapshot.antt =====
-- storage/coordinator.py: the commitment to the verified roots of a ledger.
use guildmind.Common.{
  ℕ, String, List, [], ◌∷◌, map, not, ◌==◌, Error, Result, ok, require, ◌>>◌, ◌>>=◌, has_text,
  is_lower_sha256, ltb, eqb,
}
use guildmind.Domain.Float.{Float}
use guildmind.Domain.Event.{Canonical}
use guildmind.Store.Tables.{order_by}
use guildmind.Store.Wire.{Wire}
use guildmind.Store.Read.{VerifiedRunRoot, verified_run_roots_sha256}
use guildmind.Audit.Order.{is_sorted_set}

pub record VerifiedRunRootCommitment : Type 0 where
  pub run_id : String
  pub manifest_revision : ℕ
  pub manifest_sha256 : String
  pub event_count : ℕ
  pub head_event_sha256 : String

unfoldable pub validate_commitment : VerifiedRunRootCommitment → Result (Unit {0})
unfolding has_text is_lower_sha256
validate_commitment r = do
  require (is_lower_sha256 r.manifest_sha256) Error.validation_error
  require (is_lower_sha256 r.head_event_sha256) Error.validation_error
  require (not (eqb r.event_count 0)) Error.validation_error
  require (has_text r.run_id) (Error.value_error "verified ledger run ID cannot be blank")
  require (ltb r.manifest_revision r.event_count)
      (Error.value_error "manifest revision must be less than event count")

unfoldable pub validate_commitments : List VerifiedRunRootCommitment → Result (Unit {0})
unfolding validate_commitment
validate_commitments [] = ok tt
validate_commitments (r ∷ rs) = do validate_commitment r; validate_commitments rs

pub record VerifiedLedgerSnapshot : Type 0 where
  pub snapshot_sha256 : String
  pub roots : List VerifiedRunRootCommitment

-- `root.model_dump(mode="json")`, in the order of `roots_json`.
abbrev pub dumped : VerifiedRunRootCommitment → ℕ × String × ℕ × String × String
dumped r = (r.event_count, r.head_event_sha256, r.manifest_revision, r.manifest_sha256, r.run_id)

module _ {F : Type 0} ⦃fl : Float F⦄ ⦃cn : Canonical F⦄ (w : Wire F) where
  unfoldable pub validate_snapshot : VerifiedLedgerSnapshot → Result VerifiedLedgerSnapshot
  unfolding is_lower_sha256 is_sorted_set
  validate_snapshot s = do
    require (is_lower_sha256 s.snapshot_sha256) Error.validation_error
    validate_commitments s.roots
    require (is_sorted_set w.before (map (λ (r : VerifiedRunRootCommitment). r.run_id) s.roots))
        (Error.value_error "verified ledger roots must be unique and sorted by run ID")
    require (s.snapshot_sha256 == cn.sha256_hex (w.roots_json (map dumped s.roots)))
        (Error.value_error "verified ledger snapshot hash mismatch")
    ok s

  abbrev pub commitment_of : VerifiedRunRoot F → VerifiedRunRootCommitment
  commitment_of root = record {
    run_id = root.manifest.run_id;
    manifest_revision = root.manifest_revision;
    manifest_sha256 = root.manifest_sha256;
    event_count = root.event_count;
    head_event_sha256 = root.head_event_sha256;
  }

  -- `_ledger_snapshot`. The commitments are validated before the hash is taken; all its raises are
  -- `ValueError`s.
  unfoldable pub ledger_snapshot : List (VerifiedRunRoot F) → Result VerifiedLedgerSnapshot
  ledger_snapshot roots = do
    let commitments =
        map commitment_of (
          order_by (λ (q r : VerifiedRunRoot F). w.before q.manifest.run_id r.manifest.run_id)
            roots)
    validate_commitments commitments
    digest ← verified_run_roots_sha256 w roots
    validate_snapshot (record { snapshot_sha256 = digest; roots = commitments })
