-- ===== src/Domain/Manifest.antt =====
-- domain/models.py: `RunManifest` and its lifecycle validator. Times count microseconds in UTC.
use guildmind.Common.{
  ℕ, String, Bool, true, not, ◌&&◌, ◌||◌, Option, none, some, Dict, Error, Result, ok, require,
  ◌>>=◌, ◌>>◌, is_some, leb, strip, err, ◌==◌, if◌then◌else◌,
}
use guildmind.Domain.Json.{Fields}
use guildmind.Domain.Limits.{BudgetLimits}
use guildmind.Domain.Status.{RunStatus, pending, running, succeeded}
use guildmind.Domain.Event.{ArtifactRef}

pub record RunManifest (F : Type 0) : Type 0 where
  pub run_id : String
  pub experiment_id : String
  pub task_id : String
  pub candidate_id : String
  pub genome_hash : Option String
  pub requested_model : String
  pub returned_model : Option String
  pub model_parameters : Fields F
  pub seed : ℕ
  pub environment_digest : String
  pub code_revision : String
  pub budget_limits : BudgetLimits F
  pub status : RunStatus
  pub created_at : ℕ
  pub started_at : Option ℕ
  pub finished_at : Option ℕ
  pub terminal_reason : Option String
  pub artifacts : Dict ArtifactRef

abbrev refuse : String → Error
refuse message = Error.value_error message

-- `later is None or later >= earlier`
abbrev pub is_not_before : Option ℕ → ℕ → Bool
is_not_before none earlier = true
is_not_before (some later) earlier = leb earlier later

abbrev pub is_ordered : Option ℕ → Option ℕ → Bool
is_ordered none later = true
is_ordered (some earlier) later = is_not_before later earlier

-- `NonEmptyStr | None`: stripped, and not empty then.
abbrev pub normalized : Option String → Result (Option String)
normalized none = ok none
normalized (some s) = if strip s == "" then err Error.validation_error else ok (some (strip s))

module _ {F : Type 0} where
  -- The branches on the status.
  abbrev pub check_status : RunStatus → RunManifest F → Result (Unit {0})
  check_status pending m = do
    require (not (is_some m.started_at || is_some m.finished_at))
        (refuse "pending runs cannot have start or finish timestamps")
    require (not (is_some m.terminal_reason)) (refuse "pending runs cannot have a terminal reason")
  check_status running m = do
    require (is_some m.started_at) (refuse "running runs require started_at")
    require (not (is_some m.finished_at || is_some m.terminal_reason))
        (refuse "running runs cannot be terminal")
  check_status succeeded m = do
    require (is_some m.started_at && is_some m.finished_at)
        (refuse "successful runs require start and finish timestamps")
    require (not (is_some m.terminal_reason))
        (refuse "successful runs cannot have a terminal reason")
  check_status _ m = do
    require (is_some m.finished_at) (refuse "terminal runs require finished_at")
    require (is_some m.terminal_reason)
        (refuse "non-success terminal runs require a terminal reason")

  -- `RunManifest.model_validate` of a valid manifest in which lifecycle fields are new. The other
  -- texts have been stripped when the manifest was first made.
  unfoldable pub validate_manifest : RunManifest F → Result (RunManifest F)
  validate_manifest raw = do
    returned ← normalized raw.returned_model
    reason ← normalized raw.terminal_reason
    let m = record raw { returned_model = returned; terminal_reason = reason }
    require (is_not_before m.started_at m.created_at)
        (refuse "started_at cannot precede created_at")
    require (is_not_before m.finished_at m.created_at)
        (refuse "finished_at cannot precede created_at")
    require (is_ordered m.started_at m.finished_at) (refuse "finished_at cannot precede started_at")
    check_status m.status m
    ok m
