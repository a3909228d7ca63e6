-- ===== src/Campaign/Manifest.antt =====
-- domain/campaign.py: the manifest of a campaign. The constraints of single fields are pydantic's.
use guildmind.Common.{
  ℕ, zero, suc, String, List, [], ◌∷◌, ◌++◌, map, Bool, true, false, ◌&&◌, Option, some, ◌==◌, eqb,
  Error, Result, ok, require, ◌>>◌,
}
use guildmind.Domain.Limits.{BudgetLimits}
use guildmind.Domain.Event.{all_distinct}
use guildmind.Audit.Order.{is_sorted_set, same_list}

pub data CampaignEvidenceTier : Type 0 where
  development reference : CampaignEvidenceTier

pub data CampaignEvaluatorKind : Type 0 where
  local container : CampaignEvaluatorKind

pub record ReliabilityCampaignEvaluator : Type 0 where
  pub kind : CampaignEvaluatorKind
  pub evaluator_version : String
  pub environment_digest : String

pub record ReliabilityCampaignFixture : Type 0 where
  pub fixture_id : String
  pub fixture_path : String
  pub fixture_tree_sha256 : String
  pub solution_patch_sha256 : String

pub record ReliabilityCampaignAttempt : Type 0 where
  pub attempt_id : String
  pub fixture_id : String
  pub round_index : ℕ
  pub seed : ℕ

-- The version fields and `retry_limit` are constants.
pub record ReliabilityCampaignManifest (F : Type 0) : Type 0 where
  pub campaign_id : String
  pub evidence_tier : CampaignEvidenceTier
  pub experiment_id : String
  pub candidate_id : String
  pub code_source_sha256 : String
  pub evaluator : ReliabilityCampaignEvaluator
  pub model_id : String
  pub budget_limits : BudgetLimits F
  pub rounds : ℕ
  pub maximum_infrastructure_error_rate : F
  pub fixtures : List ReliabilityCampaignFixture
  pub attempts : List ReliabilityCampaignAttempt

-- `for fixture_id in fixture_ids` in one round.
abbrev pub round_bindings : ℕ → List String → List (String × ℕ)
round_bindings round_index [] = []
round_bindings round_index (id ∷ ids) = (id, round_index) ∷ round_bindings round_index ids

-- The rounds from `start` on, `count` of them.
abbrev pub bindings_from : ℕ → ℕ → List String → List (String × ℕ)
bindings_from start zero ids = []
bindings_from start (suc count) ids =
    round_bindings start ids ++ bindings_from (suc start) count ids

-- `expected_bindings`, for `range(self.rounds)`
abbrev pub expected_bindings : ℕ → List String → List (String × ℕ)
expected_bindings rounds ids = bindings_from 0 rounds ids

abbrev pub observed_bindings : List ReliabilityCampaignAttempt → List (String × ℕ)
observed_bindings = map (λ a. (a.fixture_id, a.round_index))

abbrev pub same_binding : String × ℕ → String × ℕ → Bool
same_binding (a, m) (b, n) = a == b && eqb m n

abbrev pub fixture_ids : List ReliabilityCampaignFixture → List String
fixture_ids = map (λ f. f.fixture_id)

abbrev pub uses_container : CampaignEvidenceTier → CampaignEvaluatorKind → Bool
uses_container reference local = false
uses_container _ _ = true

abbrev pub is_zero : Option ℕ → Bool
is_zero (some zero) = true
is_zero _ = false

module _ {F : Type 0} (before : String → String → Bool) where
  unfoldable pub validate_campaign :
      ReliabilityCampaignManifest F → Result (ReliabilityCampaignManifest F)
  unfolding is_sorted_set
  validate_campaign m = do
    require (is_sorted_set before (fixture_ids m.fixtures))
        (Error.value_error "campaign fixtures must be unique and ordered by fixture_id")
    require (all_distinct (map (λ (f : ReliabilityCampaignFixture). f.fixture_path) m.fixtures))
        (Error.value_error "campaign fixture paths must be unique")
    require (all_distinct (map (λ (a : ReliabilityCampaignAttempt). a.attempt_id) m.attempts))
        (Error.value_error "campaign attempt IDs must be unique")
    require
        (same_list same_binding (observed_bindings m.attempts)
          (expected_bindings m.rounds (fixture_ids m.fixtures)))
        (Error.value_error "campaign attempts must be the complete round-major fixture schedule")
    require (uses_container m.evidence_tier m.evaluator.kind)
        (Error.value_error "reference campaigns require the container evaluator")
    require (is_zero m.budget_limits.max_model_retries)
        (Error.value_error "campaign attempt budgets must disable model retries")
    ok m
