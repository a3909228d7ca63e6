-- ===== src/Campaign/Evidence.antt =====
-- domain/campaign.py: the evidence of one attempt, and its making in runtime/campaign.py.
use guildmind.Common.{
  ℕ, String, List, [], ◌∷◌, Bool, true, false, not, ◌&&◌, ◌||◌, Option, none, some, ◌==◌, ltb,
  is_some, Error, Result, ok, require, ◌>>◌,
}
use guildmind.Domain.Float.{Float}
use guildmind.Domain.Usage.{BudgetUsage, same_usage, no_usage}
use guildmind.Domain.Status.{RunStatus, is_terminal, same_status, succeeded}
use guildmind.Audit.Order.{is_sorted_set, same_texts}
use guildmind.Audit.Findings.{has_items}
use guildmind.Campaign.Manifest.{ReliabilityCampaignAttempt}

pub data CampaignAttemptDisposition : Type 0 where
  expected unexpected_result infrastructure_error evidence_missing evidence_run_set_invalid
        evidence_nonterminal evidence_invalid post_commit_maintenance_error :
      CampaignAttemptDisposition

-- The property of the enumeration.
abbrev pub is_infrastructure_error : CampaignAttemptDisposition → Bool
is_infrastructure_error expected = false
is_infrastructure_error unexpected_result = false
is_infrastructure_error _ = true

abbrev pub is_expected : CampaignAttemptDisposition → Bool
is_expected expected = true
is_expected _ = false

abbrev pub is_missing : CampaignAttemptDisposition → Bool
is_missing evidence_missing = true
is_missing _ = false

abbrev pub is_nonterminal : CampaignAttemptDisposition → Bool
is_nonterminal evidence_nonterminal = true
is_nonterminal _ = false

-- `self.disposition in terminal_required`
abbrev pub requires_terminal : CampaignAttemptDisposition → Bool
requires_terminal expected = true
requires_terminal unexpected_result = true
requires_terminal post_commit_maintenance_error = true
requires_terminal _ = false

pub record ReliabilityCampaignTerminalEvidence (F : Type 0) : Type 0 where
  pub run_id : String
  pub task_id : String
  pub task_content_sha256 : String
  pub evaluator_version : String
  pub environment_digest : String
  pub requested_model : String
  pub returned_model : Option String
  pub code_revision : String
  pub budget_used : BudgetUsage F
  pub budget_reserved : BudgetUsage F
  pub run_status : RunStatus
  pub evaluation_outcome : Option String
  pub manifest_revision : ℕ
  pub manifest_sha256 : String
  pub event_count : ℕ
  pub head_event_sha256 : String
  pub semantic_digest : String
  pub ledger_snapshot_sha256 : String
  pub storage_state : String
  pub references_verified : Bool
  pub storage_clean : Bool

pub record ReliabilityCampaignAttemptEvidence (F : Type 0) : Type 0 where
  pub attempt : ReliabilityCampaignAttempt
  pub disposition : CampaignAttemptDisposition
  pub observed_run_ids : List String
  pub terminal : Option (ReliabilityCampaignTerminalEvidence F)
  pub recovery_attempted : Bool
  pub recovery_succeeded : Bool
  pub execution_error_type : Option String
  pub diagnostic : Option String

-- `_AttemptExecutionNote`
pub record AttemptExecutionNote : Type 0 where
  pub error_type : Option String
  pub recovery_attempted : Bool
  pub recovery_succeeded : Bool
  pub post_commit_maintenance_error : Bool
  pub diagnostic : Option String

module _ {F : Type 0} ⦃fl : Float F⦄ where
  unfoldable pub validate_terminal :
      ReliabilityCampaignTerminalEvidence F → Result (ReliabilityCampaignTerminalEvidence F)
  validate_terminal t = do
    require (is_terminal t.run_status)
        (Error.value_error "campaign terminal evidence requires a terminal run")
    require (ltb t.manifest_revision t.event_count)
        (Error.value_error "manifest revision must be less than event count")
    require (same_usage t.budget_reserved no_usage)
        (Error.value_error "campaign terminal evidence cannot retain reserved budget")
    require (not (same_status t.run_status succeeded) || is_some t.returned_model)
        (Error.value_error "successful campaign evidence requires a returned model")
    ok t

module _ {F : Type 0} where
  -- `self.terminal is not None and self.terminal.run_id != self.attempt.attempt_id`, negated.
  abbrev pub has_own_terminal : Option (ReliabilityCampaignTerminalEvidence F) → String → Bool
  has_own_terminal none id = true
  has_own_terminal (some t) id = t.run_id == id

  unfoldable pub validate_evidence :
      (String → String → Bool)
      → ReliabilityCampaignAttemptEvidence F
      → Result (ReliabilityCampaignAttemptEvidence F)
  unfolding is_sorted_set
  validate_evidence before e = do
    require (is_sorted_set before e.observed_run_ids)
        (Error.value_error "observed run IDs must be unique and ordered")
    require (not e.recovery_succeeded || e.recovery_attempted)
        (Error.value_error "successful recovery requires a recovery attempt")
    require (has_own_terminal e.terminal e.attempt.attempt_id)
        (Error.value_error "terminal run ID must equal the declared attempt ID")
    require (not (requires_terminal e.disposition) || is_some e.terminal)
        (Error.value_error "campaign disposition requires terminal evidence")
    require (is_infrastructure_error e.disposition || not (is_some e.execution_error_type))
        (Error.value_error "ordinary result dispositions cannot retain an execution error")
    require
        (not (is_missing e.disposition)
          || (not (has_items e.observed_run_ids) && not (is_some e.terminal)))
        (Error.value_error "missing evidence cannot contain observed runs")
    require
        (not (is_nonterminal e.disposition)
          || (same_texts e.observed_run_ids (e.attempt.attempt_id ∷ [])
              && not (is_some e.terminal)))
        (Error.value_error "nonterminal evidence requires exactly the declared run")
    ok e

  abbrev pub is_sound_terminal : Option (ReliabilityCampaignTerminalEvidence F) → Bool
  is_sound_terminal none = false
  is_sound_terminal (some t) = t.references_verified && t.storage_clean

  -- The property of the evidence.
  unfoldable pub is_reconciled_terminal : ReliabilityCampaignAttemptEvidence F → Bool
  is_reconciled_terminal e =
      is_sound_terminal e.terminal && same_texts e.observed_run_ids (e.attempt.attempt_id ∷ [])
