-- ===== src/Campaign/Report.antt =====
-- domain/campaign.py and runtime/campaign.py: the report of a campaign and its aggregation.
use guildmind.Common.{
  ℕ, suc, String, List, [], ◌∷◌, map, length, Bool, ◌&&◌, ◌==◌, eqb, is_some, if◌then◌else◌, Error,
  Result, ok, require, ◌>>◌,
}
use guildmind.Domain.Float.{Float}
use guildmind.Audit.Order.{same_list}
use guildmind.Audit.Findings.{same_bool}
use guildmind.Campaign.Manifest.{ReliabilityCampaignManifest, ReliabilityCampaignAttempt}
use guildmind.Campaign.Evidence.{
  ReliabilityCampaignAttemptEvidence, is_expected, is_infrastructure_error, is_reconciled_terminal,
}

-- `sum(test(item) for item in items)`
abbrev pub count {ℓ} : {A : Type ℓ} → (A → Bool) → List A → ℕ
count test [] = 0
count test (x ∷ xs) = let rest = count test xs in if test x then suc rest else rest

-- What the report takes from Python and from serialization.py: `/` on counts, and the hash of a
-- manifest's canonical JSON.
pub record Measure (F : Type 0) : Type 0 where
  pub quotient : ℕ → ℕ → F
  pub content_sha256 : ReliabilityCampaignManifest F → String

pub record Totals (F : Type 0) : Type 0 where
  pub intended_attempt_count : ℕ
  pub terminal_attempt_count : ℕ
  pub reconciled_attempt_count : ℕ
  pub expected_attempt_count : ℕ
  pub infrastructure_error_count : ℕ
  pub infrastructure_error_rate : F
  pub complete : Bool
  pub all_expected : Bool
  pub threshold_met : Bool
  pub campaign_passed : Bool

pub record ReliabilityCampaignReportBody (F : Type 0) : Type 0 where
  pub manifest : ReliabilityCampaignManifest F
  pub source_manifest_sha256 : String
  pub campaign_manifest_sha256 : String
  pub git_revision : String
  pub recorded_at : ℕ
  pub state_manifest_verified : Bool
  pub code_identity_verified : Bool
  pub attempts : List (ReliabilityCampaignAttemptEvidence F)
  pub totals : Totals F

abbrev pub same_attempt : ReliabilityCampaignAttempt → ReliabilityCampaignAttempt → Bool
same_attempt a b =
    (a.attempt_id == b.attempt_id)
    && (a.fixture_id == b.fixture_id)
    && eqb a.round_index b.round_index
    && eqb a.seed b.seed

module _ {F : Type 0} ⦃fl : Float F⦄ (measure : Measure F) where
  -- The derivation that the aggregation and the validator share.
  unfoldable pub derived_totals :
      ReliabilityCampaignManifest F
      → Bool
      → Bool
      → List (ReliabilityCampaignAttemptEvidence F)
      → Totals F
  unfolding is_reconciled_terminal
  derived_totals manifest state_verified code_verified attempts =
      let intended = length manifest.attempts in
      let reconciled = count is_reconciled_terminal attempts in
      let found =
        count (λ (e : ReliabilityCampaignAttemptEvidence F). is_expected e.disposition) attempts in
      let errors =
        count (λ (e : ReliabilityCampaignAttemptEvidence F). is_infrastructure_error e.disposition)
          attempts in
      let rate = measure.quotient errors intended in
      let complete = eqb reconciled intended in
      let all_expected = eqb found intended in
      let threshold_met = fl.le rate manifest.maximum_infrastructure_error_rate in
      record {
        intended_attempt_count = intended;
        terminal_attempt_count =
            count (λ (e : ReliabilityCampaignAttemptEvidence F). is_some e.terminal) attempts;
        reconciled_attempt_count = reconciled;
        expected_attempt_count = found;
        infrastructure_error_count = errors;
        infrastructure_error_rate = rate;
        complete = complete;
        all_expected = all_expected;
        threshold_met = threshold_met;
        campaign_passed =
            state_verified && code_verified && complete && all_expected && threshold_met;
      }

  -- `observed == derived`
  unfoldable pub same_totals : Totals F → Totals F → Bool
  same_totals a b =
      eqb a.intended_attempt_count b.intended_attempt_count
      && eqb a.terminal_attempt_count b.terminal_attempt_count
      && eqb a.reconciled_attempt_count b.reconciled_attempt_count
      && eqb a.expected_attempt_count b.expected_attempt_count
      && eqb a.infrastructure_error_count b.infrastructure_error_count
      && fl.eq a.infrastructure_error_rate b.infrastructure_error_rate
      && same_bool a.complete b.complete
      && same_bool a.all_expected b.all_expected
      && same_bool a.threshold_met b.threshold_met
      && same_bool a.campaign_passed b.campaign_passed

  unfoldable pub validate_body :
      ReliabilityCampaignReportBody F → Result (ReliabilityCampaignReportBody F)
  unfolding same_totals derived_totals
  validate_body body = do
    require (body.campaign_manifest_sha256 == measure.content_sha256 body.manifest)
        (Error.value_error "campaign manifest hash does not match the retained manifest")
    require
        (same_list same_attempt
          (map (λ (e : ReliabilityCampaignAttemptEvidence F). e.attempt) body.attempts)
          body.manifest.attempts)
        (Error.value_error "campaign report attempts must equal the declared schedule")
    require
        (same_totals body.totals (
          derived_totals body.manifest body.state_manifest_verified body.code_identity_verified
            body.attempts))
        (Error.value_error "campaign report aggregate claims must be derived")
    ok body
