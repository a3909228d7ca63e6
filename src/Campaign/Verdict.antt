-- ===== src/Campaign/Verdict.antt =====
-- What the verdict of a campaign's report says of its attempts.
use guildmind.Common.{
  ℕ, ◌+◌, ◌≤◌, List, [], ◌∷◌, map, length, Bool, true, false, ◌&&◌, ◌≡◌, refl, sym, ap, ◌∙◌, arith,
  ◌==◌, eqb, all, ok, require-eq-ok,
}
use guildmind.Domain.Float.{Float}
use guildmind.Audit.Order.{same_list}
use guildmind.Campaign.Evidence.{
  ReliabilityCampaignAttemptEvidence, CampaignAttemptDisposition, expected, unexpected_result,
  infrastructure_error, evidence_missing, evidence_run_set_invalid, evidence_nonterminal,
  evidence_invalid, post_commit_maintenance_error, is_expected, is_infrastructure_error,
  is_reconciled_terminal,
}
use guildmind.Campaign.Report.{
  Measure, ReliabilityCampaignReportBody, count, derived_totals, same_totals, same_attempt,
  validate_body,
}
use guildmind.Campaign.Schedule.{length-map}

count_le : {A : Type 0} (test : A → Bool) (xs : List A) → count test xs ≤ length xs
count_le test [] = omega arith
count_le test (x ∷ xs) = let rest = count_le test xs in ground arith

-- A count is full when every item passes.
count-length :
    {A : Type 0} (test : A → Bool) (xs : List A) → eqb (count test xs) (length xs) ≡ all test xs
count-length test [] = refl
count-length test (x ∷ xs) =
    let rest = count-length test xs in let bound = count_le test xs in ground arith

full :
    {A : Type 0} (test : A → Bool) (xs : List A) {n : ℕ}
    → length xs ≡ n
    → eqb (count test xs) n ≡ all test xs
full test xs e = sym (ap (eqb (count test xs)) e) ∙ count-length test xs

same_list-length :
    {A : Type 0} (same : A → A → Bool) (xs ys : List A)
    → same_list same xs ys ≡ true
    → length xs ≡ length ys
same_list-length same [] [] h = refl
same_list-length same [] (y ∷ ys) h = absurd (cc h)
same_list-length same (x ∷ xs) [] h = absurd (cc h)
same_list-length same (x ∷ xs) (y ∷ ys) h =
    let rest = same_list-length same xs ys (ground arith) in omega arith

-- An attempt is not both expected and an infrastructure error.
apart : (d : CampaignAttemptDisposition) → (is_expected d && is_infrastructure_error d) ≡ false
apart expected = refl
apart unexpected_result = refl
apart infrastructure_error = refl
apart evidence_missing = refl
apart evidence_run_set_invalid = refl
apart evidence_nonterminal = refl
apart evidence_invalid = refl
apart post_commit_maintenance_error = refl

count-apart :
    {A : Type 0} (p q : A → Bool) (xs : List A)
    → ((x : A) → (p x && q x) ≡ false)
    → count p xs + count q xs ≤ length xs
count-apart p q [] h = omega arith
count-apart p q (x ∷ xs) h = let rest = count-apart p q xs h in let own = h x in ground arith

module _ {F : Type 0} ⦃fl : Float F⦄ (measure : Measure F) where
  abbrev attempts_expected : List (ReliabilityCampaignAttemptEvidence F) → Bool
  attempts_expected = all (λ (e : ReliabilityCampaignAttemptEvidence F). is_expected e.disposition)

  record Checked (b : ReliabilityCampaignReportBody F) : Type 0 where
    lengths : length b.attempts ≡ length b.manifest.attempts
    totals :
        same_totals measure b.totals (
          derived_totals measure b.manifest b.state_manifest_verified b.code_identity_verified
            b.attempts)
        ≡ true

  validate_body-Checked :
      (b b' : ReliabilityCampaignReportBody F) → validate_body measure b ≡ ok b' → Checked b
  unfolding validate_body
  validate_body-Checked b b' h =
      let (_, h1) =
        require-eq-ok (b.campaign_manifest_sha256 == measure.content_sha256 b.manifest) _ _ h in
      let (same, h2) =
        require-eq-ok
          (same_list same_attempt
            (map (λ (e : ReliabilityCampaignAttemptEvidence F). e.attempt) b.attempts)
            b.manifest.attempts)
          _ _ h1 in
      let (totals, _) =
        require-eq-ok
          (same_totals measure b.totals (
            derived_totals measure b.manifest b.state_manifest_verified b.code_identity_verified
              b.attempts))
          _ _ h2 in
      record {
        lengths =
            sym (length-map (λ (e : ReliabilityCampaignAttemptEvidence F). e.attempt) b.attempts)
            ∙ same_list-length same_attempt _ _ same;
        totals = totals;
      }

  -- A report body that passes its validator says that the campaign passed exactly if the state's
  -- manifest and the code identity were verified, every attempt is a reconciled terminal run and has
  -- the expected result, and the rate of infrastructure errors is within the campaign's maximum.
  pub validate_body-passed :
      (b b' : ReliabilityCampaignReportBody F)
      → validate_body measure b ≡ ok b'
      → b.totals.campaign_passed ≡ (
          b.state_manifest_verified
          && b.code_identity_verified
          && all is_reconciled_terminal b.attempts
          && attempts_expected b.attempts
          && fl.le
              (measure.quotient
                (count
                  (λ (e : ReliabilityCampaignAttemptEvidence F).
                    is_infrastructure_error e.disposition)
                  b.attempts)
                (length b.manifest.attempts))
              b.manifest.maximum_infrastructure_error_rate)
  unfolding same_totals derived_totals
  validate_body-passed b b' h =
      let c = validate_body-Checked b b' h in
      let lengths = c.lengths in
      let totals = c.totals in
      let reconciled = full is_reconciled_terminal b.attempts lengths in
      let found =
        full (λ (e : ReliabilityCampaignAttemptEvidence F). is_expected e.disposition) b.attempts
          lengths in
      ground arith

  -- In a report body that passes its validator, the expected attempts and the infrastructure errors are
  -- together at most the intended attempts.
  pub validate_body-bounds :
      (b b' : ReliabilityCampaignReportBody F)
      → validate_body measure b ≡ ok b'
      → b.totals.expected_attempt_count + b.totals.infrastructure_error_count
        ≤ b.totals.intended_attempt_count
  unfolding same_totals derived_totals
  validate_body-bounds b b' h =
      let c = validate_body-Checked b b' h in
      let lengths = c.lengths in
      let totals = c.totals in
      let both =
        count-apart (λ (e : ReliabilityCampaignAttemptEvidence F). is_expected e.disposition)
          (λ (e : ReliabilityCampaignAttemptEvidence F). is_infrastructure_error e.disposition)
          b.attempts (λ e. apart e.disposition) in
      ground arith
