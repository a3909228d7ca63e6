-- ===== src/Campaign/Yields.antt =====
-- Blocks whose evidence is expected only on good grounds.
use mathlib.Core.Path.{subst}
use guildmind.Common.{
  String, List, [], ◌∷◌, Bool, true, false, not, ◌&&◌, ◌||◌, Option, none, some, ◌≡◌, refl, arith,
  ◌⊎◌, inl, concat, ltb, is_some, if◌then◌else◌, Error, Result, ok, err, ◌>>=◌, require-eq-ok,
  ok-injective,
}
use guildmind.Domain.Float.{Float}
use guildmind.Domain.Usage.{same_usage, no_usage}
use guildmind.Domain.Status.{is_terminal, same_status, succeeded}
use guildmind.Store.Manifests.{same_text}
use guildmind.Audit.Order.{is_sorted_set, same_texts}
use guildmind.Audit.Findings.{has_items}
use guildmind.Campaign.Manifest.{ReliabilityCampaignManifest, ReliabilityCampaignAttempt}
use guildmind.Campaign.Evidence.{
  ReliabilityCampaignAttemptEvidence, ReliabilityCampaignTerminalEvidence, AttemptExecutionNote,
  CampaignAttemptDisposition, is_expected, is_missing, is_nonterminal, is_infrastructure_error,
  requires_terminal, has_own_terminal, validate_evidence, validate_terminal, is_reconciled_terminal,
}
use guildmind.Campaign.Attempt.{attempt_evidence, is_none_or, try_else, note_flag, note_text}

-- The run succeeded, passed its evaluation, and holds no reserved budget.
abbrev pub has_succeeded :
    {F : Type 0} ⦃fl : Float F⦄ → Option (ReliabilityCampaignTerminalEvidence F) → Bool
has_succeeded none = false
has_succeeded (some t) =
    same_status t.run_status succeeded
    && same_text t.evaluation_outcome (some "passed")
    && same_usage t.budget_reserved no_usage

-- The terminal evidence is of the run that the campaign declares for the attempt, and nothing is left
-- open in it.
pub record Declared {F : Type 0} ⦃fl : Float F⦄ (m : ReliabilityCampaignManifest F)
    (attempt : ReliabilityCampaignAttempt) (t : ReliabilityCampaignTerminalEvidence F)
    : Type 0 where
  pub task : t.task_id ≡ attempt.fixture_id
  pub model : t.requested_model ≡ m.model_id
  pub returned_model : is_none_or t.returned_model m.model_id ≡ true
  pub evaluated_model :
      (not (is_some t.evaluation_outcome) || same_text t.returned_model (some m.model_id)) ≡ true
  pub environment : t.environment_digest ≡ m.evaluator.environment_digest
  pub evaluator : t.evaluator_version ≡ m.evaluator.evaluator_version
  pub code : t.code_revision ≡ concat "source-sha256:" m.code_source_sha256
  pub terminal : is_terminal t.run_status ≡ true
  pub settled : same_usage t.budget_reserved no_usage ≡ true

-- Terminal evidence is there, under the attempt's ID, and is of the declared run.
pub record Identified {F : Type 0} ⦃fl : Float F⦄ (m : ReliabilityCampaignManifest F)
    (attempt : ReliabilityCampaignAttempt) (e : ReliabilityCampaignAttemptEvidence F) : Type 0 where
  pub found : ReliabilityCampaignTerminalEvidence F
  pub here : e.terminal ≡ some found
  pub run : found.run_id ≡ attempt.attempt_id
  pub declared : Declared m attempt found
  pub reconciled : is_reconciled_terminal e ≡ true

-- The evidence is of this attempt; it counts as an infrastructure error or is identified and
-- reconciled; and if it is expected, its run succeeded.
pub record Grounded {F : Type 0} ⦃fl : Float F⦄ (m : ReliabilityCampaignManifest F)
    (attempt : ReliabilityCampaignAttempt) (e : ReliabilityCampaignAttemptEvidence F) : Type 0 where
  pub own : e.attempt ≡ attempt
  pub sound : (is_infrastructure_error e.disposition ≡ true) ⊎ Identified m attempt e
  pub successful : (not (is_expected e.disposition) || has_succeeded e.terminal) ≡ true

pub record Yields {F : Type 0} ⦃fl : Float F⦄ (m : ReliabilityCampaignManifest F)
    (attempt : ReliabilityCampaignAttempt) (r : Result (ReliabilityCampaignAttemptEvidence F))
    : Type 0 where
  pub at : (e : ReliabilityCampaignAttemptEvidence F) → r ≡ ok e → Grounded m attempt e

module _ {F : Type 0} ⦃fl : Float F⦄ {c : ReliabilityCampaignManifest F}
    {a : ReliabilityCampaignAttempt} where
  pub Yields-bind :
      {A : Type 0} (m : Result A) (f : A → Result (ReliabilityCampaignAttemptEvidence F))
      → ((x : A) → m ≡ ok x → Yields c a (f x))
      → Yields c a (m >>= f)
  Yields-bind (ok x) f rest = rest x refl
  Yields-bind (err e) f rest = record { at = λ v h. absurd (cc h) }

  pub Yields-if :
      (test : Bool) (x y : Result (ReliabilityCampaignAttemptEvidence F))
      → (test ≡ true → Yields c a x)
      → (test ≡ false → Yields c a y)
      → Yields c a (if test then x else y)
  Yields-if true x y p q = p refl
  Yields-if false x y p q = q refl

  pub Yields-try_else :
      {A : Type 0} (catches : Error → Bool) (r : Result A)
      (handler : Error → Result (ReliabilityCampaignAttemptEvidence F))
      (rest : A → Result (ReliabilityCampaignAttemptEvidence F))
      → ((e : Error) → Yields c a (handler e))
      → ((x : A) → r ≡ ok x → Yields c a (rest x))
      → Yields c a (try_else catches r handler rest)
  unfolding try_else
  Yields-try_else catches (ok x) handler rest p q = q x refl
  Yields-try_else catches (err e) handler rest p q =
      Yields-if (catches e) (handler e) (err e) (λ _. p e)
        (λ _. record { at = λ v h. absurd (cc h) })

-- The validators return what they are given.
validate_evidence-same :
    {F : Type 0} (before : String → String → Bool) (e e' : ReliabilityCampaignAttemptEvidence F)
    → validate_evidence before e ≡ ok e'
    → (e ≡ e') × (has_own_terminal e.terminal e.attempt.attempt_id ≡ true)
unfolding validate_evidence
validate_evidence-same before e e' h =
    let (_, h1) = require-eq-ok (is_sorted_set before e.observed_run_ids) _ _ h in
    let (_, h2) = require-eq-ok (not e.recovery_succeeded || e.recovery_attempted) _ _ h1 in
    let (own, h3) = require-eq-ok (has_own_terminal e.terminal e.attempt.attempt_id) _ _ h2 in
    let (_, h4) =
      require-eq-ok (not (requires_terminal e.disposition) || is_some e.terminal) _ _ h3 in
    let (_, h5) =
      require-eq-ok (is_infrastructure_error e.disposition || not (is_some e.execution_error_type))
        _ _ h4 in
    let (_, h6) =
      require-eq-ok
        (not (is_missing e.disposition)
          || (not (has_items e.observed_run_ids) && not (is_some e.terminal)))
        _ _ h5 in
    let (_, h7) =
      require-eq-ok
        (not (is_nonterminal e.disposition)
          || (same_texts e.observed_run_ids (e.attempt.attempt_id ∷ [])
              && not (is_some e.terminal)))
        _ _ h6 in
    (ok-injective e e' h7, own)

pub validate_terminal-same :
    {F : Type 0} ⦃fl : Float F⦄ (t t' : ReliabilityCampaignTerminalEvidence F)
    → validate_terminal t ≡ ok t'
    → (t ≡ t') × (same_usage t.budget_reserved no_usage ≡ true) × (is_terminal t.run_status ≡ true)
unfolding validate_terminal
validate_terminal-same t t' h =
    let (ended, h1) = require-eq-ok (is_terminal t.run_status) _ _ h in
    let (_, h2) = require-eq-ok (ltb t.manifest_revision t.event_count) _ _ h1 in
    let (settled, h3) = require-eq-ok (same_usage t.budget_reserved no_usage) _ _ h2 in
    let (_, h4) =
      require-eq-ok (not (same_status t.run_status succeeded) || is_some t.returned_model) _ _ h3 in
    (ok-injective t t' h4, settled, ended)

module _ {F : Type 0} ⦃fl : Float F⦄ (c : ReliabilityCampaignManifest F)
    (before : String → String → Bool) (a : ReliabilityCampaignAttempt) (ids : List String)
    (note : Option AttemptExecutionNote) where
  abbrev pub made :
      CampaignAttemptDisposition
      → Option String
      → Option (ReliabilityCampaignTerminalEvidence F)
      → ReliabilityCampaignAttemptEvidence F
  made d g t = record {
    attempt = a;
    disposition = d;
    observed_run_ids = ids;
    terminal = t;
    recovery_attempted = note_flag (λ n. n.recovery_attempted) note;
    recovery_succeeded = note_flag (λ n. n.recovery_succeeded) note;
    execution_error_type = note_text (λ n. n.error_type) note;
    diagnostic = g;
  }

  -- Evidence on the grounds that its disposition asks for, which may use that its terminal is its own.
  pub Yields-Grounded :
      (d : CampaignAttemptDisposition) (g : Option String)
      (t : Option (ReliabilityCampaignTerminalEvidence F))
      → (has_own_terminal t a.attempt_id ≡ true → Grounded c a (made d g t))
      → Yields c a (attempt_evidence before a ids note d g t)
  unfolding attempt_evidence
  Yields-Grounded d g t grounds = record {
    at = λ e h.
        let (same, own) = validate_evidence-same before (made d g t) e h in
        subst (Grounded c a) same (grounds own);
  }

  -- Evidence that counts as an infrastructure error.
  pub Yields-other :
      (d : CampaignAttemptDisposition) (g : Option String)
      (t : Option (ReliabilityCampaignTerminalEvidence F))
      → is_infrastructure_error d ≡ true
      → is_expected d ≡ false
      → Yields c a (attempt_evidence before a ids note d g t)
  Yields-other d g t failed other =
      Yields-Grounded d g t
        (λ _. record { own = refl; sound = inl failed; successful = ground arith })
