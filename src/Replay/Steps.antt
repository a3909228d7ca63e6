-- ===== src/Replay/Steps.antt =====
-- Every accepted event leaves the accounts in one of the seven situations.
use guildmind.Common.{ℕ, String, true, some, ◌≡◌, arith, ok, Result-cases, inl, inr}
use guildmind.Domain.Float.{Float}
use guildmind.Domain.Json.{Fields}
use guildmind.Domain.Usage.{BudgetUsage}
use guildmind.Replay.State.{
  Cursor, reserve, reconcile, charge, not_started, started, completed, ambiguous,
}
use guildmind.Replay.Payload.{usage_from_payload, require_text}
use guildmind.Replay.Lifecycle.{on_run_created, on_run_started, on_run_terminal}
use guildmind.Replay.Artifacts.{
  on_artifact_recorded, on_artifact_not_produced, on_evaluation_completed,
}
use guildmind.Replay.Requests.{
  on_model_request_started, on_model_response_completed, on_model_request_ambiguous, is_within,
}
use guildmind.Replay.Balance.{SameAccounts}

module _ {F : Type 0} ⦃fl : Float F⦄ where
  pub on_run_created-same :
      (n : ℕ) (p : Fields F) (c c' : Cursor F) → on_run_created n p c ≡ ok c' → SameAccounts c c'
  unfolding on_run_created
  on_run_created-same n p c c' h = ground arith

  pub on_run_started-same :
      (p : Fields F) (c c' : Cursor F) → on_run_started p c ≡ ok c' → SameAccounts c c'
  unfolding on_run_started
  on_run_started-same p c c' h = ground arith

  pub on_run_terminal-same :
      (p : Fields F) (c c' : Cursor F) → on_run_terminal p c ≡ ok c' → SameAccounts c c'
  unfolding on_run_terminal
  on_run_terminal-same p c c' h = ground arith

  pub on_artifact_recorded-same :
      (p : Fields F) (c c' : Cursor F) → on_artifact_recorded p c ≡ ok c' → SameAccounts c c'
  unfolding on_artifact_recorded
  on_artifact_recorded-same p c c' h = ground arith

  pub on_artifact_not_produced-same :
      (p : Fields F) (c c' : Cursor F) → on_artifact_not_produced p c ≡ ok c' → SameAccounts c c'
  unfolding on_artifact_not_produced
  on_artifact_not_produced-same p c c' h = ground arith

  pub on_evaluation_completed-same :
      (p : Fields F) (c c' : Cursor F) → on_evaluation_completed p c ≡ ok c' → SameAccounts c c'
  unfolding on_evaluation_completed
  on_evaluation_completed-same p c c' h = ground arith

  -- What each request handler has checked, and the cursor that it returns.
  pub record Requested (p : Fields F) (c c' : Cursor F) : Type 0 where
    pub maximum : BudgetUsage F
    pub request_id : String
    pub from_payload : usage_from_payload p "maximum" ≡ ok maximum
    pub was : c.state.model_request_state ≡ not_started
    pub result : c' ≡ record c {
      state = record c.state {
        model_request_id = some request_id;
        model_request_maximum = some maximum;
        model_request_state = started;
      };
      pending_budget = some (record {
        kind = reserve;
        used_before = c.state.budget_used;
        reserved_before = c.state.budget_reserved;
        amount = maximum;
      });
    }

  pub on_model_request_started-Requested :
      (p : Fields F) (c c' : Cursor F) → on_model_request_started p c ≡ ok c' → Requested p c c'
  unfolding on_model_request_started
  on_model_request_started-Requested p c c' h = elim (Result-cases (require_text p "request_id")) [
    | inl (_, bad) ↦ absurd (ground arith)
    | inr (id, id_eq) ↦ elim (Result-cases (usage_from_payload p "maximum")) [
      | inl (_, bad) ↦ absurd (ground arith)
      | inr (maximum, read) ↦ record {
        maximum = maximum;
        request_id = id;
        from_payload = read;
        was = ground arith;
        result = ground arith;
      }
    ]
  ]

  pub record Responded (p : Fields F) (c c' : Cursor F) : Type 0 where
    pub actual : BudgetUsage F
    pub model : String
    pub from_payload : usage_from_payload p "actual" ≡ ok actual
    pub was : c.state.model_request_state ≡ started
    pub within : is_within actual c.state.model_request_maximum ≡ true
    pub result : c' ≡ record c {
      state = record c.state { returned_model = some model; model_request_state = completed };
      pending_budget = some (record {
        kind = reconcile;
        used_before = c.state.budget_used;
        reserved_before = c.state.budget_reserved;
        amount = actual;
      });
    }

  pub on_model_response_completed-Responded :
      (p : Fields F) (c c' : Cursor F) → on_model_response_completed p c ≡ ok c' → Responded p c c'
  unfolding on_model_response_completed
  on_model_response_completed-Responded p c c' h =
      elim (Result-cases (usage_from_payload p "actual")) [
        | inl (_, bad) ↦ absurd (ground arith)
        | inr (actual, read) ↦ elim (Result-cases (require_text p "returned_model")) [
          | inl (_, bad) ↦ absurd (ground arith)
          | inr (model, model_eq) ↦ record {
            actual = actual;
            model = model;
            from_payload = read;
            was = ground arith;
            within = ground arith;
            result = ground arith;
          }
        ]
      ]

  pub record Doubted (c c' : Cursor F) : Type 0 where
    pub was : c.state.model_request_state ≡ started
    pub result : c' ≡ record c {
      state = record c.state { model_request_state = ambiguous };
      pending_budget = some (record {
        kind = charge;
        used_before = c.state.budget_used;
        reserved_before = c.state.budget_reserved;
        amount = c.state.budget_reserved;
      });
    }

  pub on_model_request_ambiguous-Doubted :
      (p : Fields F) (c c' : Cursor F) → on_model_request_ambiguous p c ≡ ok c' → Doubted c c'
  unfolding on_model_request_ambiguous
  on_model_request_ambiguous-Doubted p c c' h = record { was = ground arith; result = ground arith }
