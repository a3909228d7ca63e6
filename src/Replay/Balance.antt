-- ===== src/Replay/Balance.antt =====
-- What the budget fields of a replayed run hold, by the state of its model request. A run makes one
-- request, so its ledger passes through seven situations.
use guildmind.Common.{
  String, true, Option, none, some, ◌≡◌, ◌∙◌, arith, Result, ok, err, Error, >>=-eq-ok,
}
use guildmind.Domain.Float.{Float}
use guildmind.Domain.Json.{Json, null, boolean, integer, number, text, array, object, Fields, get}
use guildmind.Domain.Usage.{BudgetUsage, no_usage, is_valid_usage, validate_usage, usage_at_most}
use guildmind.Domain.Parse.{usage_of_json, read_usage}
use guildmind.Replay.State.{
  Cursor, reserve, reconcile, charge, not_started, started, completed, ambiguous,
}
use guildmind.Replay.Payload.{usage_of_field, usage_from_payload, recast}

module _ {F : Type 0} ⦃fl : Float F⦄ where
  pub validate_usage-valid :
      (u v : BudgetUsage F) → validate_usage u ≡ ok v → is_valid_usage v ≡ true
  unfolding validate_usage
  validate_usage-valid u v h = ground arith

  pub usage_of_json-valid :
      (fs : Fields F) (u : BudgetUsage F) → usage_of_json fs ≡ ok u → is_valid_usage u ≡ true
  unfolding usage_of_json
  usage_of_json-valid fs u h =
      let (read, _, checked) = >>=-eq-ok (read_usage fs) validate_usage h in
      validate_usage-valid read u checked

  recast-eq-ok :
      (r : Result (BudgetUsage F)) (e : Error) {u : BudgetUsage F} → recast r e ≡ ok u → r ≡ ok u
  recast-eq-ok (ok v) e h = h
  recast-eq-ok (err e') e h = cc

  -- A usage read from a payload has passed the validators.
  pub usage_from_payload-valid :
      (payload : Fields F) (key : String) (u : BudgetUsage F)
      → usage_from_payload payload key ≡ ok u
      → is_valid_usage u ≡ true
  unfolding usage_from_payload
  usage_from_payload-valid payload key u h = go (get key payload) h
    where
      go : (j : Option (Json F)) → usage_of_field j ≡ ok u → is_valid_usage u ≡ true
      go (some (object fs)) e = usage_of_json-valid fs u (recast-eq-ok (usage_of_json fs) _ e)
      go none e = cc
      go (some null) e = cc
      go (some (boolean b)) e = cc
      go (some (integer n)) e = cc
      go (some (number x)) e = cc
      go (some (text t)) e = cc
      go (some (array xs)) e = cc

  -- The fields that the accounts are about.
  pub record SameAccounts (c c' : Cursor F) : Type 0 where
    pub pending : c'.pending_budget ≡ c.pending_budget
    pub request : c'.state.model_request_state ≡ c.state.model_request_state
    pub maximum : c'.state.model_request_maximum ≡ c.state.model_request_maximum
    pub used : c'.state.budget_used ≡ c.state.budget_used
    pub reserved : c'.state.budget_reserved ≡ c.state.budget_reserved

  -- The seven situations; `m` is the maximum of the request, `a` the usage that it reported.
  pub data Balance (c : Cursor F) : Type 0 where
    idle :
        c.state.model_request_state ≡ not_started
        → c.pending_budget ≡ none
        → c.state.model_request_maximum ≡ none
        → c.state.budget_used ≡ no_usage
        → c.state.budget_reserved ≡ no_usage
        → Balance c
    reserving :
        (m : BudgetUsage F)
        → is_valid_usage m ≡ true
        → c.state.model_request_state ≡ started
        → c.pending_budget
          ≡ some (record {
            kind = reserve;
            used_before = no_usage;
            reserved_before = no_usage;
            amount = m;
          })
        → c.state.model_request_maximum ≡ some m
        → c.state.budget_used ≡ no_usage
        → c.state.budget_reserved ≡ no_usage
        → Balance c
    outstanding :
        (m : BudgetUsage F)
        → is_valid_usage m ≡ true
        → c.state.model_request_state ≡ started
        → c.pending_budget ≡ none
        → c.state.model_request_maximum ≡ some m
        → c.state.budget_used ≡ no_usage
        → c.state.budget_reserved ≡ m
        → Balance c
    reconciling :
        (m a : BudgetUsage F)
        → is_valid_usage m ≡ true
        → is_valid_usage a ≡ true
        → usage_at_most a m ≡ true
        → c.state.model_request_state ≡ completed
        → c.pending_budget
          ≡ some
              (record { kind = reconcile; used_before = no_usage; reserved_before = m; amount = a })
        → c.state.model_request_maximum ≡ some m
        → c.state.budget_used ≡ no_usage
        → c.state.budget_reserved ≡ m
        → Balance c
    spent :
        (m : BudgetUsage F)
        → is_valid_usage m ≡ true
        → usage_at_most c.state.budget_used m ≡ true
        → c.state.model_request_state ≡ completed
        → c.pending_budget ≡ none
        → c.state.model_request_maximum ≡ some m
        → c.state.budget_reserved ≡ no_usage
        → Balance c
    charging :
        (m : BudgetUsage F)
        → is_valid_usage m ≡ true
        → c.state.model_request_state ≡ ambiguous
        → c.pending_budget
          ≡ some (record { kind = charge; used_before = no_usage; reserved_before = m; amount = m })
        → c.state.model_request_maximum ≡ some m
        → c.state.budget_used ≡ no_usage
        → c.state.budget_reserved ≡ m
        → Balance c
    charged :
        (m : BudgetUsage F)
        → is_valid_usage m ≡ true
        → c.state.model_request_state ≡ ambiguous
        → c.pending_budget ≡ none
        → c.state.model_request_maximum ≡ some m
        → c.state.budget_used ≡ m
        → c.state.budget_reserved ≡ no_usage
        → Balance c

  pub Balance-same : {c c' : Cursor F} → SameAccounts c c' → Balance c → Balance c'
  Balance-same s (idle a b d e f) =
      idle (s.request ∙ a) (s.pending ∙ b) (s.maximum ∙ d) (s.used ∙ e) (s.reserved ∙ f)
  Balance-same s (reserving m v a b d e f) =
      reserving m v (s.request ∙ a) (s.pending ∙ b) (s.maximum ∙ d) (s.used ∙ e) (s.reserved ∙ f)
  Balance-same s (outstanding m v a b d e f) =
      outstanding m v (s.request ∙ a) (s.pending ∙ b) (s.maximum ∙ d) (s.used ∙ e) (s.reserved ∙ f)
  Balance-same s (reconciling m u v w l a b d e f) =
      reconciling m u v w l (s.request ∙ a) (s.pending ∙ b) (s.maximum ∙ d) (s.used ∙ e)
        (s.reserved ∙ f)
  Balance-same s (spent m v l a b d f) =
      spent m v (rw s.used l) (s.request ∙ a) (s.pending ∙ b) (s.maximum ∙ d) (s.reserved ∙ f)
  Balance-same s (charging m v a b d e f) =
      charging m v (s.request ∙ a) (s.pending ∙ b) (s.maximum ∙ d) (s.used ∙ e) (s.reserved ∙ f)
  Balance-same s (charged m v a b d e f) =
      charged m v (s.request ∙ a) (s.pending ∙ b) (s.maximum ∙ d) (s.used ∙ e) (s.reserved ∙ f)
