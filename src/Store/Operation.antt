-- ===== src/Store/Operation.antt =====
-- events.py: the lifecycle methods of `EventStore` as one type of calls, and runs of calls.
use guildmind.Common.{ℕ, String, List, [], ◌∷◌, Option, Dict, ok, err}
use guildmind.Domain.Float.{Float}
use guildmind.Domain.Json.{Fields}
use guildmind.Domain.Usage.{BudgetUsage}
use guildmind.Domain.Status.{RunStatus}
use guildmind.Domain.Event.{ArtifactRef, Canonical}
use guildmind.Domain.Manifest.{RunManifest}
use guildmind.Store.Exec.{Exec, pure, ◌>>=◌}
use guildmind.Store.Tables.{Ledger}
use guildmind.Store.Wire.{Wire}
use guildmind.Store.Write.{Handle}
use guildmind.Store.Lifecycle.{
  create_run, start_run, record_artifact, start_model_request, complete_model_response,
}
use guildmind.Store.Terminal.{
  Guard, complete_evaluation_with_events, recover_run_with_events,
  complete_budget_exhaustion_with_events,
}

-- The arguments of one call, in the order of the method's parameters.
pub data Operation (F : Type 0) : Type 0 where
  create : RunManifest F → Operation F
  begin : String → ℕ → String → Operation F
  record_task : String → String → ArtifactRef → Operation F
  request : String → String → BudgetUsage F → BudgetUsage F → BudgetUsage F → Operation F
  respond :
      String
      → String
      → String
      → BudgetUsage F
      → ArtifactRef
      → BudgetUsage F
      → BudgetUsage F
      → Operation F
  evaluate :
      String
      → Dict ArtifactRef
      → Fields F
      → RunStatus
      → ℕ
      → Option String
      → BudgetUsage F
      → BudgetUsage F
      → Operation F
  recover : String → ℕ → String → Option String → Guard F → Operation F
  refuse : String → ℕ → String → Option String → Guard F → Operation F

-- The run that a call is about.
abbrev pub subject : {F : Type 0} → Operation F → String
subject (create m) = m.run_id
subject (begin id t model) = id
subject (record_task id name a) = id
subject (request id r m u v) = id
subject (respond id r model a p u v) = id
subject (evaluate id files p s t r u v) = id
subject (recover id t r e g) = id
subject (refuse id t r e g) = id

abbrev pub forget : {S A : Type 0} → Exec S A → Exec S (Unit {0})
forget m = m >>= λ a. pure tt

module _ {F : Type 0} ⦃fl : Float F⦄ ⦃cn : Canonical F⦄ (w : Wire F) (h : Handle) where
  unfoldable pub perform : Operation F → Exec Ledger (Unit {0})
  perform (create m) = forget (create_run w h m)
  perform (begin id t model) = forget (start_run w h id t model)
  perform (record_task id name a) = forget (record_artifact w h id name a)
  perform (request id r m u v) = forget (start_model_request w h id r m u v)
  perform (respond id r model a p u v) = forget (complete_model_response w h id r model a p u v)
  perform (evaluate id files p s t r u v) =
      forget (complete_evaluation_with_events w h id files p s t r u v)
  perform (recover id t r e g) = forget (recover_run_with_events w h id t r e g)
  perform (refuse id t r e g) = forget (complete_budget_exhaustion_with_events w h id t r e g)

  -- Calls one after another. A call that raises leaves the ledger as it was.
  unfoldable pub perform_all : List (Operation F) → Ledger → Ledger
  perform_all [] l = l
  perform_all (op ∷ ops) l = elim (perform op l) [
    | ok (u, l') ↦ perform_all ops l'
    | err e ↦ perform_all ops l
  ]
