-- ===== src/Store/Isolation.antt =====
-- Every writer of a run extends the ledger for that run alone.
use guildmind.Common.{String, List, ◌≡◌, ap, Result, ok, arith, Option}
use guildmind.Domain.Float.{Float}
use guildmind.Domain.Json.{Fields}
use guildmind.Domain.Usage.{BudgetUsage}
use guildmind.Domain.Event.{EventRecord, Canonical, validate_event}
use guildmind.Store.Exec.{
  Exec, pure, lift, reads, writes, check, ◌>>=◌, Respects, Respects-bind, Respects-reads,
  Respects-lift-bind, Respects-if, method_rules, Respects-check, Respects-pure, Respects-lift,
  IsPreorder, Respects-check, Respects-pure, Respects-lift, IsPreorder,
}
use guildmind.Store.Tables.{Ledger, EventRow}
use guildmind.Store.Read.{VerifiedRunRoot}
use guildmind.Store.Wire.{Wire, ClockStamp}
use guildmind.Store.Extends.{Extends, Extends-IsPreorder}
use guildmind.Store.Statements.{insert_event-Extends, update_budget-Extends, tick-Extends}
use guildmind.Store.Saves.{save_manifest_locked-Extends}
use guildmind.Store.Write.{
  append_locked, append_budget_snapshot_locked, update_budget_locked, take_stamp, next_event,
  event_row, entry_checks, exit_roots, transaction, Handle,
}

-- `validate_event` returns its argument.
validate_event_same :
    {F : Type 0} ⦃fl : Float F⦄ ⦃cn : Canonical F⦄ (e a : EventRecord F)
    → validate_event e ≡ ok a
    → a ≡ e
unfolding validate_event
validate_event_same e a h = ground arith

module _ {F : Type 0} ⦃fl : Float F⦄ ⦃cn : Canonical F⦄ (w : Wire F) (id : String) where
  take_stamp-Extends : Respects (Extends id) (take_stamp w)
  unfolding take_stamp
  take_stamp-Extends = search (method_rules, Extends-IsPreorder, tick-Extends) depth 20 fits 4000

  pub update_budget_locked-Extends :
      (used reserved : BudgetUsage F)
      → Respects (Extends id) (update_budget_locked w id used reserved)
  unfolding update_budget_locked
  update_budget_locked-Extends used reserved =
      search (method_rules, Extends-IsPreorder, update_budget-Extends)

  event_row_own :
      (kind : String) (payload : Fields F) (prior : Option EventRow) (now : ClockStamp)
      (e : EventRecord F)
      → validate_event (next_event w id kind payload prior now) ≡ ok e
      → (event_row w e).run_id ≡ id
  unfolding event_row next_event
  event_row_own kind payload prior now e h =
      ap (λ (x : EventRecord F). x.run_id) (validate_event_same _ e h)

  pub append_locked-Extends :
      (kind : String) (payload : Fields F) → Respects (Extends id) (append_locked w id kind payload)
  unfolding append_locked
  append_locked-Extends kind payload =
      Respects-bind (Extends-IsPreorder id) _ _ (Respects-reads (Extends-IsPreorder id) _) (λ prior.
        Respects-bind (Extends-IsPreorder id) _ _ take_stamp-Extends (λ now.
          Respects-lift-bind (Extends-IsPreorder id) _ _ (λ e h.
            search
              (
                method_rules,
                Extends-IsPreorder,
                insert_event-Extends (event_row w e) (event_row_own kind payload prior now e h),
              )
              depth 20 fits 4000)))

  pub append_budget_snapshot_locked-Extends :
      (used reserved : BudgetUsage F)
      → Respects (Extends id) (append_budget_snapshot_locked w id used reserved)
  unfolding append_budget_snapshot_locked
  append_budget_snapshot_locked-Extends used reserved = append_locked-Extends _ _

  entry_checks-Extends : (h : Handle) → Respects (Extends id) (entry_checks w h)
  unfolding entry_checks
  entry_checks-Extends h =
      Respects-if (Extends id) h.opens_existing _ _
        (search (method_rules, Extends-IsPreorder) depth 20 fits 4000)
        (search (method_rules, Extends-IsPreorder))

  exit_roots-Extends : (h : Handle) → Respects (Extends id) (exit_roots w h)
  unfolding exit_roots
  exit_roots-Extends h =
      Respects-if (Extends id) h.opens_existing _ _
        (search (method_rules, Extends-IsPreorder) depth 20 fits 4000)
        (search (method_rules, Extends-IsPreorder))

  -- The checks around a transaction write nothing.
  pub transaction-Extends :
      {A : Type 0} (h : Handle) (guard : List (VerifiedRunRoot F) → Result (Unit {0}))
      (body : Exec Ledger A)
      → Respects (Extends id) body
      → Respects (Extends id) (transaction w h guard body)
  unfolding transaction
  transaction-Extends h guard body inner = Respects-bind p _ _ (Respects-check p _ _) (λ u.
      Respects-bind p _ _ (Respects-reads p _) (λ u. Respects-bind p _ _ (Respects-reads p _) (λ u.
        Respects-bind p _ _ (entry_checks-Extends h) (λ u. Respects-bind p _ _ inner (λ a.
          Respects-bind p _ _ (Respects-reads p _) (λ u.
            Respects-bind p _ _ (exit_roots-Extends h) (λ r.
              Respects-bind p _ _ (Respects-lift p _)
                (λ u. Respects-bind p _ _ (Respects-reads p _) (λ u. Respects-pure p a)))))))))
    where
      p : IsPreorder (Extends id)
      p = Extends-IsPreorder id

pub ruleset ledger_rules = (
  method_rules, Extends-IsPreorder, append_locked-Extends, append_budget_snapshot_locked-Extends,
  save_manifest_locked-Extends, update_budget_locked-Extends, transaction-Extends,
)
