-- ===== src/Replay/Accounts.antt =====
-- Every accepted event leaves the accounts in one of the seven situations: the step of the
-- induction over a stream.
use guildmind.Common.{true, none, some, ◌≡◌, arith, Result, ok, Result-cases, inl, inr, and-eq-true}
use guildmind.Domain.Float.{Float, IsFloat}
use guildmind.Domain.Json.{Fields}
use guildmind.Domain.Usage.{BudgetUsage, no_usage, is_valid_usage, add_usage, validate_usage}
use guildmind.Domain.Usage.Laws.{same_usage-eq, nought_plus_usage, subtract_usage_self}
use guildmind.Replay.State.{ReplayState, Cursor, BudgetTransition, reserve, reconcile, charge}
use guildmind.Replay.Payload.{usage_from_payload, reject}
use guildmind.Replay.Requests.{on_budget_snapshot, check_snapshot, expected_budget, is_expected}
use guildmind.Replay.Balance.{
  Balance, SameAccounts, idle, reserving, outstanding, reconciling, spent, charging, charged,
  Balance-same, usage_from_payload-valid,
}
use guildmind.Replay.Steps.{Requested, Responded, Doubted}

Unit-ok : (u : Unit {0}) (r : Result (Unit {0})) → r ≡ ok u → r ≡ ok tt
Unit-ok u r h = h

module _ {F : Type 0} ⦃fl : Float F⦄ where
  pub Requested-Balance :
      (p : Fields F) (c c' : Cursor F)
      → Requested p c c'
      → c.pending_budget ≡ none
      → Balance c
      → Balance c'
  Requested-Balance p c c' r settled (idle a b d e f) =
      reserving r.maximum (usage_from_payload-valid p "maximum" r.maximum r.from_payload)
        (ground (arith, r.result)) (ground (arith, r.result)) (ground (arith, r.result))
        (ground (arith, r.result)) (ground (arith, r.result))
  Requested-Balance p c c' r settled (reserving m v a b d e f) = absurd (cc (r.was, a))
  Requested-Balance p c c' r settled (outstanding m v a b d e f) = absurd (cc (r.was, a))
  Requested-Balance p c c' r settled (reconciling m u v w l a b d e f) = absurd (cc (r.was, a))
  Requested-Balance p c c' r settled (spent m v l a b d f) = absurd (cc (r.was, a))
  Requested-Balance p c c' r settled (charging m v a b d e f) = absurd (cc (r.was, a))
  Requested-Balance p c c' r settled (charged m v a b d e f) = absurd (cc (r.was, a))

  pub Responded-Balance :
      (p : Fields F) (c c' : Cursor F)
      → Responded p c c'
      → c.pending_budget ≡ none
      → Balance c
      → Balance c'
  Responded-Balance p c c' r settled (outstanding m v a b d e f) =
      reconciling m r.actual v (usage_from_payload-valid p "actual" r.actual r.from_payload)
        (ground (arith, r.within)) (ground (arith, r.result)) (ground (arith, r.result))
        (ground (arith, r.result)) (ground (arith, r.result)) (ground (arith, r.result))
  Responded-Balance p c c' r settled (idle a b d e f) = absurd (cc (r.was, a))
  Responded-Balance p c c' r settled (reserving m v a b d e f) = absurd (cc (settled, b))
  Responded-Balance p c c' r settled (reconciling m u v w l a b d e f) = absurd (cc (r.was, a))
  Responded-Balance p c c' r settled (spent m v l a b d f) = absurd (cc (r.was, a))
  Responded-Balance p c c' r settled (charging m v a b d e f) = absurd (cc (r.was, a))
  Responded-Balance p c c' r settled (charged m v a b d e f) = absurd (cc (r.was, a))

  pub Doubted-Balance :
      (c c' : Cursor F) → Doubted c c' → c.pending_budget ≡ none → Balance c → Balance c'
  Doubted-Balance c c' r settled (outstanding m v a b d e f) =
      charging m v (ground (arith, r.result)) (ground (arith, r.result)) (ground (arith, r.result))
        (ground (arith, r.result)) (ground (arith, r.result))
  Doubted-Balance c c' r settled (idle a b d e f) = absurd (cc (r.was, a))
  Doubted-Balance c c' r settled (reserving m v a b d e f) = absurd (cc (settled, b))
  Doubted-Balance c c' r settled (reconciling m u v w l a b d e f) = absurd (cc (r.was, a))
  Doubted-Balance c c' r settled (spent m v l a b d f) = absurd (cc (r.was, a))
  Doubted-Balance c c' r settled (charging m v a b d e f) = absurd (cc (r.was, a))
  Doubted-Balance c c' r settled (charged m v a b d e f) = absurd (cc (r.was, a))

  -- An accepted snapshot.
  pub record Snapshotted (c c' : Cursor F) : Type 0 where
    pub used : BudgetUsage F
    pub reserved : BudgetUsage F
    pub checked : check_snapshot c.state c.pending_budget used reserved ≡ ok tt
    pub result : c' ≡ record c {
      state = record c.state { budget_used = used; budget_reserved = reserved };
      pending_budget = none;
    }

  pub on_budget_snapshot-Snapshotted :
      (p : Fields F) (c c' : Cursor F) → on_budget_snapshot p c ≡ ok c' → Snapshotted c c'
  unfolding on_budget_snapshot
  on_budget_snapshot-Snapshotted p c c' h = elim (Result-cases (usage_from_payload p "used")) [
    | inl (_, bad) ↦ absurd (ground arith)
    | inr (used, used_eq) ↦ elim (Result-cases (usage_from_payload p "reserved")) [
      | inl (_, bad) ↦ absurd (ground arith)
      | inr (reserved, reserved_eq) ↦
          elim (Result-cases (check_snapshot c.state c.pending_budget used reserved)) [
            | inl (_, bad) ↦ absurd (ground arith)
            | inr (u, checked) ↦ record {
              used = used;
              reserved = reserved;
              checked = Unit-ok u _ checked;
              result = ground arith;
            }
          ]
    ]
  ]

module _ {F : Type 0} ⦃fl : Float F⦄ (laws : IsFloat F) where
  nought_add : (u : BudgetUsage F) → is_valid_usage u ≡ true → add_usage no_usage u ≡ ok u
  unfolding add_usage validate_usage
  nought_add u v = rw (nought_plus_usage laws u v, v)

  is_expected-eq :
      (used reserved u r : BudgetUsage F)
      → is_expected used reserved (u, r) ≡ true
      → (used ≡ u) × (reserved ≡ r)
  is_expected-eq used reserved u r h =
      let (a, b) = and-eq-true h in (same_usage-eq laws used u a, same_usage-eq laws reserved r b)

  check-expected :
      (s : ReplayState F) (t : BudgetTransition F) (used reserved u r : BudgetUsage F)
      → expected_budget s t ≡ ok (u, r)
      → check_snapshot s (some t) used reserved ≡ ok tt
      → (used ≡ u) × (reserved ≡ r)
  unfolding check_snapshot
  check-expected s t used reserved u r e h = is_expected-eq used reserved u r (ground (arith, e, h))

  check-unchanged :
      (s : ReplayState F) (used reserved : BudgetUsage F)
      → check_snapshot s none used reserved ≡ ok tt
      → (used ≡ s.budget_used) × (reserved ≡ s.budget_reserved)
  unfolding check_snapshot
  check-unchanged s used reserved h =
      is_expected-eq used reserved s.budget_used s.budget_reserved (ground arith)

  expected-reserve :
      (s : ReplayState F) (m : BudgetUsage F)
      → is_valid_usage m ≡ true
      → expected_budget s (record {
        kind = reserve;
        used_before = no_usage;
        reserved_before = no_usage;
        amount = m;
      })
        ≡ ok (no_usage, m)
  unfolding expected_budget
  expected-reserve s m v = rw (nought_add m v)

  expected-reconcile :
      (s : ReplayState F) (m a : BudgetUsage F)
      → s.model_request_maximum ≡ some m
      → is_valid_usage m ≡ true
      → is_valid_usage a ≡ true
      → expected_budget s
          (record { kind = reconcile; used_before = no_usage; reserved_before = m; amount = a })
        ≡ ok (a, no_usage)
  unfolding expected_budget
  expected-reconcile s m a e v w = rw (nought_add a w, e, subtract_usage_self laws reject m v)

  expected-charge :
      (s : ReplayState F) (m : BudgetUsage F)
      → is_valid_usage m ≡ true
      → expected_budget s
          (record { kind = charge; used_before = no_usage; reserved_before = m; amount = m })
        ≡ ok (m, no_usage)
  unfolding expected_budget
  expected-charge s m v = rw (nought_add m v)

  unchanged-same :
      (c c' : Cursor F) (r : Snapshotted c c') → c.pending_budget ≡ none → SameAccounts c c'
  unchanged-same c c' r settled =
      let (used_eq, reserved_eq) =
        check-unchanged c.state r.used r.reserved (rw settled at r.checked) in
      record {
        pending = ground (arith, r.result);
        request = ground (arith, r.result);
        maximum = ground (arith, r.result);
        used = ground (arith, r.result, used_eq);
        reserved = ground (arith, r.result, reserved_eq);
      }

  pub Snapshotted-Balance : (c c' : Cursor F) → Snapshotted c c' → Balance c → Balance c'
  Snapshotted-Balance c c' r (reserving m v a b d e f) =
      let (used_eq, reserved_eq) =
        check-expected c.state _ r.used r.reserved _ _ (expected-reserve c.state m v)
          (rw b at r.checked) in
      outstanding m v (ground (arith, r.result)) (ground (arith, r.result))
        (ground (arith, r.result)) (ground (arith, r.result, used_eq))
        (ground (arith, r.result, reserved_eq))
  Snapshotted-Balance c c' r (reconciling m u v w l a b d e f) =
      let (used_eq, reserved_eq) =
        check-expected c.state _ r.used r.reserved _ _ (expected-reconcile c.state m u d v w)
          (rw b at r.checked) in
      spent m v (ground (arith, r.result, used_eq)) (ground (arith, r.result))
        (ground (arith, r.result)) (ground (arith, r.result))
        (ground (arith, r.result, reserved_eq))
  Snapshotted-Balance c c' r (charging m v a b d e f) =
      let (used_eq, reserved_eq) =
        check-expected c.state _ r.used r.reserved _ _ (expected-charge c.state m v)
          (rw b at r.checked) in
      charged m v (ground (arith, r.result)) (ground (arith, r.result)) (ground (arith, r.result))
        (ground (arith, r.result, used_eq)) (ground (arith, r.result, reserved_eq))
  Snapshotted-Balance c c' r (idle a b d e f) =
      Balance-same (unchanged-same c c' r b) (idle a b d e f)
  Snapshotted-Balance c c' r (outstanding m v a b d e f) =
      Balance-same (unchanged-same c c' r b) (outstanding m v a b d e f)
  Snapshotted-Balance c c' r (spent m v l a b d f) =
      Balance-same (unchanged-same c c' r b) (spent m v l a b d f)
  Snapshotted-Balance c c' r (charged m v a b d e f) =
      Balance-same (unchanged-same c c' r b) (charged m v a b d e f)
