-- ===== src/Replay/Chain.antt =====
-- replay.py: `verify_event_chain`.
use guildmind.Common.{
  ℕ, suc, String, List, [], ◌∷◌, Bool, true, false, not, Option, none, some, is_some, Result, ok,
  require, ◌>>◌, ◌==◌, eqb, contains,
}
use guildmind.Domain.Event.{EventRecord, Canonical, content_hash}
use guildmind.Replay.Payload.{reject, is_text}

-- `parents == (parent,)`
abbrev pub is_only_parent : List String → String → Bool
is_only_parent (p ∷ []) parent = p == parent
is_only_parent _ parent = false

abbrev pub has_none : List String → Bool
has_none [] = true
has_none (x ∷ xs) = false

module _ {F : Type 0} ⦃cn : Canonical F⦄ where
  -- The tests against the event before.
  unfoldable pub check_link : Option (EventRecord F) → EventRecord F → Result (Unit {0})
  check_link none e = do
    require (not (is_some e.previous_event_hash)) (reject "first event has a predecessor")
    require (has_none e.causal_parent_ids) (reject "first event has a causal parent")
  check_link (some p) e = do
    require (is_text e.previous_event_hash (content_hash p)) (reject "broken hash chain")
    require (is_only_parent e.causal_parent_ids p.event_id) (reject "unexpected causal parents")

  -- The loop, at an expected sequence number, the event before and the IDs seen so far.
  unfoldable pub verify_from :
      ℕ → Option (EventRecord F) → List String → List (EventRecord F) → Result (Unit {0})
  verify_from n previous seen [] = ok tt
  verify_from n previous seen (e ∷ es) = do
    require (eqb e.sequence n) (reject "unexpected event sequence")
    require (not (contains e.event_id seen)) (reject "duplicate event ID")
    check_link previous e
    verify_from (suc n) (some e) (e.event_id ∷ seen) es

  unfoldable pub verify_event_chain : List (EventRecord F) → Result (Unit {0})
  unfolding verify_from check_link
  verify_event_chain events = verify_from 0 none [] events
