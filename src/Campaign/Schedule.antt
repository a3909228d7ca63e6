-- ===== src/Campaign/Schedule.antt =====
-- The schedule of a valid manifest is the full factorial of its fixtures and rounds.
use guildmind.Common.{
  ℕ, zero, suc, ◌+◌, ◌*◌, String, List, [], ◌∷◌, ◌++◌, map, length, length-append, contains, Bool,
  true, ◌&&◌, ◌||◌, ◌≡◌, refl, sym, ap, ◌∙◌, arith, eqb, eqb_iff, eq_iff, ltb, leb, ok,
  require-eq-ok,
}
use guildmind.Domain.Event.{all_distinct}
use guildmind.Store.Tables.{any}
use guildmind.Audit.Order.{is_sorted_set, same_list}
use guildmind.Campaign.Manifest.{
  ReliabilityCampaignManifest, ReliabilityCampaignAttempt, ReliabilityCampaignFixture,
  validate_campaign, same_binding, round_bindings, bindings_from, expected_bindings,
  observed_bindings, fixture_ids,
}

same_list-eq : (xs ys : List (String × ℕ)) → same_list same_binding xs ys ≡ true → xs ≡ ys
same_list-eq [] [] h = refl
same_list-eq [] (y ∷ ys) h = absurd (cc h)
same_list-eq (x ∷ xs) [] h = absurd (cc h)
same_list-eq ((a, m) ∷ xs) ((b, n) ∷ ys) h =
    let rest = same_list-eq xs ys (ground arith) in
    let key = (eq_iff a b).0 (ground arith) in let number = (eqb_iff m n).0 (ground arith) in cc

-- `(id, round_index)` is scheduled.
abbrev pub is_scheduled : String → ℕ → List (String × ℕ) → Bool
is_scheduled id r = any (λ b. same_binding b (id, r))

is_scheduled-append :
    (id : String) (r : ℕ) (xs ys : List (String × ℕ))
    → is_scheduled id r (xs ++ ys) ≡ (is_scheduled id r xs || is_scheduled id r ys)
is_scheduled-append id r [] ys = refl
is_scheduled-append id r (x ∷ xs) ys = let rest = is_scheduled-append id r xs ys in ground arith

is_scheduled-round :
    (id : String) (r start : ℕ) (ids : List String)
    → is_scheduled id r (round_bindings start ids) ≡ (contains id ids && eqb start r)
is_scheduled-round id r start [] = refl
is_scheduled-round id r start (x ∷ xs) = let rest = is_scheduled-round id r start xs in ground arith

is_scheduled-rounds :
    (id : String) (r start count : ℕ) (ids : List String)
    → is_scheduled id r (bindings_from start count ids)
      ≡ (contains id ids && (leb start r && ltb r (start + count)))
is_scheduled-rounds id r start zero ids = ground arith
is_scheduled-rounds id r start (suc count) ids =
    let both =
      is_scheduled-append id r (round_bindings start ids) (bindings_from (suc start) count ids) in
    let first = is_scheduled-round id r start ids in
    let rest = is_scheduled-rounds id r (suc start) count ids in ground arith

length-round : (start : ℕ) (ids : List String) → length (round_bindings start ids) ≡ length ids
length-round start [] = refl
length-round start (x ∷ xs) = omega (arith, length-round start xs)

length-rounds :
    (start count : ℕ) (ids : List String)
    → length (bindings_from start count ids) ≡ count * length ids
length-rounds start zero ids = omega arith
length-rounds start (suc count) ids =
    let both = length-append (round_bindings start ids) (bindings_from (suc start) count ids) in
    let first = length-round start ids in
    let rest = length-rounds (suc start) count ids in ground arith

pub length-map : {A B : Type 0} (f : A → B) (xs : List A) → length (map f xs) ≡ length xs
length-map f [] = refl
length-map f (x ∷ xs) = omega (arith, length-map f xs)

module _ {F : Type 0} (before : String → String → Bool) where
  validate_campaign-bindings :
      (m m' : ReliabilityCampaignManifest F)
      → validate_campaign before m ≡ ok m'
      → observed_bindings m.attempts ≡ expected_bindings m.rounds (fixture_ids m.fixtures)
  unfolding validate_campaign
  validate_campaign-bindings m m' h =
      let (_, h1) = require-eq-ok (is_sorted_set before (fixture_ids m.fixtures)) _ _ h in
      let (_, h2) =
        require-eq-ok
          (all_distinct (map (λ (f : ReliabilityCampaignFixture). f.fixture_path) m.fixtures)) _ _
          h1 in
      let (_, h3) =
        require-eq-ok
          (all_distinct (map (λ (a : ReliabilityCampaignAttempt). a.attempt_id) m.attempts)) _ _
          h2 in
      let (same, _) =
        require-eq-ok
          (same_list same_binding (observed_bindings m.attempts)
            (expected_bindings m.rounds (fixture_ids m.fixtures)))
          _ _ h3 in
      same_list-eq _ _ same

  -- In a manifest that passes its validator, a fixture is scheduled in a round exactly if the manifest
  -- declares the fixture and the round is below the number of rounds.
  pub validate_campaign-schedule :
      (m m' : ReliabilityCampaignManifest F) (id : String) (r : ℕ)
      → validate_campaign before m ≡ ok m'
      → is_scheduled id r (observed_bindings m.attempts)
        ≡ (contains id (fixture_ids m.fixtures) && ltb r m.rounds)
  validate_campaign-schedule m m' id r h =
      let same = ap (is_scheduled id r) (validate_campaign-bindings m m' h) in
      let full = is_scheduled-rounds id r 0 m.rounds (fixture_ids m.fixtures) in ground arith

  -- A manifest that passes its validator has as many attempts as it has pairs of a round and a fixture.
  pub validate_campaign-length :
      (m m' : ReliabilityCampaignManifest F)
      → validate_campaign before m ≡ ok m'
      → length m.attempts ≡ m.rounds * length m.fixtures
  validate_campaign-length m m' h =
      sym
        (length-map (λ (a : ReliabilityCampaignAttempt). (a.fixture_id, a.round_index)) m.attempts)
      ∙ ap length (validate_campaign-bindings m m' h)
      ∙ length-rounds 0 m.rounds (fixture_ids m.fixtures)
      ∙ ap (λ n. m.rounds * n)
          (length-map (λ (f : ReliabilityCampaignFixture). f.fixture_id) m.fixtures)
