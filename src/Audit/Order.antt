-- ===== src/Audit/Order.antt =====
-- Python's comparison of tuples, and `tuple(sorted(set(xs), key=…))`.
use guildmind.Common.{
  ℕ, String, List, [], ◌∷◌, Bool, true, false, not, ◌&&◌, ltb, ◌==◌, if◌then◌else◌, Option, none,
  some,
}
use guildmind.Store.Tables.{order_by, any}

pub data Order : Type 0 where
  less same greater : Order

abbrev pub is_less : Order → Bool
is_less less = true
is_less _ = false

-- The first component that differs decides.
infixr 5 ◌then_by◌
abbrev pub ◌then_by◌ : Order → Order → Order
same then_by next = next
decided then_by next = decided

abbrev pub compare_number : ℕ → ℕ → Order
compare_number a b = if ltb a b then less else if ltb b a then greater else same

-- `-1 if value is None else value`
abbrev pub compare_optional_number : Option ℕ → Option ℕ → Order
compare_optional_number none none = same
compare_optional_number none (some b) = less
compare_optional_number (some a) none = greater
compare_optional_number (some a) (some b) = compare_number a b

-- For the order `before` of texts.
module _ (before : String → String → Bool) where
  abbrev pub compare_text : String → String → Order
  compare_text a b = if before a b then less else if before b a then greater else same

  -- `value or ""`
  abbrev pub compare_optional_text : Option String → Option String → Order
  compare_optional_text none none = same
  compare_optional_text none (some b) = compare_text "" b
  compare_optional_text (some a) none = compare_text a ""
  compare_optional_text (some a) (some b) = compare_text a b

module _ {ℓ} {A : Type ℓ} where
  abbrev pub compare_list : (A → A → Order) → List A → List A → Order
  compare_list compare_item [] [] = same
  compare_list compare_item [] (y ∷ ys) = less
  compare_list compare_item (x ∷ xs) [] = greater
  compare_list compare_item (x ∷ xs) (y ∷ ys) =
      compare_item x y then_by compare_list compare_item xs ys

  -- `xs == ys` on tuples
  abbrev pub same_list : (A → A → Bool) → List A → List A → Bool
  same_list same_item [] [] = true
  same_list same_item (x ∷ xs) (y ∷ ys) = same_item x y && same_list same_item xs ys
  same_list same_item _ _ = false

  -- The members of `set(xs)`.
  abbrev pub unique : (A → A → Bool) → List A → List A
  unique same_item [] = []
  unique same_item (x ∷ xs) =
      let rest = unique same_item xs in if any (same_item x) rest then rest else x ∷ rest

  -- `xs == tuple(sorted(set(xs), key=…))`
  unfoldable pub is_canonical : (A → A → Bool) → (A → A → Order) → List A → Bool
  is_canonical same_item compare_item xs =
      same_list same_item xs (order_by (λ x y. is_less (compare_item x y)) (unique same_item xs))

abbrev pub same_texts : List String → List String → Bool
same_texts = same_list (λ a b. a == b)

unfoldable pub is_sorted_set : (String → String → Bool) → List String → Bool
unfolding is_canonical
is_sorted_set before = is_canonical (λ a b. a == b) (compare_text before)

abbrev pub same_optional : Option ℕ → Option ℕ → Bool
same_optional none none = true
same_optional (some a) (some b) = not (ltb a b) && not (ltb b a)
same_optional _ _ = false
