-- ===== src/Reorder.antt =====
-- Moving an entry of a list one place up or down, as `handleMoveGroup`, `moveGroup` and
-- `moveSubGroup` do: find it, look at its neighbour, exchange the two in a copy.
pub mod Laws
use telemetryhub.Common.{
  ℕ, zero, suc, List, [], ◌∷◌, Option, none, some, Bool, length, get_elem?, set, ltb, if◌then◌else◌,
}

-- `direction: -1 | 1`
pub data Direction : Type 0 where
  up down : Direction

module _ {ℓ} {A : Type ℓ} where
  -- `xs.findIndex(p)`, counted from i; -1 is `none`
  unfoldable pub find_from : (A → Bool) → ℕ → List A → Option ℕ
  find_from p i [] = none
  find_from p i (x ∷ xs) = if p x then some i else find_from p (suc i) xs

  unfoldable pub find_index : (A → Bool) → List A → Option ℕ
  unfolding find_from
  find_index p = find_from p 0

  -- `[xs[i], xs[j]] = [xs[j], xs[i]]`, for indices in range
  unfoldable pub swap : ℕ → ℕ → List A → List A
  swap i j xs = elim (get_elem? xs i) [
    | none ↦ xs
    | some x ↦ elim (get_elem? xs j) [ none ↦ xs | some y ↦ set (set xs i y) j x ]
  ]

-- `idx + direction`, unless that is below 0 or not below the length
unfoldable pub target : Direction → ℕ → ℕ → Option ℕ
target up zero n = none
target up (suc i) n = if ltb i n then some i else none
target down i n = if ltb (suc i) n then some (suc i) else none

module _ {ℓ} {A : Type ℓ} where
  -- The reordered copy; `none` where the handler returns early.
  unfoldable pub move : (A → Bool) → Direction → List A → Option (List A)
  move p d xs = elim (find_index p xs) [
    | none ↦ none
    | some i ↦ elim (target d i (length xs)) [ none ↦ none | some j ↦ some (swap i j xs) ]
  ]
