-- ===== src/DeviceSection/Buttons.antt =====
-- The buttons that move a group, against what moving does.
use telemetryhub.Common.{
  ℕ, zero, suc, ◌+◌, List, none, some, Bool, true, false, ◌≡◌, length, arith, ◌↔◌,
}
use telemetryhub.Reorder.{up, down, find_index, target, move}
use telemetryhub.Reorder.Laws.{find_index_lt}
use telemetryhub.DeviceSection.{up_disabled, down_disabled}

module _ {A : Type 0} where
  -- For the first entry that satisfies a test, at its place, the button to move it up is disabled
  -- exactly if moving it up does nothing.
  pub up_disabled_lem :
      (p : A → Bool) (xs : List A) (i : ℕ)
      → find_index p xs ≡ some i
      → (up_disabled i ≡ true) ↔ (move p up xs ≡ none)
  unfolding move target up_disabled
  up_disabled_lem p xs zero h = (λ d. ground arith, λ m. ground arith)
  up_disabled_lem p xs (suc i) h =
      let lt = find_index_lt p xs (suc i) h in
      (λ d. absurd (ground arith), λ m. absurd (ground arith))

  -- For the first entry that satisfies a test, at its place, the button to move it down is
  -- disabled exactly if moving it down does nothing, when as many sections are shown as there are
  -- groups.
  pub down_disabled_lem :
      (p : A → Bool) (xs : List A) (i : ℕ)
      → find_index p xs ≡ some i
      → (down_disabled i (length xs) ≡ true) ↔ (move p down xs ≡ none)
  unfolding move target down_disabled
  down_disabled_lem p xs i h = (λ d. ground arith, λ m. ground arith)

  -- When one section more than the groups is shown, that of the devices without a group, the
  -- button to move the last group down is enabled though moving it down does nothing.
  pub last_down_enabled :
      (p : A → Bool) (xs : List A) (i : ℕ)
      → find_index p xs ≡ some i
      → suc i ≡ length xs
      → (down_disabled i (length xs + 1) ≡ false) × (move p down xs ≡ none)
  unfolding move target down_disabled
  last_down_enabled p xs i h last = (ground arith, ground arith)
