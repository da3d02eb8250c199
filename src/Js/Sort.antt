-- ===== src/Js/Sort.antt =====
-- `Array.prototype.sort`: stable, by the sign of a comparison function.
pub mod Laws
use telemetryhub.Common.{List, [], ◌∷◌}
use telemetryhub.Common.Int.{ℤ, ltb_ℤ}
use telemetryhub.Common.{if◌then◌else◌}

-- The sign of what a comparison function returns.
pub data Sign : Type 0 where
  minus nought plus : Sign

-- The sign of `a - b`.
unfoldable pub sign_of : ℤ → ℤ → Sign
sign_of a b = if ltb_ℤ a b then minus else if ltb_ℤ b a then plus else nought

-- `x || y` on numbers
abbrev pub or_else : Sign → Sign → Sign
or_else nought s = s
or_else s _ = s

module _ {ℓ} {A : Type ℓ} (cmp : A → A → Sign) where
  -- The sorted array is the only stable one, so insertion stands for the engine's algorithm.
  unfoldable pub place : A → List A → List A
  place x [] = x ∷ []
  place x (y ∷ ys) = elim (cmp x y) [ plus ↦ y ∷ place x ys | _ ↦ x ∷ y ∷ ys ]

  unfoldable pub sort : List A → List A
  unfolding place
  sort [] = []
  sort (x ∷ xs) = place x (sort xs)
