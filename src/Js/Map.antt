-- ===== src/Js/Map.antt =====
-- `Map` and `Set` of JavaScript: entries in the order of insertion, a key once. A write to a key
-- that is present keeps its place.
pub mod Laws
pub mod Spread
use telemetryhub.Common.{
  Bool, true, false, ◌||◌, not, List, [], ◌∷◌, ◌++◌, map, Option, none, some, Eq, ◌==◌,
  if◌then◌else◌, filter,
}

abbrev pub is_some {ℓ} : {A : Type ℓ} → Option A → Bool
is_some none = false
is_some (some a) = true

module _ {ℓ κ} {K : Type ℓ} {V : Type κ} ⦃e : Eq K⦄ where
  -- `map.get(key)`
  unfoldable pub get : K → List (K × V) → Option V
  get k [] = none
  get k ((j, v) ∷ m) = if j == k then some v else get k m

  -- `map.set(key, value)`
  unfoldable pub put : K → V → List (K × V) → List (K × V)
  put k v [] = (k, v) ∷ []
  put k v ((j, w) ∷ m) = if j == k then (j, v) ∷ m else (j, w) ∷ put k v m

  -- `Array.from(map.keys())`
  unfoldable pub keys : List (K × V) → List K
  keys = map (λ p. p.0)

  -- `Array.from(map.values())`
  unfoldable pub vals : List (K × V) → List V
  vals = map (λ p. p.1)

  -- `map.has(key)`
  unfoldable pub has_key : K → List (K × V) → Bool
  unfolding get
  has_key k m = is_some (get k m)

module _ {ℓ} {A : Type ℓ} ⦃e : Eq A⦄ where
  -- `array.includes(a)`, and `set.has(a)`
  unfoldable pub includes : List A → A → Bool
  includes [] a = false
  includes (x ∷ xs) a = x == a || includes xs a

  -- `set.add(a)`
  unfoldable pub add : A → List A → List A
  unfolding includes
  add a xs = if includes xs a then xs else xs ++ a ∷ []

  -- `set.delete(a)`
  unfoldable pub remove : A → List A → List A
  unfolding filter
  remove a = filter (λ x. not (x == a))

  -- `new Set(array)`
  unfoldable pub of_list_from : List A → List A → List A
  unfolding add
  of_list_from s [] = s
  of_list_from s (x ∷ xs) = of_list_from (add x s) xs

  unfoldable pub of_list : List A → List A
  unfolding of_list_from
  of_list = of_list_from []
