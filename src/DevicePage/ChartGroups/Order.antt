-- ===== src/DevicePage/ChartGroups/Order.antt =====
-- The charts stand in the order of the groups' numbers.
use telemetryhub.Common.{String, List, [], ◌∷◌, true, ◌≡◌, ◌≢◌, ◌⊎◌, All, arith}
use telemetryhub.Common.Int.{ℤ, ◌≤ℤ◌}
use telemetryhub.Js.Sort.{Sign, plus, sign_of, or_else}
use telemetryhub.Js.Sort.Laws.{IsSorted, sort-IsSorted}
use telemetryhub.Api.Types.{FieldRename}
use telemetryhub.DevicePage.ChartGroups.{
  ChartGroup, chart_groups, by_order, build_group, maps_from, no_maps, split_from, no_split,
}
use telemetryhub.Common.{map, string_eq}
use telemetryhub.Js.Map.{get}

-- Comparing by number and then by name.
abbrev order : (String → String → Sign) → ℤ → String → ℤ → String → Sign
order cmp m s n t = or_else (sign_of m n) (cmp s t)

module _ (locale_compare : String → String → Sign)
    (total : (s t : String) → locale_compare s t ≡ plus → locale_compare t s ≢ plus)
    (trans : (s t u : String)
      → locale_compare s t ≢ plus
      → locale_compare t u ≢ plus
      → locale_compare s u ≢ plus) where
  order_total :
      (m n : ℤ) (s t : String)
      → order locale_compare m s n t ≡ plus
      → order locale_compare n t m s ≢ plus
  unfolding sign_of
  order_total m n s t h = ground (arith, total s t)

  order_trans :
      (m n o : ℤ) (s t u : String)
      → order locale_compare m s n t ≢ plus
      → order locale_compare n t o u ≢ plus
      → order locale_compare m s o u ≢ plus
  unfolding sign_of
  order_trans m n o s t u h k = ground (arith, trans s t u)

  -- A group may stand before another one: its number is not greater, and with the same number its name is not
  -- the later one.
  abbrev pub MayPrecede : ChartGroup → ChartGroup → Type 0
  MayPrecede x y =
      (x.sort_order ≤ℤ y.sort_order)
      × ((x.sort_order ≢ y.sort_order) ⊎ (locale_compare x.group_name y.group_name ≢ plus))

  -- Every group may stand before all that stand after it.
  abbrev pub InOrder : List ChartGroup → Type 0
  InOrder [] = Unit
  InOrder (x ∷ xs) = All (MayPrecede x) xs × InOrder xs

  by_order-MayPrecede : (x y : ChartGroup) → by_order locale_compare x y ≢ plus → MayPrecede x y
  unfolding sign_of
  by_order-MayPrecede x y h = ground arith

  All-MayPrecede :
      (x : ChartGroup) (xs : List ChartGroup)
      → All (λ y. by_order locale_compare x y ≢ plus) xs
      → All (MayPrecede x) xs
  All-MayPrecede x [] h = tt
  All-MayPrecede x (y ∷ xs) (h, hs) = (by_order-MayPrecede x y h, All-MayPrecede x xs hs)

  IsSorted-InOrder : (xs : List ChartGroup) → IsSorted (by_order locale_compare) xs → InOrder xs
  IsSorted-InOrder [] h = tt
  IsSorted-InOrder (x ∷ xs) (h, hs) = (All-MayPrecede x xs h, IsSorted-InOrder xs hs)

  chart_groups-IsSorted :
      (selected : List String) (renames : List FieldRename)
      → IsSorted
          (by_order locale_compare)
          (chart_groups locale_compare true selected renames).groups
  unfolding chart_groups
  chart_groups-IsSorted selected renames =
      let m = maps_from no_maps renames in
      let p = split_from (λ f. get f m.field_group) no_split selected in
      sort-IsSorted (by_order locale_compare)
        (λ x y. order_total x.sort_order y.sort_order x.group_name y.group_name)
        (λ x y z.
          order_trans x.sort_order y.sort_order z.sort_order x.group_name y.group_name z.group_name)
        (map (build_group locale_compare m) p.named)

  -- With a comparison of names that is total and transitive, no group of charts stands after one of a
  -- greater number, or of the same number and a later name.
  pub chart_groups-InOrder :
      (selected : List String) (renames : List FieldRename)
      → InOrder (chart_groups locale_compare true selected renames).groups
  chart_groups-InOrder selected renames =
      IsSorted-InOrder _ (chart_groups-IsSorted selected renames)
