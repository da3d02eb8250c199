-- ===== src/DevicePage/ChartGroups/Partition.antt =====
-- Every selected field is on a chart, once.
use mathlib.Core.List.Perm
use mathlib.Core.List.{Perm, append-nil, perm_append_singleton}
use telemetryhub.Common.{
  String, List, [], ◌∷◌, ◌++◌, map, Option, true, ◌≡◌, refl, ap, Option-cases, inl, inr, string_eq,
}
use telemetryhub.Common.Perms.{
  flat_map, flat_map-perm, perm_shift, flat_map-perm_each, flat_map-map,
}
use telemetryhub.Js.Map.{get}
use telemetryhub.Js.Map.Spread.{spread, spread-put_new, spread-put_old}
use telemetryhub.Js.Sort.{Sign}
use telemetryhub.Js.Sort.Laws.{sort-perm}
use telemetryhub.Api.Types.{FieldRename}
use telemetryhub.DevicePage.ChartGroups.{
  Maps, Split, truthy, add_to, split_from, no_split, no_maps, maps_from, SubGroup, ChartGroup,
  sub_group, build_group, chart_groups, by_order, by_sub_order,
}

abbrev same : List String → List String
same fs = fs

abbrev content : Split → List String
content p = spread same p.named ++ p.others

module _ (name_of : String → Option String) where
  add_to-perm : (p : Split) (f : String) → Perm (content (add_to name_of p f)) (f ∷ content p)
  unfolding add_to
  add_to-perm p f = elim (Option-cases (truthy (name_of f))) [
    | inl free ↦
        rw (free, add_to) (perm_shift f (spread same p.named) (perm_append_singleton f p.others))
    | inr (name, owned) ↦ elim (Option-cases (get name p.named)) [
      | inl new ↦
          rw (owned, add_to, new)
            (Perm.append_right p.others (spread-put_new same name (f ∷ []) p.named new))
      | inr (fs, old) ↦
          rw (owned, add_to, old)
            (Perm.append_right p.others (
              spread-put_old same name (fs ++ f ∷ []) fs f p.named old
                (perm_append_singleton f fs)))
    ]
  ]

  split_from-perm :
      (p : Split) (fs : List String) → Perm (content (split_from name_of p fs)) (fs ++ content p)
  unfolding split_from
  split_from-perm p [] = Perm.refl (content p)
  split_from-perm p (f ∷ fs) =
      Perm.trans (split_from-perm (add_to name_of p f) fs) (perm_shift f fs (add_to-perm p f))

  -- Splitting a list loses no field and doubles none.
  split-perm : (fs : List String) → Perm (content (split_from name_of no_split fs)) fs
  split-perm fs = rw append-nil at (split_from-perm no_split fs)

abbrev pub sub_group_fields : SubGroup → List String
sub_group_fields s = s.fields

-- The fields on the charts of a group.
abbrev pub group_fields : ChartGroup → List String
group_fields g = flat_map sub_group_fields g.sub_groups ++ g.solo_fields

spread-flat_map : (m : List (String × List String)) → spread same m ≡ flat_map (λ e. e.1) m
spread-flat_map [] = refl
spread-flat_map ((k, fs) ∷ m) = ap (◌++◌ fs) (spread-flat_map m)

module _ (locale_compare : String → String → Sign) where
  build_group-perm :
      (m : Maps) (entry : String × List String)
      → Perm (group_fields (build_group locale_compare m entry)) entry.1
  unfolding build_group
  build_group-perm m entry =
      let p = split_from (λ f. get f m.field_sub_group) no_split entry.1 in
      Perm.trans
        (Perm.append_right p.others (
          rw (← spread-flat_map p.named) at (
            rw flat_map-map at (
              flat_map-perm sub_group_fields
                (sort-perm (by_sub_order locale_compare) (map (sub_group m) p.named))))))
        (split-perm (λ f. get f m.field_sub_group) entry.1)

  -- Once the stored selection is read, each selected field is on exactly one chart: in one sub-group
  -- of one group, alone in one group, or without a group.
  pub chart_groups-perm :
      (selected : List String) (renames : List FieldRename)
      → let c = chart_groups locale_compare true selected renames in
        Perm (flat_map group_fields c.groups ++ c.ungrouped) selected
  unfolding chart_groups
  chart_groups-perm selected renames =
      let m = maps_from no_maps renames in
      let p = split_from (λ f. get f m.field_group) no_split selected in
      let arranged =
        flat_map-perm group_fields
          (sort-perm (by_order locale_compare) (map (build_group locale_compare m) p.named)) in
      let each =
        flat_map-perm_each (λ e. group_fields (build_group locale_compare m e)) (λ e. e.1)
          (build_group-perm m) p.named in
      Perm.trans
        (Perm.append_right p.others (Perm.trans arranged (rw (flat_map-map, spread-flat_map) each)))
        (split-perm (λ f. get f m.field_group) selected)
