-- ===== src/DevicePage/ChartGroups.antt =====
-- `chartGroups`: how the selected fields are put on charts, by group and sub-group.
pub mod Partition
pub mod Order
use telemetryhub.Common.{
  String, List, [], ◌∷◌, ◌++◌, map, Option, none, some, Bool, true, false, if◌then◌else◌, string_eq,
}
use telemetryhub.Common.Int.{ℤ, pos}
use telemetryhub.Js.Map.{get, put}
use telemetryhub.Js.Sort.{Sign, sign_of, or_else, sort}
use telemetryhub.Js.Text.{trimmed, missing_or, or_undefined}
use telemetryhub.Api.Types.{FieldRename}

-- The maps that the first loop fills.
pub record Maps : Type 0 where
  pub field_group : List (String × String)
  pub field_sub_group : List (String × String)
  pub group_desc : List (String × String)
  pub sub_group_desc : List (String × String)
  pub group_sort : List (String × ℤ)
  pub sub_group_sort : List (String × ℤ)

abbrev pub no_maps : Maps
no_maps = record {
  field_group = [];
  field_sub_group = [];
  group_desc = [];
  sub_group_desc = [];
  group_sort = [];
  sub_group_sort = [];
}

-- `if (k && v) m.set(k, v)`
abbrev pub put_both {ℓ} :
    {V : Type ℓ} → Option String → Option V → List (String × V) → List (String × V)
put_both none v m = m
put_both (some k) none m = m
put_both (some k) (some v) m = put k v m

-- one round of the first loop
unfoldable pub add_rename : Maps → FieldRename → Maps
add_rename m r =
    let g = trimmed r.chart_group in
    let s = trimmed r.sub_group in
    record {
      field_group = put_both (some r.raw_field) g m.field_group;
      field_sub_group = put_both (some r.raw_field) s m.field_sub_group;
      group_desc = put_both g (trimmed r.group_description) m.group_desc;
      sub_group_desc = put_both s (trimmed r.sub_group_description) m.sub_group_desc;
      group_sort = put_both g r.group_sort_order m.group_sort;
      sub_group_sort = put_both s r.sub_group_sort_order m.sub_group_sort;
    }

unfoldable pub maps_from : Maps → List FieldRename → Maps
maps_from m [] = m
maps_from m (r ∷ rs) = maps_from (add_rename m r) rs

-- The fields under each name that a test gives them, and the others.
pub record Split : Type 0 where
  pub named : List (String × List String)
  pub others : List String

-- a name that is there and is not empty
abbrev pub truthy : Option String → Option String
truthy none = none
truthy (some s) = or_undefined s

module _ (name_of : String → Option String) where
  -- one round of the second loop, and of the one inside the third
  unfoldable pub add_to : Split → String → Split
  add_to p field = elim (truthy (name_of field)) [
    | none ↦ record p { others = p.others ++ field ∷ [] }
    | some name ↦ elim (get name p.named) [
      | none ↦ record p { named = put name (field ∷ []) p.named }
      | some existing ↦ record p { named = put name (existing ++ field ∷ []) p.named }
    ]
  ]

  unfoldable pub split_from : Split → List String → Split
  split_from p [] = p
  split_from p (f ∷ fs) = split_from (add_to p f) fs

abbrev pub no_split : Split
no_split = record { named = []; others = [] }

pub record SubGroup : Type 0 where
  pub sub_group_name : String
  pub fields : List String
  pub description : Option String
  pub sort_order : ℤ

pub record ChartGroup : Type 0 where
  pub group_name : String
  pub sub_groups : List SubGroup
  pub solo_fields : List String
  pub description : Option String
  pub sort_order : ℤ

pub record ChartGroups : Type 0 where
  pub groups : List ChartGroup
  pub ungrouped : List String

abbrev pub sub_group : Maps → String × List String → SubGroup
sub_group m entry = record {
  sub_group_name = entry.0;
  fields = entry.1;
  description = truthy (get entry.0 m.sub_group_desc);
  sort_order = missing_or (get entry.0 m.sub_group_sort) (pos 0);
}

-- `locale_compare` is the engine's `localeCompare`.
module _ (locale_compare : String → String → Sign) where
  abbrev pub by_sub_order : SubGroup → SubGroup → Sign
  by_sub_order a b =
      or_else (sign_of a.sort_order b.sort_order) (locale_compare a.sub_group_name b.sub_group_name)

  abbrev pub by_order : ChartGroup → ChartGroup → Sign
  by_order a b =
      or_else (sign_of a.sort_order b.sort_order) (locale_compare a.group_name b.group_name)

  -- one group object of the third loop
  unfoldable pub build_group : Maps → String × List String → ChartGroup
  build_group m entry =
      let p = split_from (λ f. get f m.field_sub_group) no_split entry.1 in
      record {
        group_name = entry.0;
        sub_groups = sort by_sub_order (map (sub_group m) p.named);
        solo_fields = p.others;
        description = truthy (get entry.0 m.group_desc);
        sort_order = missing_or (get entry.0 m.group_sort) (pos 0);
      }

  unfoldable pub chart_groups : Bool → List String → List FieldRename → ChartGroups
  chart_groups hydrated selected renames =
      let m = maps_from no_maps renames in
      let p = split_from (λ f. get f m.field_group) no_split selected in
      if hydrated
      then record { groups = sort by_order (map (build_group m) p.named); ungrouped = p.others }
      else record { groups = []; ungrouped = [] }
