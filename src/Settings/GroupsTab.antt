-- ===== src/Settings/GroupsTab.antt =====
-- `GroupsTab`: the order, the descriptions and the sub-groups of the groups.
pub mod Requests
pub mod Server
pub mod View
pub mod Controls
pub mod Deleting
pub mod SubOrder
use telemetryhub.Common.{
  ℕ, zero, suc, String, List, [], ◌∷◌, ◌++◌, Option, none, some, Bool, true, false, not, ◌&&◌, ◌||◌,
  filter, length, ltb, if◌then◌else◌, ◌==◌, string_eq, map,
}
use telemetryhub.Common.Int.{ℤ, pos, negsuc, ltb_ℤ, ◌+ℤ◌}
use telemetryhub.Js.Map.{get, put, has_key, includes, add, remove}
use telemetryhub.Js.Sort.{Sign, minus, nought, plus, sort}
use telemetryhub.Js.Text.{text, trim, is_empty, or_undefined, units, decimal, or_else_text}
use telemetryhub.Api.Types.{FieldRename}
use telemetryhub.Api.Calls.{Call}
use telemetryhub.Handler.{
  M, pure, ◌>>=◌, ◌>>◌, modify, emit, confirm, call, call_all, try_catch, finally, only_if, alerted,
  changed_renames,
}
use telemetryhub.Reorder.{Direction, move}
use telemetryhub.DevicePage.State.{find_rename, property}
use telemetryhub.Settings.Context.{
  GroupInfo, SubInfo, GroupContext, Sibling, siblings, sub_key, is_sibling,
}

pub record Tab : Type 0 where
  pub new_sub_group_inputs : List (String × String)
  pub new_group_name : String
  pub extra_groups : List String
  pub is_deleting_group : Option String

abbrev pub start : Tab
start = record {
  new_sub_group_inputs = [];
  new_group_name = "";
  extra_groups = [];
  is_deleting_group = none;
}

-- The order of `sort()`: by the units of UTF-16.
unfoldable pub compare_units : List ℕ → List ℕ → Sign
compare_units [] [] = nought
compare_units [] (b ∷ bs) = minus
compare_units (a ∷ as') [] = plus
compare_units (a ∷ as') (b ∷ bs) =
    let rest = compare_units as' bs in if ltb a b then minus else if ltb b a then plus else rest

-- `displayGroups`
unfoldable pub display_groups : List String → List String → List String
display_groups all_groups extra_groups =
    all_groups
    ++ sort (λ a b. compare_units (units a) (units b))
        (filter (λ g. not (includes all_groups g)) extra_groups)

-- `existing?.description || undefined`
abbrev pub description_of : Option GroupInfo → Option String
description_of none = none
description_of (some e) = or_undefined e.description

abbrev pub sub_description_of : Option SubInfo → Option String
sub_description_of none = none
sub_description_of (some e) = or_undefined e.description

-- The loop of `maxOrder`.
unfoldable pub max_order_from : String → ℤ → List (String × SubInfo) → ℤ
max_order_from group_name m [] = m
max_order_from group_name m ((k, v) ∷ rest) =
    max_order_from group_name
      (if is_sibling group_name k && ltb_ℤ m v.sort_order then v.sort_order else m) rest

unfoldable pub handle_create_group : List String → Tab → String → M Tab (Unit {0})
handle_create_group all_groups seen name =
    let trimmed = trim name in
    if is_empty trimmed
    then pure tt
    else if includes all_groups trimmed || includes seen.extra_groups trimmed
    then emit (alerted "Group already exists")
    else modify (λ s. record s { extra_groups = add trimmed s.extra_groups; new_group_name = "" })

-- `rename?.unit`
abbrev unit_of : Option FieldRename → Option String
unit_of none = none
unit_of (some r) = r.unit

abbrev pub delete_question : String → List String → String
delete_question group_name fields = text (
    "Remove group \""
    ∷ group_name
    ∷ "\" from "
    ∷ decimal (length fields)
    ∷ " sensor(s)? The sensors will become ungrouped."
    ∷ [])

module _ (device_id : String) (c : GroupContext) where
  -- The calls that number the groups, from i.
  unfoldable pub number_groups : ℕ → List String → List Call
  number_groups i [] = []
  number_groups i (name ∷ names) =
      Call.update_group_config device_id name (description_of (get name c.groups)) (some (pos i))
      ∷ number_groups (suc i) names

  unfoldable pub move_group : List String → String → Direction → M Tab (Unit {0})
  move_group display group_name direction = elim (move (λ g. g == group_name) direction display) [
    | none ↦ pure tt
    | some reordered ↦
        try_catch (do call_all (number_groups 0 reordered); emit changed_renames)
          (λ e. emit (alerted "Failed to reorder groups"))
  ]

  unfoldable pub number_sub_groups : String → ℕ → List Sibling → List Call
  number_sub_groups group_name i [] = []
  number_sub_groups group_name i (s ∷ ss) =
      Call.update_sub_group_config device_id group_name s.name
        (sub_description_of (get (sub_key group_name s.name) c.sub_groups)) (some (pos i))
      ∷ number_sub_groups group_name (suc i) ss

  unfoldable pub move_sub_group : String → String → Direction → M Tab (Unit {0})
  move_sub_group group_name name direction =
      elim (move (λ (s : Sibling). s.key == sub_key group_name name) direction
        (siblings c group_name)) [
          | none ↦ pure tt
          | some reordered ↦
              try_catch
                (do call_all (number_sub_groups group_name 0 reordered); emit changed_renames)
                (λ e. emit (alerted "Failed to reorder subgroups"))
        ]

  unfoldable pub handle_add_sub_group : String → String → M Tab (Unit {0})
  handle_add_sub_group group_name sub_group_name =
      let name = trim sub_group_name in
      let max_order = max_order_from group_name (negsuc 0) c.sub_groups in
      if is_empty name
      then pure tt
      else if has_key (sub_key group_name name) c.sub_groups
      then emit (alerted "Subgroup already exists")
      else try_catch
          (do
            call (
                Call.update_sub_group_config device_id group_name name none
                  (some (max_order +ℤ pos 1)))
            modify
                (λ s. record s { new_sub_group_inputs = put group_name "" s.new_sub_group_inputs })
            emit changed_renames)
          (λ e. emit (alerted "Failed to add subgroup"))

  -- Leaving the input of a group's description, with its value. A failure is not caught.
  unfoldable pub blur_description : String → String → M Tab (Unit {0})
  blur_description group_name val =
      let old : String = elim (get group_name c.groups) [ none ↦ "" | some e ↦ e.description ] in
      only_if (not (val == old)) (do
        call (Call.update_group_config device_id group_name (or_undefined val) none)
        emit changed_renames)

  unfoldable pub blur_sub_description : String → Sibling → String → M Tab (Unit {0})
  blur_sub_description group_name sg val = only_if (not (val == sg.description)) (do
    call (Call.update_sub_group_config device_id group_name sg.name (or_undefined val) none)
    emit changed_renames)

  abbrev members : String → List String
  members group_name = elim (get group_name c.groups) [ none ↦ [] | some e ↦ e.fields ]

  module _ (renames : List FieldRename) where
    -- The call that takes a field out of its group, and those for several.
    abbrev pub ungroup_call : String → Call
    ungroup_call f =
        let rename = find_rename f renames in
        Call.update_rename device_id f (some (property (λ r. r.display_name) rename f))
          (unit_of rename) none none

    unfoldable pub ungroup : List String → List Call
    ungroup [] = []
    ungroup (f ∷ fs) = ungroup_call f ∷ ungroup fs

    unfoldable pub handle_delete_group : String → M Tab (Unit {0})
    handle_delete_group group_name = elim (members group_name) [
      | [] ↦ pure tt
      | f ∷ fs ↦ do
        agreed ← confirm (delete_question group_name (f ∷ fs))
        only_if agreed (do
          modify (λ s. record s { is_deleting_group = some group_name })
          finally
              (try_catch
                (do
                  call_all (ungroup (f ∷ fs))
                  modify (λ s. record s { extra_groups = remove group_name s.extra_groups })
                  emit changed_renames)
                (λ e. emit (alerted "Failed to delete group")))
              (modify (λ s. record s { is_deleting_group = none })))
    ]
