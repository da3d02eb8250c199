-- ===== src/FieldSelector.antt =====
-- frontend/src/components/field-selector.tsx: the groups of a device's fields, and how the selection
-- changes. The comparison of names by locale and the change to lower case are the engine's; they are
-- parameters.
pub mod Choices
pub mod Partition
pub mod Toggle
pub mod View
use telemetryhub.Common.{
  ℕ, String, List, [], ◌∷◌, ◌++◌, map, Option, none, some, Bool, true, false, not, ◌&&◌, ◌||◌,
  length, filter, if◌then◌else◌, string_eq,
}
use telemetryhub.Common.Int.{ℤ, pos}
use telemetryhub.Common.Perms.{flat_map}
use telemetryhub.Js.Map.{get, put, vals, includes, of_list}
use telemetryhub.Js.Sort.{Sign, sign_of, or_else, sort}
use telemetryhub.Js.Text.{trimmed, trim, is_empty, contains, missing_or}

pub record FieldLabel : Type 0 where
  pub field : String
  pub display_name : Option String
  pub unit : Option String
  pub chart_group : Option String
  pub sub_group : Option String
  pub group_description : Option String
  pub sub_group_description : Option String
  pub group_sort_order : Option ℤ
  pub sub_group_sort_order : Option ℤ

pub record GroupEntry : Type 0 where
  pub name : String
  pub fields : List String
  pub sort_order : ℤ
  pub description : Option String

-- The variables of the loop of `groups`.
pub record Groups : Type 0 where
  pub by_name : List (String × GroupEntry)
  pub uncategorized : List String

-- `entry.fields.push(field)`
abbrev pub push_field : GroupEntry → String → GroupEntry
push_field e f = record e { fields = e.fields ++ f ∷ [] }

module _ (label_for : String → FieldLabel) where
  abbrev new_entry : String → String → GroupEntry
  new_entry group field =
      let label = label_for field in
      record {
        name = group;
        fields = [];
        sort_order = missing_or label.group_sort_order (pos 0);
        description = label.group_description;
      }

  -- one round of the loop
  unfoldable pub add_field : Groups → String → Groups
  add_field g field = elim (trimmed (label_for field).chart_group) [
    | none ↦ record g { uncategorized = g.uncategorized ++ field ∷ [] }
    | some group ↦
        let entry = missing_or (get group g.by_name) (new_entry group field) in
        record g { by_name = put group (push_field entry field) g.by_name }
  ]

  unfoldable pub groups_from : Groups → List String → Groups
  groups_from g [] = g
  groups_from g (f ∷ fs) = groups_from (add_field g f) fs

  unfoldable pub collect : List String → Groups
  collect = groups_from (record { by_name = []; uncategorized = [] })

  module _ (locale_compare : String → String → Sign) where
    abbrev pub by_order : GroupEntry → GroupEntry → Sign
    by_order a b = or_else (sign_of a.sort_order b.sort_order) (locale_compare a.name b.name)

    -- `groups.sorted`
    unfoldable pub sorted_groups : List String → List GroupEntry
    unfolding vals
    sorted_groups fields = sort by_order (vals (collect fields).by_name)

    -- `selectAll`
    unfoldable pub select_all : List String → List String
    select_all fields = flat_map (λ (g : GroupEntry). g.fields) (sorted_groups fields)

  abbrev opt_contains : (String → String) → Option String → String → Bool
  opt_contains lower none q = false
  opt_contains lower (some s) q = contains (lower s) q

  abbrev some_field : (String → Bool) → List String → Bool
  some_field p [] = false
  some_field p (f ∷ fs) = p f || some_field p fs

  -- `filteredGroups`
  unfoldable pub filtered_groups : (String → String) → String → List GroupEntry → List GroupEntry
  unfolding filter trim contains
  filtered_groups lower search sorted =
      let q = lower search in
      if is_empty (trim search)
      then sorted
      else filter
          (λ g.
            contains (lower g.name) q
            || opt_contains lower g.description q
            || some_field (λ f. opt_contains lower (label_for f).display_name q) g.fields)
          sorted

-- `groupFields.some((f) => selectedSet.has(f))`
unfoldable pub any_selected : List String → List String → Bool
any_selected selected [] = false
any_selected selected (f ∷ fs) = includes selected f || any_selected selected fs

-- `entry.fields.every((f) => selectedSet.has(f))`
unfoldable pub all_selected : List String → List String → Bool
all_selected selected [] = true
all_selected selected (f ∷ fs) = includes selected f && all_selected selected fs

-- `toggleGroup`: what it hands to `onChange`
unfoldable pub toggle_group : List String → List String → List String
toggle_group selected group_fields =
    if any_selected selected group_fields
    then filter (λ f. not (includes group_fields f)) selected
    else selected ++ filter (λ f. not (includes selected f)) group_fields

unfoldable pub clear_all : List String
clear_all = []

-- `selectedGroups`
unfoldable pub selected_groups : List String → List GroupEntry → ℕ
unfolding filter any_selected
selected_groups selected sorted = length (filter (λ g. any_selected selected g.fields) sorted)

-- What `renderGroupOption` shows of a group.
pub record OptionRow : Type 0 where
  pub name : String
  pub checked : Bool
  pub indeterminate : Bool
  pub description : Option String
  pub count : ℕ

unfoldable pub render_group_option : List String → GroupEntry → OptionRow
unfolding any_selected all_selected
render_group_option selected entry =
    let every = all_selected selected entry.fields in
    record {
      name = entry.name;
      checked = every;
      indeterminate = any_selected selected entry.fields && not every;
      description = entry.description;
      count = length entry.fields;
    }
