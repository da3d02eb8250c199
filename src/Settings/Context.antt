-- ===== src/Settings/Context.antt =====
-- `groupContext`: the groups and sub-groups that the field configurations name, and the fields that
-- match a search. `lower` is the engine's `toLowerCase`.
pub mod Members
use telemetryhub.Common.{
  String, List, [], ◌∷◌, ◌++◌, Option, none, some, Bool, ◌||◌, filter, if◌then◌else◌, string_eq,
  get_elem?, map,
}
use telemetryhub.Common.Int.{ℤ, pos}
use telemetryhub.Js.Map.{get, put, keys, has_key}
use telemetryhub.Js.Sort.{sign_of, sort}
use telemetryhub.Js.Text.{
  text, trimmed, trim, is_empty, missing_or, or_else_text, contains, split, begins,
}
use telemetryhub.Api.Types.{FieldRename}
use telemetryhub.DevicePage.State.{find_rename}

pub record GroupInfo : Type 0 where
  pub description : String
  pub sort_order : ℤ
  pub fields : List String

pub record SubInfo : Type 0 where
  pub description : String
  pub sort_order : ℤ

pub record GroupContext : Type 0 where
  pub groups : List (String × GroupInfo)
  pub sub_groups : List (String × SubInfo)

-- `${g}::${s}`
abbrev pub sub_key : String → String → String
sub_key g s = text (g ∷ "::" ∷ s ∷ [])

abbrev pub new_group : FieldRename → GroupInfo
new_group r = record {
  description = or_else_text r.group_description "";
  sort_order = missing_or r.group_sort_order (pos 0);
  fields = [];
}

abbrev pub push_field : GroupInfo → String → GroupInfo
push_field e f = record e { fields = e.fields ++ f ∷ [] }

unfoldable pub add_group :
    Option String → FieldRename → List (String × GroupInfo) → List (String × GroupInfo)
add_group none r m = m
add_group (some g) r m = put g (push_field (missing_or (get g m) (new_group r)) r.raw_field) m

unfoldable pub add_sub_group :
    Option String → Option String → FieldRename → List (String × SubInfo) → List (String × SubInfo)
add_sub_group (some g) (some s) r m =
    let info : SubInfo = record {
      description = or_else_text r.sub_group_description "";
      sort_order = missing_or r.sub_group_sort_order (pos 0);
    } in
    if has_key (sub_key g s) m then m else put (sub_key g s) info m
add_sub_group _ _ r m = m

-- one round of the loop
unfoldable pub add_rename : GroupContext → FieldRename → GroupContext
add_rename c r =
    let g = trimmed r.chart_group in
    let s = trimmed r.sub_group in
    record { groups = add_group g r c.groups; sub_groups = add_sub_group g s r c.sub_groups }

unfoldable pub context_from : GroupContext → List FieldRename → GroupContext
context_from c [] = c
context_from c (r ∷ rs) = context_from (add_rename c r) rs

unfoldable pub group_context : List FieldRename → GroupContext
group_context = context_from (record { groups = []; sub_groups = [] })

abbrev pub order_of : GroupContext → String → ℤ
order_of c g = elim (get g c.groups) [ none ↦ pos 0 | some e ↦ e.sort_order ]

-- `allGroupsSorted`
unfoldable pub all_groups_sorted : GroupContext → List String
all_groups_sorted c = sort (λ a b. sign_of (order_of c a) (order_of c b)) (keys c.groups)

abbrev display_lower : (String → String) → Option FieldRename → String
display_lower lower none = ""
display_lower lower (some r) = elim r.display_name [ none ↦ "" | some n ↦ lower n ]

-- `filteredFields`
unfoldable pub filtered_fields :
    (String → String) → String → List FieldRename → List String → List String
filtered_fields lower search_query renames fields =
    let q = lower search_query in
    if is_empty (trim search_query)
    then fields
    else filter
        (λ field.
          contains (lower field) q || contains (display_lower lower (find_rename field renames)) q)
        fields

-- A sub-group as the groups tab lists it.
pub record Sibling : Type 0 where
  pub key : String
  pub name : String
  pub description : String
  pub sort_order : ℤ

-- `k.startsWith(`${groupName}::`)`
abbrev pub is_sibling : String → String → Bool
is_sibling group_name k = begins k (text (group_name ∷ "::" ∷ []))

-- `k.split('::')[1]`
unfoldable pub sub_name : String → String
unfolding split
sub_name k = missing_or (get_elem? (split k "::") 1) "undefined"

abbrev pub sibling : String × SubInfo → Sibling
sibling e = record {
  key = e.0;
  name = sub_name e.0;
  description = e.1.description;
  sort_order = e.1.sort_order;
}

unfoldable pub siblings : GroupContext → String → List Sibling
siblings c group_name =
    sort (λ a b. sign_of a.sort_order b.sort_order)
      (map sibling (filter (λ e. is_sibling group_name e.0) c.sub_groups))
