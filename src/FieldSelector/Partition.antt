-- ===== src/FieldSelector/Partition.antt =====
-- The groups hold every field once.
use mathlib.Core.List.Perm
use mathlib.Core.List.{Perm, append-nil, perm_append_singleton}
use telemetryhub.Common.{String, List, [], ◌∷◌, ◌++◌, ◌≡◌, refl, Option-cases, inl, inr, string_eq}
use telemetryhub.Common.Perms.{flat_map, flat_map-perm, perm_shift}
use telemetryhub.Js.Map.{get, vals}
use telemetryhub.Js.Map.Spread.{spread, spread-put_new, spread-put_old}
use telemetryhub.Js.Sort.{Sign}
use telemetryhub.Js.Sort.Laws.{sort-perm}
use telemetryhub.Js.Text.{trimmed}
use telemetryhub.FieldSelector.{
  FieldLabel, GroupEntry, Groups, add_field, groups_from, collect, sorted_groups, select_all,
  by_order, push_field, new_entry,
}

abbrev entry_fields : GroupEntry → List String
entry_fields e = e.fields

abbrev content : Groups → List String
content g = spread entry_fields g.by_name ++ g.uncategorized

spread-vals :
    (m : List (String × GroupEntry)) → spread entry_fields m ≡ flat_map entry_fields (vals m)
unfolding vals
spread-vals [] = refl
spread-vals ((k, e) ∷ m) = rw (spread-vals m)

module _ (label_for : String → FieldLabel) where
  add_field-perm :
      (g : Groups) (f : String) → Perm (content (add_field label_for g f)) (f ∷ content g)
  unfolding add_field
  add_field-perm g f = elim (Option-cases (trimmed (label_for f).chart_group)) [
    | inl free ↦
        rw (free, add_field)
          (perm_shift f (spread entry_fields g.by_name) (perm_append_singleton f g.uncategorized))
    | inr (name, owned) ↦ elim (Option-cases (get name g.by_name)) [
      | inl new ↦
          rw (owned, add_field, new)
            (Perm.append_right g.uncategorized (
              spread-put_new entry_fields name (push_field (new_entry label_for name f) f) g.by_name
                new))
      | inr (entry, old) ↦
          rw (owned, add_field, old)
            (Perm.append_right g.uncategorized (
              spread-put_old entry_fields name (push_field entry f) entry f g.by_name old
                (perm_append_singleton f entry.fields)))
    ]
  ]

  groups_from-perm :
      (g : Groups) (fs : List String)
      → Perm (content (groups_from label_for g fs)) (fs ++ content g)
  unfolding groups_from
  groups_from-perm g [] = Perm.refl (content g)
  groups_from-perm g (f ∷ fs) =
      Perm.trans (groups_from-perm (add_field label_for g f) fs)
        (perm_shift f fs (add_field-perm g f))

  -- Each field of the device stands in exactly one group of the selector, once, or is uncategorized:
  -- "All" selects what is left of the fields without those.
  pub select_all-perm :
      (locale_compare : String → String → Sign) (fields : List String)
      → Perm
          (select_all label_for locale_compare fields ++ (collect label_for fields).uncategorized)
          fields
  unfolding select_all sorted_groups collect
  select_all-perm locale_compare fields =
      let g = collect label_for fields in
      let arranged =
        flat_map-perm entry_fields
          (sort-perm (by_order label_for locale_compare) (vals g.by_name)) in
      Perm.trans (Perm.append_right g.uncategorized arranged) (
        rw (spread-vals g.by_name) at (
          rw append-nil at (groups_from-perm (record { by_name = []; uncategorized = [] }) fields)))
