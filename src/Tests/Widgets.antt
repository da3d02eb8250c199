-- ===== src/Tests/Widgets.antt =====
-- Runs of DateTimePicker and FieldSelector.
use mathlib.Core.List.{Perm}
use telemetryhub.Common.{
  String, List, [], ◌∷◌, ◌++◌, none, some, true, false, ◌≡◌, refl, ◌⊎◌, ◌==◌, if◌then◌else◌,
  string_eq, arith, filter, inl, inr,
}
use telemetryhub.Common.Int.{pos, ◌+ℤ◌, ◌≤ℤ◌}
use telemetryhub.Ui.{Offers, when, each}
use telemetryhub.Js.Map.{includes, put, get}
use telemetryhub.Js.Sort.{sort}
use telemetryhub.Js.Text.{trimmed}
use telemetryhub.Popup.{Selector}
use telemetryhub.DateTimePicker.{Rect, place}
use telemetryhub.DateTimePicker.Placing.{place_lem}
use telemetryhub.FieldSelector.{
  FieldLabel, collect, select_all, any_selected, sorted_groups, filtered_groups, groups_from,
  add_field,
}
use telemetryhub.FieldSelector.View as View
use telemetryhub.FieldSelector.Choices.{IsGrouped, offered_choices}
use telemetryhub.FieldSelector.Partition.{select_all-perm}
use telemetryhub.Tests.Data.{same_name}

abbrev opened : Selector
opened = record { open? = true; drawer_open = false }

abbrev trigger : Rect
trigger = record { top = pos 700; bottom = pos 730; left = pos 900; height = pos 30 }

place_lem_example :
    let p = place trigger (pos 300) (pos 1000) (pos 768) in
    (pos 8 ≤ℤ p.top)
    × (p.left ≤ℤ trigger.left)
    × ((p.left +ℤ p.width +ℤ pos 8) ≤ℤ pos 1000)
    × (((p.top +ℤ pos 300 +ℤ pos 8) ≤ℤ pos 768)
        ⊎ ((p.top ≡ pos 8) ⊎ ((p.top +ℤ pos 300 +ℤ pos 6) ≡ trigger.top)))
place_lem_example = place_lem trigger (pos 300) (pos 1000) (pos 768) (omega arith) (omega arith)

-- Fields "a" and "b" are in one group.
abbrev labelled : String → FieldLabel
labelled f = record {
  field = f;
  display_name = none;
  unit = none;
  chart_group = if f == "c" then none else some " g ";
  sub_group = none;
  group_description = none;
  sub_group_description = none;
  group_sort_order = none;
  sub_group_sort_order = none;
}

abbrev three : List String
three = "a" ∷ "b" ∷ "c" ∷ []

select_all-perm_example :
    Perm (select_all labelled same_name three ++ (collect labelled three).uncategorized) three
select_all-perm_example = select_all-perm labelled same_name three

abbrev as_is : String → String
as_is s = s

abbrev group : List String
group = "a" ∷ "b" ∷ []

group_offered : Offers (View.view labelled same_name as_is three [] "" opened) (View.toggle group)
unfolding View.view when View.panel View.render_list each sorted_groups filtered_groups collect sort
    groups_from add_field trimmed put get
group_offered = inr (inr (inr (inr (inr (inr (inl refl))))))

group_chosen :
    (View.perform labelled same_name as_is three [] false (View.toggle group) ("", opened)).1
    ≡ some group
unfolding View.perform any_selected includes filter
group_chosen = refl

a_chosen : includes group "a" ≡ true
unfolding includes
a_chosen = refl

offered_choices_example : (includes {A = String} [] "a" ≡ true) ⊎ IsGrouped labelled three "a"
offered_choices_example =
    offered_choices labelled three same_name as_is [] false "" opened (View.toggle group) group "a"
      group_offered group_chosen a_chosen
