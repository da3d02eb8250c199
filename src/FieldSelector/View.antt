-- ===== src/FieldSelector/View.antt =====
-- What `FieldSelector` renders. The drawer is a library's: its content is there while it is open.
use telemetryhub.Common.{
  String, List, [], ◌∷◌, ◌++◌, Option, none, some, Bool, false, length, if◌then◌else◌,
}
use telemetryhub.Js.Text.{text, is_empty, decimal}
use telemetryhub.Js.Sort.{Sign}
use telemetryhub.Popup.{Selector, handle_trigger_click}
use telemetryhub.Ui.{Widget, shows, button, input, checkbox, change, NoChild, when, each}
use telemetryhub.FieldSelector.{
  FieldLabel, GroupEntry, render_group_option, sorted_groups, filtered_groups, selected_groups,
  select_all, clear_all, toggle_group,
}

pub data Action : Type 0 where
  trigger all none_ done : Action
  set_search : String → Action
  toggle : List String → Action

abbrev pub description_of : Option String → List (Widget Action NoChild)
description_of none = []
description_of (some d) = if is_empty d then [] else shows d ∷ []

-- `renderGroupOption`
abbrev pub option_row : List String → GroupEntry → List (Widget Action NoChild)
option_row selected entry =
    let row = render_group_option selected entry in
    checkbox row.checked (toggle entry.fields) ∷ shows row.name ∷ description_of row.description
    ++ shows (decimal row.count) ∷ []

-- `renderList`
unfoldable pub render_list : String → List String → List GroupEntry → List (Widget Action NoChild)
unfolding each render_group_option
render_list search selected [] = shows (text ("No groups match \"" ∷ search ∷ "\"" ∷ [])) ∷ []
render_list search selected (g ∷ gs) = each (option_row selected) (g ∷ gs)

-- The search, the two buttons and the list, which the popover and the drawer share.
unfoldable pub panel : String → List String → List GroupEntry → List (Widget Action NoChild)
unfolding render_list
panel search selected filtered =
    input "Search groups…" search (change set_search ∷ [])
    ∷ button "All" false all
    ∷ shows "·"
    ∷ button "None" false none_
    ∷ render_list search selected filtered

module _ (label_for : String → FieldLabel) (locale_compare : String → String → Sign)
    (lower : String → String) (fields selected : List String) where
  abbrev sorted : List GroupEntry
  sorted = sorted_groups label_for locale_compare fields

  unfoldable pub view : String → Selector → List (Widget Action NoChild)
  unfolding when panel sorted_groups filtered_groups selected_groups
  view search s =
      let filtered = filtered_groups label_for lower search sorted in
      let chosen = decimal (selected_groups selected sorted) in
      button "Groups" false trigger
        ∷ shows (text (chosen ∷ "/" ∷ decimal (length sorted) ∷ []))
        ∷ when s.open? (panel search selected filtered)
      ++ when s.drawer_open (
          shows "Select Groups" ∷ panel search selected filtered
          ++ button (text ("Done (" ∷ chosen ∷ " selected)" ∷ [])) false done ∷ [])

  -- The search and the flags afterwards, and what `onChange` gets; `mobile` is the media query for a
  -- narrow screen.
  unfoldable pub perform :
      Bool → Action → String × Selector → (String × Selector) × Option (List String)
  unfolding handle_trigger_click select_all clear_all toggle_group
  perform mobile trigger (q, s) = ((q, handle_trigger_click mobile s), none)
  perform mobile all (q, s) = ((q, s), some (select_all label_for locale_compare fields))
  perform mobile none_ (q, s) = ((q, s), some clear_all)
  perform mobile done (q, s) = (("", record s { drawer_open = false }), none)
  perform mobile (set_search t) (q, s) = ((t, s), none)
  perform mobile (toggle group_fields) (q, s) = ((q, s), some (toggle_group selected group_fields))
