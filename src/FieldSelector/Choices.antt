-- ===== src/FieldSelector/Choices.antt =====
-- Which fields the controls of the selector can select.
use telemetryhub.Common.{
  String, List, [], ◌∷◌, ◌++◌, Option, none, some, Bool, true, false, ◌≡◌, ◌≢◌, string_eq, arith,
  All, Any, Any-append, ◌⊎◌, inl, inr, Option-cases, Bool-cases,
}
use telemetryhub.Common.Perms.{flat_map}
use telemetryhub.Js.Map.{get, vals, includes}
use telemetryhub.Js.All.{
  All-snoc, All-filter, All-sort, get-Held, put-All, includes-All, includes_each,
}
use telemetryhub.Js.Sort.{Sign}
use telemetryhub.Js.Text.{trimmed, is_empty, trim, text, decimal}
use telemetryhub.Popup.{Selector}
use telemetryhub.Ui.{Widget, shows, button, Gives, Offers, NoChild, when}
use telemetryhub.Ui.Laws.{Any-each, Any-when}
use telemetryhub.FieldSelector.{
  FieldLabel, GroupEntry, Groups, add_field, groups_from, collect, sorted_groups, select_all,
  filtered_groups, selected_groups, render_group_option, clear_all, by_order,
}
use telemetryhub.FieldSelector.Toggle.{toggle_group_lem}
use telemetryhub.FieldSelector.View.{
  Action, trigger, all, none_, done, set_search, toggle, description_of, option_row, render_list,
  panel, view, perform,
}

module _ (label_for : String → FieldLabel) (fields : List String) where
  -- A field of the device that is in a group.
  abbrev pub IsGrouped : String → Type 0
  IsGrouped f = (includes fields f ≡ true) × (trimmed (label_for f).chart_group ≢ none)

  abbrev AllGrouped : GroupEntry → Type 0
  AllGrouped e = All IsGrouped e.fields

  add_field-AllGrouped :
      (g : Groups) (f : String)
      → includes fields f ≡ true
      → All AllGrouped (vals g.by_name)
      → All AllGrouped (vals (add_field label_for g f).by_name)
  unfolding add_field
  add_field-AllGrouped g f known h = elim (Option-cases (trimmed (label_for f).chart_group)) [
    | inl free ↦ rw (add_field, free) h
    | inr (name, owned) ↦
        let grouped : IsGrouped f = (known, λ e. absurd (ground arith)) in
        let held = get-Held AllGrouped name g.by_name h in
        elim (Option-cases (get name g.by_name)) [
          | inl new ↦
              rw (add_field, owned, new) (put-All AllGrouped name _ g.by_name h (grouped, tt))
          | inr (entry, old) ↦
              rw (add_field, owned, old)
                (put-All AllGrouped name _ g.by_name h
                  (All-snoc IsGrouped entry.fields f (rw old at held) grouped))
        ]
  ]

  groups_from-AllGrouped :
      (g : Groups) (fs : List String)
      → All (λ f. includes fields f ≡ true) fs
      → All AllGrouped (vals g.by_name)
      → All AllGrouped (vals (groups_from label_for g fs).by_name)
  unfolding groups_from
  groups_from-AllGrouped g [] known h = h
  groups_from-AllGrouped g (f ∷ fs) known h =
      groups_from-AllGrouped (add_field label_for g f) fs known.1
        (add_field-AllGrouped g f known.0 h)

  module _ (locale_compare : String → String → Sign) (lower : String → String) where
    sorted_groups-AllGrouped : All AllGrouped (sorted_groups label_for locale_compare fields)
    unfolding sorted_groups collect vals
    sorted_groups-AllGrouped = All-sort AllGrouped (by_order label_for locale_compare) _ (
        groups_from-AllGrouped (record { by_name = []; uncategorized = [] }) fields
          (includes_each fields) tt)

    filtered_groups-AllGrouped :
        (search : String)
        → All AllGrouped
            (filtered_groups label_for lower search (sorted_groups label_for locale_compare fields))
    unfolding filtered_groups
    filtered_groups-AllGrouped search = elim (Bool-cases (is_empty (trim search))) [
      | inl blank ↦ rw blank sorted_groups-AllGrouped
      | inr typed ↦ rw typed (All-filter AllGrouped _ _ sorted_groups-AllGrouped)
    ]

    flat_map-IsGrouped :
        (es : List GroupEntry)
        → All AllGrouped es
        → All IsGrouped (flat_map (λ (e : GroupEntry). e.fields) es)
    flat_map-IsGrouped [] h = tt
    flat_map-IsGrouped (e ∷ es) h =
        joined (flat_map (λ (e : GroupEntry). e.fields) es) e.fields h.0 (flat_map-IsGrouped es h.1)
      where
        joined :
            (gs fs : List String) → All IsGrouped fs → All IsGrouped gs → All IsGrouped (fs ++ gs)
        joined gs [] g rest = rest
        joined gs (f ∷ fs) g rest = (g.0, joined gs fs g.1 rest)

    module _ (selected : List String) where
      -- The fields that an action hands to the page are selected already, or grouped.
      abbrev IsSafe : Action → Type 0
      IsSafe (toggle fs) = All IsGrouped fs
      IsSafe a = Unit

      texts_offer_nothing :
          (a : Action) (name count : String) (d : Option String)
          → ¬ (Offers (shows name ∷ description_of d ++ shows count ∷ []) a)
      texts_offer_nothing a name count none (inl o) = o
      texts_offer_nothing a name count (some d) (inl o) = o
      texts_offer_nothing a name count none (inr (inl o)) = o
      texts_offer_nothing a name count none (inr (inr o)) = o
      texts_offer_nothing a name count (some d) (inr o) = elim (Bool-cases (is_empty d)) [
        | inl blank ↦ absurd (ground arith)
        | inr written ↦ absurd (ground arith)
      ]

      row-IsSafe :
          (a : Action) (e : GroupEntry) → AllGrouped e → Offers (option_row selected e) a → IsSafe a
      row-IsSafe a e h (inl o) = rw (← o) h
      row-IsSafe a e h (inr o) =
          let row = render_group_option selected e in
          absurd (texts_offer_nothing a row.name (decimal row.count) row.description o)

      rows-IsSafe :
          (a : Action) (es : List GroupEntry)
          → All AllGrouped es
          → Any (λ e. Offers (option_row selected e) a) es
          → IsSafe a
      rows-IsSafe a [] h o = absurd o
      rows-IsSafe a (e ∷ es) h (inl o) = row-IsSafe a e h.0 o
      rows-IsSafe a (e ∷ es) h (inr o) = rows-IsSafe a es h.1 o

      list-IsSafe :
          (a : Action) (q : String) (es : List GroupEntry)
          → All AllGrouped es
          → Offers (render_list q selected es) a
          → IsSafe a
      unfolding render_list
      list-IsSafe a q [] h (inl o) = absurd o
      list-IsSafe a q [] h (inr o) = absurd o
      list-IsSafe a q (e ∷ es) h o =
          rows-IsSafe a (e ∷ es) h (Any-each (Gives a) (option_row selected) (e ∷ es) o)

      panel-IsSafe :
          (a : Action) (q : String) (es : List GroupEntry)
          → All AllGrouped es
          → Offers (panel q selected es) a
          → IsSafe a
      unfolding panel
      panel-IsSafe a q es h (inl (inl (t, e))) = rw (← e) tt
      panel-IsSafe a q es h (inl (inr o)) = absurd o
      panel-IsSafe a q es h (inr (inl (d, e))) = rw (← e) tt
      panel-IsSafe a q es h (inr (inr (inl o))) = absurd o
      panel-IsSafe a q es h (inr (inr (inr (inl (d, e))))) = rw (← e) tt
      panel-IsSafe a q es h (inr (inr (inr (inr o)))) = list-IsSafe a q es h o

      drawer-IsSafe :
          (a : Action) (q label : String) (es : List GroupEntry)
          → All AllGrouped es
          → Offers (shows "Select Groups" ∷ panel q selected es ++ button label false done ∷ []) a
          → IsSafe a
      drawer-IsSafe a q label es h (inl o) = absurd o
      drawer-IsSafe a q label es h (inr o) =
          elim (Any-append (Gives a) (panel q selected es) (button label false done ∷ []) o) [
            | inl l ↦ panel-IsSafe a q es h l
            | inr (inl (d, e)) ↦ rw (← e) tt
            | inr (inr r) ↦ absurd r
          ]

      view-IsSafe :
          (a : Action) (q : String) (s : Selector)
          → Offers (view label_for locale_compare lower fields selected q s) a
          → IsSafe a
      unfolding view when
      view-IsSafe a q s (inl (d, e)) = rw (← e) tt
      view-IsSafe a q s (inr (inl o)) = absurd o
      view-IsSafe a q s (inr (inr o)) =
          let sorted = sorted_groups label_for locale_compare fields in
          let es = filtered_groups label_for lower q sorted in
          let label =
            text ("Done (" ∷ decimal (selected_groups selected sorted) ∷ " selected)" ∷ []) in
          let listed = panel q selected es in
          let drawer = shows "Select Groups" ∷ listed ++ button label false done ∷ [] in
          let given : Widget Action NoChild → Type 0 = Gives a in
          elim (Any-append given (when s.open? listed) (when s.drawer_open drawer) o) [
            | inl l ↦
                panel-IsSafe a q es (filtered_groups-AllGrouped q)
                  (Any-when given s.open? listed l).1
            | inr r ↦
                drawer-IsSafe a q label es (filtered_groups-AllGrouped q)
                  (Any-when given s.drawer_open drawer r).1
          ]

      -- Whatever the user does at the selector, it hands to the page only fields that are selected already, or
      -- that the device has and that are in a group.
      pub offered_choices :
          (mobile : Bool) (q : String) (s : Selector) (a : Action) (chosen : List String)
          (f : String)
          → Offers (view label_for locale_compare lower fields selected q s) a
          → (perform label_for locale_compare lower fields selected mobile a (q, s)).1 ≡ some chosen
          → includes chosen f ≡ true
          → (includes selected f ≡ true) ⊎ IsGrouped f
      unfolding perform clear_all select_all includes
      offered_choices mobile q s trigger chosen f o e h = absurd (ground arith)
      offered_choices mobile q s done chosen f o e h = absurd (ground arith)
      offered_choices mobile q s (set_search t) chosen f o e h = absurd (ground arith)
      offered_choices mobile q s none_ chosen f o e h = absurd (ground arith)
      offered_choices mobile q s all chosen f o e h = inr (
          includes-All IsGrouped _ f (flat_map-IsGrouped _ sorted_groups-AllGrouped) (ground arith))
      offered_choices mobile q s (toggle fs) chosen f o e h = ground (
        arith,
        toggle_group_lem selected fs f,
        includes-All IsGrouped fs f (view-IsSafe (toggle fs) q s o),
      )
