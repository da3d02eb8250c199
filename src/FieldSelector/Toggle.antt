-- ===== src/FieldSelector/Toggle.antt =====
-- What toggling a group does to the selection.
use telemetryhub.Common.{
  String, List, [], ◌∷◌, true, false, not, ◌&&◌, ◌||◌, ◌≡◌, filter, string_eq, if◌then◌else◌, arith,
}
use text.Mathlib.TextEquality.{eq_iff}
use telemetryhub.Js.Map.{includes}
use telemetryhub.Js.Map.Laws.{includes-append, includes-filter}
use telemetryhub.FieldSelector.{any_selected, toggle_group}

-- A field is selected after a toggle exactly if: some field of the group was selected, and the field
-- was and lies outside of the group; or none was, and the field was selected or is of the group.
pub toggle_group_lem :
    (selected group_fields : List String) (f : String)
    → includes (toggle_group selected group_fields) f ≡ (
        if any_selected selected group_fields
        then includes selected f && not (includes group_fields f)
        else includes selected f || includes group_fields f)
unfolding toggle_group
toggle_group_lem selected group_fields f = ground (
  arith,
  includes-filter (λ x. not (includes group_fields x)) selected f,
  includes-filter (λ x. not (includes selected x)) group_fields f,
  includes-append selected (filter (λ x. not (includes selected x)) group_fields) f,
)

includes_head : (f : String) (fs : List String) → includes (f ∷ fs) f ≡ true
unfolding includes
includes_head f fs = ground (arith, eq_iff f f)

none_selected :
    (selected fs : List String) (f : String)
    → any_selected selected fs ≡ false
    → includes fs f ≡ true
    → includes selected f ≡ false
unfolding any_selected includes
none_selected selected [] f h k = cc
none_selected selected (g ∷ fs) f h k = ground (arith, eq_iff g f, none_selected selected fs f)

any_selected_of :
    (selected fs : List String) (f : String)
    → includes fs f ≡ true
    → includes selected f ≡ true
    → any_selected selected fs ≡ true
unfolding any_selected includes
any_selected_of selected [] f h k = cc
any_selected_of selected (g ∷ fs) f h k = ground (arith, eq_iff g f, any_selected_of selected fs f)

-- Toggling a group that has a field, and of which no field is selected, twice, selects what was
-- selected.
pub toggle_group_twice :
    (selected : List String) (first : String) (others : List String) (f : String)
    → any_selected selected (first ∷ others) ≡ false
    → includes (toggle_group (toggle_group selected (first ∷ others)) (first ∷ others)) f
      ≡ includes selected f
toggle_group_twice selected first others f h =
    let fs = first ∷ others in
    let once = toggle_group selected fs in
    let head : includes fs first ≡ true = includes_head first others in
    ground (
      arith,
      toggle_group_lem once fs f,
      toggle_group_lem selected fs f,
      toggle_group_lem selected fs first,
      any_selected_of once fs first head,
      none_selected selected fs f h,
    )
