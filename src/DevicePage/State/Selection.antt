-- ===== src/DevicePage/State/Selection.antt =====
-- The selection after the effect that fills it.
use telemetryhub.Common.{
  String, List, [], ◌∷◌, true, false, ◌≡◌, ◌≢◌, arith, filter, take, string_eq,
}
use text.Mathlib.TextEquality.{eq_iff}
use telemetryhub.Js.Map.{includes}
use telemetryhub.DevicePage.State.{Page, selected_fields, auto_select}

-- Some field of `fs` passes the filter by `includes fs`: the first.
first_passes :
    (first : String) (others rest : List String)
    → filter (λ f. includes (first ∷ others) f) (first ∷ rest) ≢ []
unfolding filter includes
first_passes first others rest e = ground (arith, eq_iff first first)

-- On a device that has fields, once the stored selection is read, the first run of the effect leaves
-- a field selected, and a second run changes nothing.
pub auto_select_lem :
    (p : Page) (first : String) (others : List String)
    → p.fields ≡ first ∷ others
    → p.fields_hydrated ≡ true
    → p.auto_selected ≡ false
    → (selected_fields (auto_select p) ≢ []) × (auto_select (auto_select p) ≡ auto_select p)
unfolding auto_select selected_fields
auto_select_lem p first others whole hydrated fresh =
    (λ e. ground (arith, first_passes first others (take 4 others)), ground arith)
