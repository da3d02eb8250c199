-- ===== src/Settings/ExportTab/Toggle.antt =====
-- What the check boxes of the export do to the selection.
use telemetryhub.Common.{
  String, List, [], ◌∷◌, not, ◌&&◌, ◌||◌, ◌≡◌, arith, if◌then◌else◌, ◌==◌, string_eq,
}
use text.Mathlib.TextEquality.{eq_iff}
use telemetryhub.Js.Map.{includes, add, remove}
use telemetryhub.Js.Map.Laws.{includes-add, includes-remove}
use telemetryhub.Settings.Context.{GroupContext}
use telemetryhub.Settings.ExportTab.{
  every_has, add_each, remove_each, fields_of, toggle_group, toggle_field,
}

-- A field's box turns that field over, and no other.
pub toggle_export_field :
    (f : String) (prev : List String) (g : String)
    → includes (toggle_field f prev) g ≡ (if f == g then not (includes prev g) else includes prev g)
unfolding toggle_field
toggle_export_field f prev g =
    ground (arith, eq_iff f g, includes-add f prev g, includes-remove f prev g)

includes-add_each :
    (next fs : List String) (g : String)
    → includes (add_each next fs) g ≡ (includes next g || includes fs g)
unfolding add_each includes
includes-add_each next [] g = ground arith
includes-add_each next (f ∷ fs) g =
    ground (arith, includes-add_each (add f next) fs g, includes-add f next g)

includes-remove_each :
    (next fs : List String) (g : String)
    → includes (remove_each next fs) g ≡ (includes next g && not (includes fs g))
unfolding remove_each includes
includes-remove_each next [] g = ground arith
includes-remove_each next (f ∷ fs) g =
    ground (arith, includes-remove_each (remove f next) fs g, includes-remove f next g)

-- A group's box takes the fields of the group out if all of them are in, and else puts them all in;
-- it leaves the other fields alone.
pub toggle_export_group :
    (c : GroupContext) (group : String) (prev : List String) (g : String)
    → includes (toggle_group c group prev) g ≡ (
        if every_has prev (fields_of c group)
        then includes prev g && not (includes (fields_of c group) g)
        else includes prev g || includes (fields_of c group) g)
unfolding toggle_group
toggle_export_group c group prev g = ground (
  arith,
  includes-add_each prev (fields_of c group) g,
  includes-remove_each prev (fields_of c group) g,
)
