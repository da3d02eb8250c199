-- ===== src/Tests/Pages.antt =====
-- What the pages render, at samples.
use mathlib.Core.List.{Perm}
use telemetryhub.Common.{
  String, List, [], ◌∷◌, Option, none, some, Bool, true, false, ◌≡◌, ◌≢◌, refl, ◌||◌, filter, arith,
}
use telemetryhub.Common.Int.{ℤ}
use telemetryhub.Api.Types.{FieldRename}
use telemetryhub.Ui.{Offers, Contains}
use telemetryhub.DeviceSection.{Title}
use telemetryhub.DeviceSection.View.{CardProps, CardAction, Callback, section_view, card_view}
use telemetryhub.DeviceSection.Visitor.{Reach}
use telemetryhub.Dashboard as D
use telemetryhub.Dashboard.Grouping.{in_none}
use telemetryhub.Dashboard.Markup as M
use telemetryhub.Dashboard.Listing.{listed, in_some, dashboard_lists_devices}
use telemetryhub.Dashboard.Visitor.{dashboard_visitor}
use telemetryhub.DevicePage.State.{Page, selected_fields}
use telemetryhub.DevicePage.Markup as P
use telemetryhub.DevicePage.Markup.Plots.{plotted, page_plots_selection}
use telemetryhub.Tests.Data.{device, group, rename, reading, same_name}

abbrev dashboard : D.Page
dashboard = record D.start {
  devices = device "d1" (some 1) ∷ device "d2" none ∷ device "d3" (some 7) ∷ [];
  groups = group 1 0 ∷ group 2 1 ∷ [];
  is_loading = false;
}

one_is_not_two : ¬ ((group 1 0).id ≡ (group 2 1).id)
one_is_not_two e = omega arith

dashboard_lists_devices_example :
    Perm
      (listed (M.page false true true dashboard))
      (filter (λ d. in_some dashboard.groups d || in_none d) dashboard.devices)
dashboard_lists_devices_example =
    dashboard_lists_devices true dashboard refl ((one_is_not_two, tt), (tt, tt))

dashboard_visitor_example :
    ((a : M.Action) → ¬ (Offers (M.page false true false dashboard) a))
    × ((e : M.Element) (s : Title) (called : List Callback)
        → Contains (M.page false true false dashboard) e
        → Reach e.props s called
        → (called ≡ [])
          × ((c : CardProps) (now : ℤ) (seen : Option ℤ) (t : String) (b : Bool) (a : CardAction)
              → Contains (section_view e.props s) c
              → ¬ (Offers (card_view now seen t c b) a)))
dashboard_visitor_example = dashboard_visitor false true dashboard

abbrev renames : List FieldRename
renames = rename "a" (some " g ") (some "s") ∷ rename "b" (some "g") none ∷ []

abbrev page : Page
page = record {
  device = some (device "d1" none);
  device_loading = false;
  fields = "a" ∷ "b" ∷ "c" ∷ [];
  stored_fields = "c" ∷ "a" ∷ "b" ∷ [];
  fields_hydrated = true;
  readings = reading "a" "1" ∷ [];
  is_loading = false;
  auto_selected = true;
  reset_all_counter = 0;
  renames = renames;
}

some_readings : page.readings ≢ []
some_readings e = ground arith

abbrev no_time : String → Option ℤ
no_time s = none

abbrev any_text : ℤ → String
any_text t = "12:00:00"

page_plots_selection_example :
    Perm
      (plotted (P.page same_name no_time any_text "d1" "24h" false true true page))
      (selected_fields page)
page_plots_selection_example =
    page_plots_selection same_name no_time any_text "d1" "24h" true page some_readings

abbrev fields : List String
fields = "a" ∷ "b" ∷ []
