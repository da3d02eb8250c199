-- ===== src/DevicePage/Markup.antt =====
-- What the page of frontend/src/app/dashboard/[deviceId]/page.tsx renders.
pub mod Plots
use telemetryhub.Common.{
  ℕ, suc, ◌+◌, String, List, [], ◌∷◌, ◌++◌, Option, none, some, Bool, true, false, not, ◌&&◌, ◌||◌,
  length, ◌==◌, string_eq, if◌then◌else◌,
}
use telemetryhub.Common.Int.{ℤ}
use telemetryhub.Js.Sort.{Sign}
use telemetryhub.Js.Text.{text, or_text, decimal}
use telemetryhub.Api.Types.{Device, FieldRename, ReadingData}
use telemetryhub.Handler.{M, emit, modify, pushed}
use telemetryhub.Reorder.{find_index}
use telemetryhub.Ui.{Widget, shows, spinner, button, link, child, when}
use telemetryhub.DevicePage.State.{
  Page, selected_fields, last_updated, get_display_name, get_unit, is_nil,
}
use telemetryhub.DevicePage.ChartGroups.{ChartGroup, ChartGroups, SubGroup, chart_groups}

-- The props of the page's children, less the callbacks, the renames and the readings that all charts get.
pub data Element : Type 0 where
  device_settings_modal : Device → Element
  time_range_selector : String → Element
  field_selector : List String → List String → Element
  -- group_name, sub_group_name, the descriptions, fields
  group_chart : String → String → Option String → Option String → List String → Element
  -- field, index, display_name, unit; the index is none for -1
  field_chart : String → Option ℕ → String → String → Element

pub data Action : Type 0 where
  reset_all : Action

unfoldable pub sub_charts : ChartGroup → List SubGroup → List (Widget Action Element)
sub_charts g [] = []
sub_charts g (s ∷ ss) =
    child (
      group_chart (text (g.group_name ∷ " – " ∷ s.sub_group_name ∷ [])) s.sub_group_name
        g.description s.description s.fields)
    ∷ sub_charts g ss

module _ (renames : List FieldRename) where
  unfoldable pub solo_charts : List String → String → List String → List (Widget Action Element)
  unfolding find_index get_display_name get_unit
  solo_charts selected group_name [] = []
  solo_charts selected group_name (f ∷ fs) =
      child (
        field_chart f (find_index (λ g. g == f) selected)
          (text (group_name ∷ " – " ∷ get_display_name renames f ∷ [])) (get_unit renames f))
      ∷ solo_charts selected group_name fs

  unfoldable pub group_charts : List String → List ChartGroup → List (Widget Action Element)
  unfolding sub_charts solo_charts
  group_charts selected [] = []
  group_charts selected (g ∷ gs) =
      sub_charts g g.sub_groups
      ++ solo_charts selected g.group_name g.solo_fields
      ++ group_charts selected gs

  -- The charts of the fields without a group, of which the first has the index i.
  unfoldable pub ungrouped_charts : ℕ → List String → List (Widget Action Element)
  unfolding get_display_name get_unit
  ungrouped_charts i [] = []
  ungrouped_charts i (f ∷ fs) =
      child (field_chart f (some i) (get_display_name renames f) (get_unit renames f))
      ∷ ungrouped_charts (suc i) fs

  unfoldable pub charts_section :
      List String → List ReadingData → ChartGroups → List (Widget Action Element)
  unfolding group_charts ungrouped_charts
  charts_section selected readings cg =
      if is_nil selected
      then shows "No fields selected" ∷ shows "Select at least one field to display data." ∷ []
      else if is_nil readings
      then (shows "No data available"
          ∷ shows "There is no data for the selected fields in this time range."
          ∷ [])
      else group_charts selected cg.groups ++ ungrouped_charts 0 cg.ungrouped

-- `device?.name || fallback`
abbrev name_or : Option Device → String → String
name_or none fallback = fallback
name_or (some d) fallback = or_text d.name fallback

abbrev info_row : Option Device → ℕ → List (Widget Action Element)
info_row none n = []
info_row (some d) n =
    shows "ID: "
    ∷ shows d.id
    ∷ shows "|"
    ∷ shows "Broker: "
    ∷ shows (or_text d.broker_name "—")
    ∷ shows "|"
    ∷ shows "Fields: "
    ∷ shows (decimal n)
    ∷ []

abbrev settings : Bool → Option Device → List (Widget Action Element)
settings is_admin none = []
settings is_admin (some d) = when is_admin (child (device_settings_modal d) ∷ [])

-- `show_time` is `toLocaleTimeString`, `time_of` the parser of dates.
module _ (locale_compare : String → String → Sign) (time_of : String → Option ℤ)
    (show_time : ℤ → String) (device_id time_range : String) where
  abbrev last_data : Option ℤ → List (Widget Action Element)
  last_data none = []
  last_data (some t) = shows "Last data: " ∷ shows (show_time t) ∷ []

  unfoldable pub controls : Page → List (Widget Action Element)
  unfolding selected_fields last_updated
  controls p =
      shows "Time Range"
        ∷ child (time_range_selector time_range)
        ∷ shows "Fields"
        ∷ child (field_selector p.fields (selected_fields p))
        ∷ last_data (last_updated time_of p)
      ++ button "Reset All" false reset_all ∷ []

  unfoldable pub charts : Page → List (Widget Action Element)
  unfolding charts_section chart_groups selected_fields
  charts p =
      charts_section p.renames (selected_fields p) p.readings
        (chart_groups locale_compare p.fields_hydrated (selected_fields p) p.renames)

  unfoldable pub above_charts : Bool → Page → List (Widget Action Element)
  unfolding when controls
  above_charts is_admin p =
      link "/dashboard" none
        ∷ shows "Dashboard"
        ∷ shows "/"
        ∷ shows (name_or p.device device_id)
        ∷ shows (name_or p.device (text ("Device: " ∷ device_id ∷ [])))
        ∷ settings is_admin p.device
      ++ info_row p.device (length p.fields)
      ++ controls p

  unfoldable pub page : Bool → Bool → Bool → Page → List (Widget Action Element)
  unfolding above_charts charts
  page auth_loading has_user is_admin p =
      if auth_loading || not has_user then spinner ∷ [] else above_charts is_admin p ++ charts p

unfoldable pub perform : Action → Page → Page
perform reset_all p = record p { reset_all_counter = p.reset_all_counter + 1 }

-- `onDeviceDelete`
unfoldable pub device_deleted : M Page (Unit {0})
device_deleted = emit (pushed "/dashboard")
