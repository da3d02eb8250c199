-- ===== src/DevicePage/Chart/View.antt =====
-- What `FieldChart` and `GroupChart` render; of the options of the chart library only the title of the
-- vertical axis, the others are in Options.
use telemetryhub.Common.{
  ℕ, ◌+◌, String, List, [], ◌∷◌, ◌++◌, Option, none, some, false, not, ◌||◌, ◌==◌, string_eq,
  if◌then◌else◌,
}
use telemetryhub.Common.Int.{ℤ, pos}
use telemetryhub.Js.Text.{text, is_empty, decimal}
use telemetryhub.Api.Types.{FieldRename, ReadingData}
use telemetryhub.Ui.{Widget, shows, button, child, when}
use telemetryhub.DateTimePicker.{pad}
use telemetryhub.DevicePage.Chart.{
  ChartState, Zoom, Drag, Dataset, min_ℤ, distance, handle_mouse_down, handle_mouse_move,
  handle_mouse_up, handle_mouse_leave, handle_reset_zoom, field_data, dataset, datasets_from,
  primary_unit,
}

-- What the user does, at a place in the chart.
pub data Action : Type 0 where
  press move : ℤ → Action
  release leave double_click reset : Action

-- The element that takes the mouse, the library's chart with its datasets and the title of the vertical
-- axis if it has one, and the mark of the dragged range with its left edge and its width.
pub data Element : Type 0 where
  surface : Element
  line : List Dataset → Option String → Element
  mark : ℤ → ℕ → Element

abbrev pub overlay : Option Drag → List (Widget Action Element)
overlay none = []
overlay (some d) =
    when d.active (child (mark (min_ℤ d.start_x d.cur_x) (distance d.cur_x d.start_x)) ∷ [])

abbrev unit_title : String → Option String
unit_title u = if is_empty u then none else some u

-- `groupDescription` or `subGroupDescription`
abbrev note : Option String → List (Widget Action Element)
note none = []
note (some t) = if is_empty t then [] else shows t ∷ []

-- `show` is `toLocaleString` on a stored time.
module _ (show : String → String) where
  abbrev zoom_label : Option Zoom → List (Widget Action Element)
  zoom_label none = []
  zoom_label (some z) =
      shows (text (show z.from ∷ " — " ∷ show z.to ∷ [])) ∷ button "Reset" false reset ∷ []

  module _ (time_of : String → Option ℤ) (readings : List ReadingData) where
    unfoldable pub field_chart :
        String → ℕ → String → String → ChartState → List (Widget Action Element)
    unfolding when field_data dataset distance
    field_chart field index display_name unit s =
        shows display_name ∷ when (not (is_empty unit)) (shows (text ("(" ∷ unit ∷ ")" ∷ [])) ∷ [])
        ++ zoom_label s.zoom_range
        ++ child surface
          ∷ child (
              line
                (dataset time_of display_name index (field_data time_of s.zoom_range readings field)
                  ∷ [])
                (unit_title unit))
          ∷ overlay s.drag_state

    unfoldable pub group_chart :
        String
        → Option String
        → Option String
        → List String
        → List FieldRename
        → ChartState
        → List (Widget Action Element)
    unfolding when datasets_from primary_unit distance
    group_chart group_name group_description sub_group_description fields renames s =
        shows group_name ∷ zoom_label s.zoom_range
        ++ note group_description
        ++ note sub_group_description
        ++ child surface
          ∷ child (
              line (datasets_from time_of 0 s.zoom_range readings renames fields)
                (unit_title (primary_unit renames "" fields)))
          ∷ overlay s.drag_state

-- `to_iso` and `scale` as in the handlers.
unfoldable pub perform : (ℤ → String) → Option (ℤ → ℤ) → Action → ChartState → ChartState
unfolding handle_mouse_down handle_mouse_move handle_mouse_up handle_mouse_leave handle_reset_zoom
perform to_iso scale (press x) s = handle_mouse_down x s
perform to_iso scale (move x) s = handle_mouse_move x s
perform to_iso scale release s = handle_mouse_up to_iso scale s
perform to_iso scale leave s = handle_mouse_leave to_iso scale s
perform to_iso scale double_click s = handle_reset_zoom s
perform to_iso scale reset s = handle_reset_zoom s

-- The local calendar of a time in milliseconds; months count from 0.
pub record Clock : Type 0 where
  pub year : ℤ → ℕ
  pub month : ℤ → ℕ
  pub date : ℤ → ℕ
  pub hours : ℤ → ℕ
  pub minutes : ℤ → ℕ

-- The `title` callback of the tooltips, at the time of the first point if there is one.
unfoldable pub tooltip_title : Clock → String → Option ℤ → String
unfolding pad
tooltip_title clock time_range none = ""
tooltip_title clock time_range (some t) =
    let day = text (decimal (clock.month t + 1) ∷ "/" ∷ decimal (clock.date t) ∷ []) in
    if time_range == "1h" || (time_range == "6h" || time_range == "24h")
    then text (day ∷ ", " ∷ pad (pos (clock.hours t)) ∷ ":" ∷ pad (pos (clock.minutes t)) ∷ [])
    else text (day ∷ "/" ∷ decimal (clock.year t) ∷ [])
