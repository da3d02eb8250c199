-- ===== src/DevicePage/Chart.antt =====
-- `FieldChart` and `GroupChart`: the part of the readings that a chart plots, its zoom and its
-- tooltip. Coordinates are in whole pixels. Parameters of the model: the parser of dates and its
-- inverse, and the chart library's scale from pixels to times.
pub mod Dragging
pub mod Tooltip
pub mod View
pub mod Steps
pub mod Options
use telemetryhub.Common.{
  ℕ, suc, ◌+◌, ◌%◌, String, List, [], ◌∷◌, ◌++◌, map, Option, none, some, Bool, true, false, not,
  ◌&&◌, ◌||◌, filter, length, get_elem?, ltb, if◌then◌else◌, ◌==◌, string_eq,
}
use telemetryhub.Common.Int.{ℤ, pos, ltb_ℤ, leb_ℤ, ◌-ℤ◌, pos_part, neg_part}
use telemetryhub.Js.Text.{text, is_empty}
use telemetryhub.Api.Types.{ReadingData, Decimal, FieldRename}
use telemetryhub.DevicePage.State.{get_display_name, get_unit}

abbrev pub colors : List String
colors =
    "#3b82f6" ∷ "#22c55e" ∷ "#f59e0b" ∷ "#ef4444" ∷ "#8b5cf6" ∷ "#ec4899" ∷ "#06b6d4" ∷ "#84cc16"
    ∷ "#f97316" ∷ "#6366f1" ∷ []

-- `COLORS[i % COLORS.length]`
unfoldable pub color_of : ℕ → Option String
color_of i = get_elem? colors (i % length colors)

pub record Zoom : Type 0 where
  pub from : String
  pub to : String

pub record Drag : Type 0 where
  pub active : Bool
  pub start_x : ℤ
  pub cur_x : ℤ

pub record ChartState : Type 0 where
  pub zoom_range : Option Zoom
  pub drag_state : Option Drag

abbrev pub idle : ChartState
idle = record { zoom_range = none; drag_state = none }

abbrev pub min_ℤ : ℤ → ℤ → ℤ
min_ℤ a b = if leb_ℤ a b then a else b

abbrev pub max_ℤ : ℤ → ℤ → ℤ
max_ℤ a b = if leb_ℤ a b then b else a

-- `Math.abs(a - b)`
unfoldable pub distance : ℤ → ℤ → ℕ
unfolding ◌-ℤ◌
distance a b = pos_part (a -ℤ b) + neg_part (a -ℤ b)

-- `getChartX`; the left edge of the container, if it is mounted
unfoldable pub get_chart_x : Option ℤ → ℤ → ℤ
unfolding ◌-ℤ◌
get_chart_x none client_x = pos 0
get_chart_x (some left) client_x = client_x -ℤ left

unfoldable pub handle_mouse_down : ℤ → ChartState → ChartState
handle_mouse_down x s = record s {
  drag_state = some (record { active = true; start_x = x; cur_x = x });
}

unfoldable pub handle_mouse_move : ℤ → ChartState → ChartState
handle_mouse_move x s = elim s.drag_state [
  | none ↦ s
  | some d ↦ if d.active then record s { drag_state = some (record d { cur_x = x }) } else s
]

-- The argument is the scale of the mounted chart: it takes a pixel to a time.
module _ (to_iso : ℤ → String) (scale : Option (ℤ → ℤ)) where
  unfoldable pub handle_mouse_up : ChartState → ChartState
  handle_mouse_up s = elim s.drag_state [
    | none ↦ s
    | some d ↦
        let released = record s { drag_state = none } in
        if not d.active
        then s
        else if ltb (distance d.cur_x d.start_x) 10
        then released
        else elim scale [
          | none ↦ released
          | some time_at ↦ record released {
            zoom_range = some (record {
              from = to_iso (time_at (min_ℤ d.start_x d.cur_x));
              to = to_iso (time_at (max_ℤ d.start_x d.cur_x));
            });
          }
        ]
  ]

  -- `onMouseLeave`
  unfoldable pub handle_mouse_leave : ChartState → ChartState
  unfolding handle_mouse_up
  handle_mouse_leave s = elim s.drag_state [
    | none ↦ s
    | some d ↦ if d.active then handle_mouse_up s else s
  ]

-- `handleResetZoom`, and the effect on `resetTrigger`
unfoldable pub handle_reset_zoom : ChartState → ChartState
handle_reset_zoom s = record s { zoom_range = none }

abbrev le_time : Option ℤ → Option ℤ → Bool
le_time none b = false
le_time (some a) none = false
le_time (some a) (some b) = leb_ℤ a b

-- `allFieldData`
unfoldable pub all_field_data : List ReadingData → String → List ReadingData
all_field_data readings field = filter (λ r. r.field_name == field) readings

-- A point of a dataset.
pub record Point : Type 0 where
  pub x : Option ℤ
  pub y : Decimal

pub record Dataset : Type 0 where
  pub label : String
  pub points : List Point
  pub color : Option String

module _ (time_of : String → Option ℤ) where
  -- Comparisons with NaN fail.
  abbrev pub in_range : Zoom → ReadingData → Bool
  in_range z r =
      le_time (time_of z.from) (time_of r.bucket) && le_time (time_of r.bucket) (time_of z.to)

  unfoldable pub zoomed : Option Zoom → List ReadingData → List ReadingData
  zoomed none rs = rs
  zoomed (some z) rs = filter (in_range z) rs

  -- `fieldData`: what a `FieldChart` plots
  unfoldable pub field_data : Option Zoom → List ReadingData → String → List ReadingData
  field_data zoom readings field = zoomed zoom (all_field_data readings field)

  abbrev point : ReadingData → Point
  point r = record { x = time_of r.bucket; y = r.value }

  unfoldable pub dataset : String → ℕ → List ReadingData → Dataset
  unfolding color_of
  dataset label index rs = record { label = label; points = map point rs; color = color_of index }

  -- `datasets` of a `GroupChart`, numbered from i
  unfoldable pub datasets_from :
      ℕ → Option Zoom → List ReadingData → List FieldRename → List String → List Dataset
  unfolding dataset zoomed get_display_name
  datasets_from i zoom readings renames [] = []
  datasets_from i zoom readings renames (f ∷ fs) =
      dataset (get_display_name renames f) i
        (filter (λ r. r.field_name == f) (zoomed zoom readings))
      ∷ datasets_from (suc i) zoom readings renames fs

-- `primaryUnit`
unfoldable pub primary_unit : List FieldRename → String → List String → String
unfolding get_unit
primary_unit renames unit [] = unit
primary_unit renames unit (f ∷ fs) =
    primary_unit renames (if is_empty unit then get_unit renames f else unit) fs

-- The reading of which the tooltip at a plotted index shows the extremes, in either chart.
unfoldable pub tooltip_item : List ReadingData → String → ℕ → Option ReadingData
tooltip_item readings field index = get_elem? (filter (λ r. r.field_name == field) readings) index

abbrev unit_suffix : String → String
unit_suffix unit = if is_empty unit then "" else text (" " ∷ unit ∷ [])

module _ (to_fixed : Decimal → String) where
  abbrev extremes : ReadingData → String → List String
  extremes item unit =
      text ("  Max: " ∷ to_fixed item.max_value ∷ unit_suffix unit ∷ [])
      ∷ text ("  Min: " ∷ to_fixed item.min_value ∷ unit_suffix unit ∷ [])
      ∷ []

  abbrev value_text : Option Decimal → String
  value_text none = "N/A"
  value_text (some v) = to_fixed v

  abbrev first_line : String → Option Decimal → String → String
  first_line name val unit = text (name ∷ ": " ∷ value_text val ∷ unit_suffix unit ∷ [])

  -- the `label` callback of a `FieldChart`
  unfoldable pub field_tooltip :
      List ReadingData → String → String → String → ℕ → Option Decimal → List String
  unfolding text tooltip_item
  field_tooltip readings field name unit index val = elim (tooltip_item readings field index) [
    | none ↦ "" ∷ []
    | some item ↦ first_line name val unit ∷ extremes item unit
  ]

  -- the `label` callback of a `GroupChart`
  unfoldable pub group_tooltip :
      List ReadingData → List FieldRename → List String → ℕ → ℕ → Option Decimal → List String
  unfolding text tooltip_item get_display_name get_unit
  group_tooltip readings renames fields dataset_index index val =
      elim (get_elem? fields dataset_index) [
        | none ↦ "" ∷ []
        | some field ↦
            let unit = get_unit renames field in
            let first = first_line (get_display_name renames field) val unit in
            elim (tooltip_item readings field index) [
              | none ↦ first ∷ []
              | some item ↦ first ∷ extremes item unit
            ]
      ]
