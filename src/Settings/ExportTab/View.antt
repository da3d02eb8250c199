-- ===== src/Settings/ExportTab/View.antt =====
-- What `ExportTab` renders, and what its controls do.
use telemetryhub.Common.{
  String, List, [], ◌∷◌, ◌++◌, Option, none, some, not, ◌&&◌, length, leb, ◌==◌, nat_eq, string_eq,
  if◌then◌else◌,
}
use telemetryhub.Common.Int.{ℤ}
use telemetryhub.Js.Map.{includes}
use telemetryhub.Js.Text.{text, is_empty, decimal}
use telemetryhub.Api.Types.{FieldRename, Format, csv, json}
use telemetryhub.Handler.{M, modify}
use telemetryhub.Ui.{Widget, shows, button, checkbox, child, when, each}
use telemetryhub.Settings.Context.{GroupContext}
use telemetryhub.Settings.ExportTab.{
  Tab, ungrouped_fields, fields_of, every_has, toggle_field, toggle_group, select_all, clear_all,
  range_valid, can_download, handle_download,
}

pub data Action : Type 0 where
  all clear : Action
  set_group set_field : String → Action
  set_from set_to : String → Action
  download : Format → Action

-- The props of a `DateTimePicker`: the value, the placeholder, and the action of a new value.
pub record Picker : Type 0 where
  pub value : String
  pub placeholder : String
  pub on_change : String → Action

unfoldable pub field_row : Tab → String → List (Widget Action Picker)
unfolding includes
field_row s f = checkbox (includes s.selected f) (set_field f) ∷ shows f ∷ []

unfoldable pub group_rows : GroupContext → Tab → String → List (Widget Action Picker)
unfolding each field_row every_has
group_rows c s g =
    let fs = fields_of c g in
    checkbox (every_has s.selected fs && not (leb (length fs) 0)) (set_group g)
    ∷ shows g
    ∷ shows (text (decimal (length fs) ∷ " sensor" ∷ (if length fs == 1 then "" else "s") ∷ []))
    ∷ each (field_row s) fs

abbrev pub ungrouped_part : Tab → List String → List (Widget Action Picker)
ungrouped_part s [] = []
ungrouped_part s (f ∷ fs) = shows "Ungrouped" ∷ each (field_row s) (f ∷ fs)

unfoldable pub selection_tree :
    GroupContext → List String → List String → Tab → List (Widget Action Picker)
unfolding each group_rows field_row
selection_tree c [] [] s = shows "No sensors available for this device." ∷ []
selection_tree c all_groups ungrouped s =
    each (group_rows c s) all_groups ++ ungrouped_part s ungrouped

abbrev pub error_text : Option String → List (Widget Action Picker)
error_text none = []
error_text (some e) = if is_empty e then [] else shows e ∷ []

module _ (time_of : String → Option ℤ) (to_iso : ℤ → String) where
  unfoldable pub range_view : Tab → List (Widget Action Picker)
  unfolding when range_valid
  range_view s =
      shows "Time range"
      ∷ shows "From"
      ∷ child (record {
        value = s.from;
        placeholder = "Select start date & time";
        on_change = set_from;
      })
      ∷ shows "To"
      ∷ child (record { value = s.to; placeholder = "Select end date & time"; on_change = set_to })
      ∷ when (not (is_empty s.from) && (not (is_empty s.to) && not (range_valid time_of to_iso s)))
          (shows "\"To\" must be after \"From\"." ∷ [])

  unfoldable pub view :
      GroupContext
      → List String
      → List FieldRename
      → List String
      → Tab
      → List (Widget Action Picker)
  unfolding selection_tree range_view can_download when ungrouped_fields
  view c fields renames all_groups s =
      shows "Export Data"
        ∷ button "Select all" (leb (length fields) 0) all
        ∷ button "Clear" (leb (length s.selected) 0) clear
        ∷ shows "Select sensors, pick a time range, then download the readings as CSV or JSON."
        ∷ shows "Sensors"
        ∷ selection_tree c all_groups (ungrouped_fields renames fields) s
      ++ range_view s
      ++ button "Download CSV" (not (can_download time_of to_iso s)) (download csv)
        ∷ button "Download JSON" (not (can_download time_of to_iso s)) (download json)
        ∷ error_text s.error

  unfoldable pub perform : String → GroupContext → List String → Tab → Action → M Tab (Unit {0})
  unfolding toggle_field toggle_group select_all clear_all handle_download
  perform device_id c fields seen all = modify (select_all fields)
  perform device_id c fields seen clear = modify clear_all
  perform device_id c fields seen (set_group g) =
      modify (λ s. record s { selected = toggle_group c g s.selected })
  perform device_id c fields seen (set_field f) =
      modify (λ s. record s { selected = toggle_field f s.selected })
  perform device_id c fields seen (set_from t) = modify (λ s. record s { from = t })
  perform device_id c fields seen (set_to t) = modify (λ s. record s { to = t })
  perform device_id c fields seen (download format) =
      handle_download time_of to_iso device_id seen format
