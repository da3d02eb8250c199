-- ===== src/Settings/Card/View.antt =====
-- What `FieldConfigCard` renders, and what its controls do.
use telemetryhub.Common.{String, List, [], ◌∷◌, ◌++◌, Option}
use telemetryhub.Js.Text.{text, decimal}
use telemetryhub.Api.Types.{FieldRename}
use telemetryhub.Handler.{M, modify}
use telemetryhub.Ui.{Widget, shows, button, input, change, NoChild, when}
use telemetryhub.Settings.Context.{GroupContext}
use telemetryhub.Settings.Card.{Card, handle_save, handle_delete, sibling_count, in_group}

pub data Action : Type 0 where
  set_display_name set_unit set_chart_group set_sub_group : String → Action
  save delete : Action

unfoldable pub view : String → GroupContext → Card → List (Widget Action NoChild)
unfolding when in_group sibling_count
view field c s =
    shows field
      ∷ when (in_group c s) (
          shows (text (decimal (sibling_count c s) ∷ " sensors in \"" ∷ s.chart_group ∷ "\"" ∷ []))
          ∷ [])
    ++ button "" s.is_deleting delete
      ∷ shows "Display Name"
      ∷ input field s.display_name (change set_display_name ∷ [])
      ∷ shows "Unit (Y-Axis)"
      ∷ input "e.g., °C, %, v" s.unit (change set_unit ∷ [])
      ∷ shows "Chart Group"
      ∷ input "e.g., Temperature" s.chart_group (change set_chart_group ∷ [])
      ∷ shows "Sub Group (Optional)"
      ∷ input "e.g., Indoor" s.sub_group (change set_sub_group ∷ [])
      ∷ button "Save Config" s.is_saving save
      ∷ []

unfoldable pub perform : String → String → Option FieldRename → Card → Action → M Card (Unit {0})
unfolding handle_save handle_delete
perform device_id field rename seen (set_display_name t) =
    modify (λ s. record s { display_name = t })
perform device_id field rename seen (set_unit t) = modify (λ s. record s { unit = t })
perform device_id field rename seen (set_chart_group t) = modify (λ s. record s { chart_group = t })
perform device_id field rename seen (set_sub_group t) = modify (λ s. record s { sub_group = t })
perform device_id field rename seen save = handle_save device_id field rename seen
perform device_id field rename seen delete = handle_delete device_id field rename
