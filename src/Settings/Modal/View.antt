-- ===== src/Settings/Modal/View.antt =====
-- What `DeviceSettingsModal` and its tab `SensorsTab` render, and what the controls do. The dialog and its
-- tabs are a library's: what is listed is the content of the dialog, with the panels of all tabs.
use telemetryhub.Common.{
  String, List, [], ◌∷◌, ◌++◌, Option, Bool, true, false, string_eq, if◌then◌else◌,
}
use telemetryhub.Js.Text.{text}
use telemetryhub.Api.Types.{Device, FieldRename}
use telemetryhub.Handler.{M, modify}
use telemetryhub.Ui.{Widget, shows, button, input, child, change, when}
use telemetryhub.DevicePage.State.{find_rename}
use telemetryhub.Settings.Context.{GroupContext, group_context, all_groups_sorted, filtered_fields}
use telemetryhub.Settings.Modal.{Modal, handle_save_device, handle_delete_device, save_disabled}

pub data Action : Type 0 where
  set_open : Bool → Action
  set_name search : String → Action
  save delete : Action

-- The props of a field's card, and of the tabs for groups and for the export.
pub data Element : Type 0 where
  field_config_card : String → Option FieldRename → GroupContext → List String → Element
  groups_tab : List FieldRename → GroupContext → List String → Element
  export_tab : List String → List FieldRename → GroupContext → List String → Element

abbrev is_nil {ℓ} : {A : Type ℓ} → List A → Bool
is_nil [] = true
is_nil (x ∷ xs) = false

unfoldable pub field_cards :
    List FieldRename → GroupContext → List String → List String → List (Widget Action Element)
field_cards renames c all_groups [] = []
field_cards renames c all_groups (f ∷ fs) =
    child (field_config_card f (find_rename f renames) c all_groups)
    ∷ field_cards renames c all_groups fs

module _ (lower : String → String) (device : Device) (device_id : String) (fields : List String)
    (renames : List FieldRename) where
  abbrev context : GroupContext
  context = group_context renames

  abbrev all_groups : List String
  all_groups = all_groups_sorted context

  unfoldable pub sensors_tab : Modal → List (Widget Action Element)
  unfolding filtered_fields field_cards
  sensors_tab s =
      let found = filtered_fields lower s.search_query renames fields in
      shows "Sensors / Fields Configuration"
      ∷ input "Search by ID or name..." s.search_query (change search ∷ [])
      ∷ (if is_nil fields
          then shows "No fields available for this device." ∷ []
          else if is_nil found
          then shows (text ("No sensors found matching \"" ∷ s.search_query ∷ "\"." ∷ [])) ∷ []
          else field_cards renames context all_groups found)

  unfoldable pub view : Bool → Modal → List (Widget Action Element)
  unfolding when sensors_tab save_disabled
  view is_admin s =
      shows "Device Settings"
        ∷ shows "Manage device details and sensor configurations."
        ∷ shows "General Settings"
        ∷ input "Device Name" s.device_name (change set_name ∷ [])
        ∷ button "Save" (save_disabled device device_id s) save
        ∷ shows "Danger Zone"
        ∷ shows "Delete this device"
        ∷ shows "This will permanently remove the device and all its data."
        ∷ button "Delete" s.is_deleting_device delete
        ∷ shows "Sensors"
        ∷ shows "Groups"
        ∷ when is_admin (shows "Export Data" ∷ [])
      ++ sensors_tab s
      ++ child (groups_tab renames context all_groups)
        ∷ when is_admin (child (export_tab fields renames context all_groups) ∷ [])

  unfoldable pub perform : Modal → Action → M Modal (Unit {0})
  unfolding handle_save_device handle_delete_device
  perform seen (set_open b) = modify (λ s. record s { open? = b })
  perform seen (set_name t) = modify (λ s. record s { device_name = t })
  perform seen (search t) = modify (λ s. record s { search_query = t })
  perform seen save = handle_save_device device device_id seen
  perform seen delete = handle_delete_device device device_id
