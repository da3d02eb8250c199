-- ===== src/Settings/Modal.antt =====
-- `DeviceSettingsModal`: renaming and deleting the device.
pub mod Outcomes
pub mod View
pub mod Elements
use telemetryhub.Common.{
  String, List, [], ◌∷◌, Option, none, some, Bool, true, false, not, ◌||◌, ◌==◌, string_eq,
}
use telemetryhub.Js.Text.{text, or_text}
use telemetryhub.Api.Types.{Device}
use telemetryhub.Api.Calls.{Call}
use telemetryhub.Handler.{
  M, pure, ◌>>=◌, ◌>>◌, modify, emit, confirm, call, try_catch, finally, only_if, pushed, alerted,
  updated_device, deleted_device,
}

pub record Modal : Type 0 where
  pub open? : Bool
  pub device_name : String
  pub is_saving_device : Bool
  pub is_deleting_device : Bool
  pub search_query : String

unfoldable pub start : Device → Modal
start device = record {
  open? = false;
  device_name = device.name;
  is_saving_device = false;
  is_deleting_device = false;
  search_query = "";
}

module _ (device : Device) (device_id : String) where
  unfoldable pub handle_save_device : Modal → M Modal (Unit {0})
  handle_save_device seen = do
    modify (λ s. record s { is_saving_device = true })
    finally
        (try_catch
          (do
            call (Call.update_device device_id (some seen.device_name) none)
            emit (updated_device (record device { name = seen.device_name })))
          (λ e. emit (alerted "Failed to update device name")))
        (modify (λ s. record s { is_saving_device = false }))

  abbrev pub delete_question : String
  delete_question = text (
      "Delete device "
      ∷ or_text device.name device_id
      ∷ "? This will remove all associated data."
      ∷ [])

  unfoldable pub handle_delete_device : M Modal (Unit {0})
  handle_delete_device = do
    agreed ← confirm delete_question
    only_if agreed (do
      modify (λ s. record s { is_deleting_device = true })
      finally
          (try_catch
            (do
              call (Call.delete_device device_id)
              emit deleted_device
              modify (λ s. record s { open? = false })
              emit (pushed "/dashboard"))
            (λ e. emit (alerted "Failed to delete device")))
          (modify (λ s. record s { is_deleting_device = false })))

  -- whether the buttons are disabled
  unfoldable pub save_disabled : Modal → Bool
  save_disabled m = m.is_saving_device || m.device_name == device.name
