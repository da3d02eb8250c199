-- ===== src/Backend/Devices/Renamed.antt =====
-- What saving the name of a device in the settings stores.
use telemetryhub.Common.{
  String, List, [], ◌∷◌, map, none, some, true, if◌then◌else◌, ◌==◌, string_eq, ◌≡◌, refl, arith,
  All, filter, Bool-cases, inl, inr,
}
use telemetryhub.Api.Types.{Device}
use telemetryhub.Api.Calls.{Call}
use telemetryhub.Handler.{Env, run, calls}
use telemetryhub.Api.Replies.{Result-cases}
use telemetryhub.Settings.Modal.{Modal, handle_save_device}
use telemetryhub.Settings.Modal.Outcomes.{saved?}
use telemetryhub.Backend.Devices.{DeviceRow, Db, store_device, update_device}

-- What the server does with the calls of a handler, the newest first, that update a device.
unfoldable pub update_all : List Call → Db → Db
unfolding update_device
update_all [] db = db
update_all (Call.update_device device_id name device_type ∷ cs) db =
    (update_device true device_id name device_type (update_all cs db)).1
update_all (c ∷ cs) db = update_all cs db

calls-handle_save_device :
    (device : Device) (device_id : String) (env : Env Modal) (seen s : Modal)
    → calls (run (handle_save_device device device_id seen) env s).log
      ≡ Call.update_device device_id (some seen.device_name) none ∷ []
unfolding handle_save_device calls
calls-handle_save_device device device_id env seen s =
    elim (Result-cases (saved? device device_id env seen s)) [
      | inl (a, e) ↦ ground arith
      | inr (m, e) ↦ ground arith
    ]

store_device_sets :
    (device_id name device_type : String) (ds : List DeviceRow)
    → All
        (λ (d : DeviceRow). (d.name ≡ name) × (d.device_type ≡ device_type))
        (filter
          (λ (d : DeviceRow). d.id == device_id)
          (map
            (λ (d : DeviceRow).
              if d.id == device_id then record d { name = name; device_type = device_type } else d)
            ds))
unfolding filter
store_device_sets device_id name device_type [] = tt
store_device_sets device_id name device_type (d ∷ ds) = elim (Bool-cases (d.id == device_id)) [
  | inl hit ↦ rw (hit, hit) ((refl, refl), store_device_sets device_id name device_type ds)
  | inr miss ↦ rw (miss, miss) (store_device_sets device_id name device_type ds)
]

-- Saving the name of a device in the settings makes the server store the name, and the empty text as
-- the type of the device, whatever type it had.
pub save_device_loses_type :
    (device : Device) (device_id : String) (env : Env Modal) (seen s : Modal) (db : Db)
    → All
        (λ (d : DeviceRow). (d.name ≡ seen.device_name) × (d.device_type ≡ ""))
        (filter
          (λ (d : DeviceRow). d.id == device_id)
          (update_all
            (calls (run (handle_save_device device device_id seen) env s).log)
            db).devices)
unfolding update_all update_device store_device
save_device_loses_type device device_id env seen s db =
    rw (calls-handle_save_device device device_id env seen s)
      (store_device_sets device_id seen.device_name "" db.devices)
