-- ===== src/Api/Calls.antt =====
-- The calls of frontend/src/lib/api.ts, one constructor for each function with the function's
-- arguments, and the type that each promises.
use telemetryhub.Common.{ℕ, String, Option, List}
use telemetryhub.Common.Int.{ℤ}
use telemetryhub.Api.Types.{
  Device, DeviceGroup, ReadingData, FieldRename, User, Session, CreatedGroup, Format, Blob,
}

pub data Call : Type 0 where
  login : String → String → Call
  register : String → String → String → Call
  get_me get_devices get_device_groups : Call
  get_device get_device_fields delete_device get_renames : String → Call
  get_readings : String → List String → String → String → Call
  update_device : String → Option String → Option String → Call
  delete_device_field delete_rename : String → String → Call
  create_rename update_rename :
      String → String → Option String → Option String → Option String → Option String → Call
  update_group_config : String → String → Option String → Option ℤ → Call
  update_sub_group_config : String → String → String → Option String → Option ℤ → Call
  create_device_group : String → Call
  update_device_group : ℕ → String → Call
  delete_device_group : ℕ → Call
  reorder_device_groups : List ℕ → Call
  set_device_group : String → Option ℕ → Call
  export_device_data : String → List String → String → String → Format → Call

-- `T` in the `Promise<T>` of the function; the body of the reply is taken at this type unchecked.
abbrev pub Answer : Call → Type 0
Answer (Call.login email password) = Session
Answer (Call.register email password confirm) = User
Answer Call.get_me = User
Answer Call.get_devices = List Device
Answer Call.get_device_groups = List DeviceGroup
Answer (Call.get_device device) = Device
Answer (Call.get_device_fields device) = List String
Answer (Call.get_renames device) = List FieldRename
Answer (Call.get_readings device fields from to) = List ReadingData
Answer (Call.create_device_group name) = CreatedGroup
Answer (Call.export_device_data device fields from to format) = Blob
Answer _ = Unit {0}
