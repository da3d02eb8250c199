-- ===== src/Backend/Devices.antt =====
-- backend/internal/server/store_adapter.go on the tables of devices and their groups, as the migrations make
-- them, with the handlers of devices.go and device_groups.go of backend/internal/handlers that change them. Whether
-- the database executes a statement is a parameter. A transaction that fails changes nothing.
pub mod Deleted
pub mod Cached
pub mod Renamed
pub mod Reordered
pub mod Members
use telemetryhub.Common.{
  ℕ, suc, ◌+◌, String, List, [], ◌∷◌, ◌++◌, map, Option, none, some, Bool, true, false, not, ◌&&◌,
  ◌||◌, ◌==◌, string_eq, nat_eq, if◌then◌else◌, filter, leb,
}
use telemetryhub.Js.Text.{is_empty, missing_or}
use telemetryhub.Backend.ReadingsCache.{Cache}
use telemetryhub.Backend.Access.{Reply, refuse, respond}

-- A row of `devices`, without the times and the broker, which the handlers do not write.
pub record DeviceRow : Type 0 where
  pub id : String
  pub name : String
  pub device_type : String
  pub group_id : Option ℕ

pub record GroupRow : Type 0 where
  pub id : ℕ
  pub name : String
  pub sort_order : ℕ

-- The readings and the renames are the devices and fields that they are of; the cache is that of the store adapter.
pub record Db : Type 0 where
  pub devices : List DeviceRow
  pub groups : List GroupRow
  pub raw_payloads : List String
  pub readings : List (String × String)
  pub field_renames : List (String × String)
  pub cache : Cache (List (String × String))

-- `UpdateDevice` of the store
unfoldable pub store_device : String → String → String → Db → Db
store_device device_id name device_type db = record db {
  devices =
      map
        (λ d. if d.id == device_id then record d { name = name; device_type = device_type } else d)
        db.devices;
}

-- `UpdateDevice` of the handler, with the properties of the body: Bind leaves the empty text where one is
-- missing.
unfoldable pub update_device :
    Bool → String → Option String → Option String → Db → Reply String × Db
unfolding store_device
update_device works device_id name device_type db =
    if works
    then (
      respond 200 "Device updated",
      store_device device_id (missing_or name "") (missing_or device_type "") db,
    )
    else (refuse 500 "Failed to update device", db)

pub data Table : Type 0 where
  raw_payloads_of readings_of field_renames_of devices_of : Table

abbrev of_device : String → List (String × String) → List (String × String)
of_device device_id = filter (λ p. not (p.0 == device_id))

-- `DeleteDevice`, whose statements stand in one transaction.
unfoldable pub delete_device : (Table → Bool) → String → Db → Reply String × Db
unfolding filter
delete_device works device_id db =
    if works raw_payloads_of && works readings_of && works field_renames_of && works devices_of
    then (
      respond 200 "Device deleted",
      record db {
        raw_payloads = filter (λ d. not (d == device_id)) db.raw_payloads;
        readings = of_device device_id db.readings;
        field_renames = of_device device_id db.field_renames;
        devices = filter (λ d. not (d.id == device_id)) db.devices;
      },
    )
    else (refuse 500 "Failed to delete device", db)

abbrev without_field : String → String → List (String × String) → List (String × String)
without_field device_id field = filter (λ p. not (p.0 == device_id && p.1 == field))

-- `DeleteDeviceField`
unfoldable pub delete_device_field : (Table → Bool) → String → String → Db → Reply String × Db
unfolding filter
delete_device_field works device_id field db =
    if works readings_of && works field_renames_of
    then (
      respond 200 "Field data deleted",
      record db {
        readings = without_field device_id field db.readings;
        field_renames = without_field device_id field db.field_renames;
      },
    )
    else (refuse 500 "Failed to delete field data", db)

-- The statement of `ReorderDeviceGroups` for one group, and its loop from an index on.
unfoldable pub place_group : ℕ → ℕ → List GroupRow → List GroupRow
place_group id i = map (λ g. if g.id == id then record g { sort_order = i } else g)

unfoldable pub place_groups : ℕ → List ℕ → List GroupRow → List GroupRow
unfolding place_group
place_groups i [] groups = groups
place_groups i (id ∷ order) groups = place_groups (suc i) order (place_group id i groups)

-- `Reorder` of the handler and `ReorderDeviceGroups`.
unfoldable pub reorder : Bool → List ℕ → Db → Reply String × Db
unfolding place_groups
reorder works [] db = (refuse 400 "Order array is required", db)
reorder works (id ∷ order) db =
    if works
    then (respond 200 "ok", record db { groups = place_groups 0 (id ∷ order) db.groups })
    else (refuse 500 "Failed to reorder groups", db)

-- `Delete` of a group: ON DELETE SET NULL takes its devices out of it.
unfoldable pub delete_group : Bool → ℕ → Db → Reply String × Db
unfolding filter
delete_group works id db =
    if works
    then (
      respond 200 "ok",
      record db {
        groups = filter (λ g. not (g.id == id)) db.groups;
        devices =
            map
              (λ d. elim d.group_id [
                | none ↦ d
                | some g ↦ if g == id then record d { group_id = none } else d
              ])
              db.devices;
      },
    )
    else (refuse 500 "Failed to delete group", db)

-- `COALESCE(MAX(sort_order), -1) + 1`
unfoldable pub next_order : List GroupRow → ℕ
next_order [] = 0
next_order (g ∷ groups) =
    let rest = next_order groups in if leb rest g.sort_order then suc g.sort_order else rest

unfoldable pub has_group : ℕ → List GroupRow → Bool
has_group id [] = false
has_group id (g ∷ groups) = g.id == id || has_group id groups

-- The name of a group is unique, but for the group that is renamed.
unfoldable pub has_name : String → List GroupRow → Bool
has_name name [] = false
has_name name (g ∷ groups) = g.name == name || has_name name groups

-- `Create`, given the number that the table's sequence has next.
unfoldable pub create_group : Bool → ℕ → Option String → Db → Reply GroupRow × Db
unfolding next_order has_name
create_group works id name db =
    let row : GroupRow = record {
      id = id;
      name = missing_or name "";
      sort_order = next_order db.groups;
    } in
    if is_empty (missing_or name "")
    then (refuse 400 "Name is required", db)
    else if not works || has_name (missing_or name "") db.groups
    then (refuse 500 "Failed to create group", db)
    else (respond 201 row, record db { groups = db.groups ++ row ∷ [] })

-- `Update` of a group
unfoldable pub rename_group : Bool → ℕ → Option String → Db → Reply String × Db
unfolding has_name filter
rename_group works id name db =
    if is_empty (missing_or name "")
    then (refuse 400 "Name is required", db)
    else if not works || has_name (missing_or name "") (filter (λ g. not (g.id == id)) db.groups)
    then (refuse 500 "Failed to update group", db)
    else (
      respond 200 "ok",
      record db {
        groups =
            map (λ g. if g.id == id then record g { name = missing_or name "" } else g) db.groups;
      },
    )

-- `SetDeviceGroup`: a group that is not there is refused by the foreign key.
unfoldable pub set_device_group : Bool → String → Option ℕ → Db → Reply String × Db
unfolding has_group
set_device_group works device_id group_id db =
    if not works || (elim group_id [ none ↦ false | some g ↦ not (has_group g db.groups) ])
    then (refuse 500 "Failed to assign device", db)
    else (
      respond 200 "ok",
      record db {
        devices =
            map (λ d. if d.id == device_id then record d { group_id = group_id } else d) db.devices;
      },
    )
