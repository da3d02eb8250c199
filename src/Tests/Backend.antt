-- ===== src/Tests/Backend.antt =====
-- Runs of Backend.ReadingsCache, Backend.Fields, Backend.Devices and Backend.Renames.
use telemetryhub.Common.{
  ℕ, String, List, [], ◌∷◌, Option, none, some, Bool, true, false, ◌≡◌, ◌⊎◌, refl, arith, length,
  ◌-◌, ◌≤◌, All, filter, ◌==◌, nat_eq, string_eq,
}
use telemetryhub.Js.Map.{includes}
use telemetryhub.Js.Sort.{sort, sign_of}
use telemetryhub.Js.Text.{join}
use telemetryhub.Reorder.{up, move, find_index, target, swap}
use telemetryhub.Api.Types.{DeviceGroup}
use telemetryhub.Api.Replies.{Result, ok, err}
use telemetryhub.Handler.{run as run_handler, calls}
use telemetryhub.Dashboard.{Page, start, by_sort_order}
use telemetryhub.Dashboard.Handlers.{handle_move_group}
use telemetryhub.Settings.Modal.{start as start_modal, handle_save_device}
use telemetryhub.Backend.Access.{respond, refuse}
use telemetryhub.Backend.ReadingsCache.{get_readings}
use telemetryhub.Backend.ReadingsCache.Latest.{
  Use, looks, stores, run, last_stored, get_readings_lem,
}
use telemetryhub.Backend.ReadingsCache.Cap.{run-bounded}
use telemetryhub.Backend.Fields.{get_readings as handle_get_readings, time_or}
use telemetryhub.Backend.Fields.Asked.{get_readings-join}
use telemetryhub.Backend.Devices.{
  DeviceRow, GroupRow, Db, Table, delete_device, delete_group, set_device_group, has_group,
}
use telemetryhub.Backend.Devices.Deleted.{Gone, SameOf, delete_device_lem}
use telemetryhub.Backend.Devices.Renamed.{update_all, save_device_loses_type}
use telemetryhub.Backend.Devices.Reordered.{reorder_all, move_group_reorders}
use telemetryhub.Backend.Devices.Members.{
  Members, stay, step, sets_group, deletes_group, devices_stay_members,
}
use telemetryhub.Settings.Card.{Card}
use telemetryhub.Tests.Data.{device, group, online, distinct_texts}

abbrev uses : List (Use ℕ)
uses = looks 8 "k" ∷ stores 5 "l" 2 ∷ stores 3 "k" 1 ∷ []

get_readings_lem_example :
    let reply = (get_readings 30 10 11 "k" (err "closed") (run 30 1 uses)).0 in
    ((r : ℕ) × (t : ℕ) × (last_stored "k" uses ≡ some (r, t)) × (10 - t ≤ 30) × (reply ≡ ok r))
    ⊎ (reply ≡ err "closed")
get_readings_lem_example = get_readings_lem 30 1 10 11 "k" (err "closed") uses

run-bounded_example : length (run 30 1 uses) ≤ 1
run-bounded_example = run-bounded 30 1 uses (omega arith)

abbrev no_times : String → Option ℕ
no_times s = none

abbrev seven : String → List String → ℕ → ℕ → Result (List ℕ)
seven device fields from to = ok (7 ∷ [])

get_readings-join_example :
    handle_get_readings no_times 0 9 seven "d1" (join "," ("a" ∷ "b" ∷ [])) "" ""
    ≡ respond 200
        (record { device_id = "d1"; fields = "a" ∷ "b" ∷ []; from = 0; to = 9; readings = 7 ∷ [] })
unfolding time_or
get_readings-join_example =
    get_readings-join no_times 0 9 0 9 seven "d1" "a" ("b" ∷ []) "" "" (7 ∷ [])
      ((refl, (refl, tt)), ((refl, (refl, tt)), tt)) refl refl refl

abbrev row : String → Option ℕ → DeviceRow
row id g = record { id = id; name = id; device_type = "meter"; group_id = g }

abbrev db : Db
db = record {
  devices = row "d1" (some 1) ∷ row "d2" none ∷ [];
  groups =
      record { id = 1; name = "g"; sort_order = 0 }
      ∷ record { id = 2; name = "h"; sort_order = 1 }
      ∷ [];
  raw_payloads = "d1" ∷ [];
  readings = ("d1", "temp") ∷ ("d2", "temp") ∷ [];
  field_renames = ("d1", "temp") ∷ [];
  cache = [];
}

abbrev all_work : Table → Bool
all_work t = true

delete_device_lem_example :
    let done = delete_device all_work "d1" db in
    (((done.0 ≡ respond 200 "Device deleted") × Gone "d1" done.1)
      ⊎ ((done.0 ≡ refuse 500 "Failed to delete device") × (done.1 ≡ db)))
    × SameOf "d2" done.1 db
    × (done.1.cache ≡ db.cache)
delete_device_lem_example = delete_device_lem all_work "d1" "d2" db (distinct_texts "d2" "d1" refl)

save_device_loses_type_example :
    All
      (λ (d : DeviceRow). (d.name ≡ "d1") × (d.device_type ≡ ""))
      (filter
        (λ (d : DeviceRow). d.id == "d1")
        (update_all
          (calls
            (run_handler
              (handle_save_device (device "d1" none) "d1" (start_modal (device "d1" none)))
              online
              (start_modal (device "d1" none))).log)
          db).devices)
unfolding start_modal
save_device_loses_type_example =
    save_device_loses_type (device "d1" none) "d1" online (start_modal (device "d1" none))
      (start_modal (device "d1" none)) db

abbrev page : Page
page = record start { groups = group 1 0 ∷ group 2 1 ∷ [] }

h_moved :
    move (λ (x : DeviceGroup). x.id == 2) up (sort by_sort_order page.groups)
    ≡ some (group 2 1 ∷ group 1 0 ∷ [])
unfolding move sort by_sort_order find_index sign_of target swap
h_moved = refl

h_once : includes {A = ℕ} (1 ∷ []) 2 ≡ false
unfolding includes
h_once = refl

move_group_reorders_example :
    All
      (λ (r : GroupRow). r.sort_order ≡ 0)
      (filter
        (λ (r : GroupRow). r.id == 2)
        (reorder_all (calls (run_handler (handle_move_group page 2 up) online page).log) db).groups)
move_group_reorders_example =
    move_group_reorders online page page 2 up [] (group 1 0 ∷ []) (group 2 1) db h_moved h_once

abbrev assigned : Db
assigned = (set_device_group true "d2" (some 2) db).1

h_Members : Members db
unfolding has_group
h_Members = (refl, (refl, tt))

devices_stay_members_example : Members (delete_group true 2 assigned).1
devices_stay_members_example =
    devices_stay_members
      (step (step stay (sets_group db true "d2" (some 2))) (deletes_group assigned true 2))
      h_Members

abbrev card : Card
card = record {
  display_name = "Temp";
  unit = "C";
  chart_group = "Climate";
  sub_group = "";
  is_saving = false;
  is_deleting = false;
}
