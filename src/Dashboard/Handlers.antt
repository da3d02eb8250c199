-- ===== src/Dashboard/Handlers.antt =====
-- The handlers of the dashboard, `loadData` to `handleDeleteDevice`.
use telemetryhub.Common.{
  ℕ, String, List, [], ◌∷◌, map, Option, none, some, Bool, true, false, not, length, filter,
  if◌then◌else◌, ◌==◌, ltb, nat_eq, string_eq,
}
use telemetryhub.Js.Map.{get}
use telemetryhub.Js.Sort.{sort}
use telemetryhub.Js.Text.{text, trim, is_empty, decimal, missing_or}
use telemetryhub.Api.Types.{DeviceGroup}
use telemetryhub.Api.Calls.{Call}
use telemetryhub.Handler.{
  M, pure, ◌>>=◌, ◌>>◌, modify, emit, alerted, confirm, call, call_both, try_catch, finally,
  only_if, pushed,
}
use telemetryhub.Reorder.{Direction, move}
use telemetryhub.Dashboard.{Page, grouped_devices, by_sort_order}

-- The effect that sends a visitor without a user to the login page.
unfoldable pub guard_user : Bool → Bool → M Page (Unit {0})
guard_user auth_loading has_user =
    only_if (not auth_loading) (only_if (not has_user) (emit (pushed "/login")))

unfoldable pub load_data : Bool → M Page (Unit {0})
load_data has_user = only_if has_user (
    finally
      (try_catch
        (do
          (d, g) ← call_both Call.get_devices Call.get_device_groups
          modify (λ s. record s { devices = d; groups = g }))
        (λ e. modify (λ s. record s { devices = []; groups = [] })))
      (modify (λ s. record s { is_loading = false })))

unfoldable pub handle_create_group : Page → M Page (Unit {0})
unfolding load_data trim
handle_create_group seen =
    let trimmed = trim seen.new_group_name in
    only_if (not (is_empty trimmed)) (
      try_catch
        (do
          made ← call (Call.create_device_group trimmed)
          modify (λ s. record s { new_group_name = "" })
          load_data true)
        (λ e. emit (alerted "Failed to create group")))

unfoldable pub handle_rename_group : ℕ → String → M Page (Unit {0})
unfolding load_data
handle_rename_group id new_name =
    try_catch (do call (Call.update_device_group id new_name); load_data true)
      (λ e. emit (alerted "Failed to rename group"))

abbrev find_group : ℕ → List DeviceGroup → Option DeviceGroup
find_group id [] = none
find_group id (g ∷ gs) = if g.id == id then some g else find_group id gs

-- `${group?.name}`
abbrev group_name : Option DeviceGroup → String
group_name none = "undefined"
group_name (some g) = g.name

abbrev delete_message : Page → ℕ → String
delete_message seen id =
    let name = group_name (find_group id seen.groups) in
    let count = length (missing_or (get id (grouped_devices seen.devices).by_group) []) in
    if ltb 0 count
    then text (
        "Delete group \""
        ∷ name
        ∷ "\"? "
        ∷ decimal count
        ∷ " device(s) will become ungrouped."
        ∷ [])
    else text ("Delete empty group \"" ∷ name ∷ "\"?" ∷ [])

unfoldable pub handle_delete_group : Page → ℕ → M Page (Unit {0})
unfolding load_data
handle_delete_group seen id = do
  agreed ← confirm (delete_message seen id)
  only_if agreed (
      try_catch (do call (Call.delete_device_group id); load_data true)
        (λ e. emit (alerted "Failed to delete group")))

unfoldable pub handle_move_group : Page → ℕ → Direction → M Page (Unit {0})
unfolding load_data
handle_move_group seen id direction =
    elim (move (λ g. g.id == id) direction (sort by_sort_order seen.groups)) [
      | none ↦ pure tt
      | some reordered ↦
          try_catch
            (do call (Call.reorder_device_groups (map (λ g. g.id) reordered)); load_data true)
            (λ e. emit (alerted "Failed to reorder groups"))
    ]

unfoldable pub handle_assign_device : String → Option ℕ → M Page (Unit {0})
unfolding load_data
handle_assign_device device_id group_id =
    try_catch (do call (Call.set_device_group device_id group_id); load_data true)
      (λ e. emit (alerted "Failed to assign device"))

abbrev pub delete_question : String → String
delete_question device_id =
    text ("Delete device " ∷ device_id ∷ "? This will remove all associated data." ∷ [])

unfoldable pub handle_delete_device : Page → String → M Page (Unit {0})
handle_delete_device seen device_id = do
  agreed ← confirm (delete_question device_id)
  only_if agreed (
      try_catch
        (do
          call (Call.delete_device device_id)
          modify (λ s. record s { devices = filter (λ d. not (d.id == device_id)) seen.devices }))
        (λ e. emit (alerted "Failed to delete device")))
