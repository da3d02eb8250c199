-- ===== src/DeviceSection.antt =====
-- `DeviceGroupSection` and `DeviceCard` of frontend/src/components/device-group-section.tsx. A handler gives
-- the new state, and what it passes to the callback that it calls, if it calls one.
pub mod Buttons
pub mod View
pub mod Visitor
use telemetryhub.Common.{
  ℕ, suc, ◌+◌, ◌*◌, String, List, [], ◌∷◌, Option, none, some, Bool, true, false, not, ◌&&◌, leb,
  ◌==◌, string_eq, nat_eq, if◌then◌else◌,
}
use telemetryhub.Common.Int.{ℤ, pos, ◌-ℤ◌, ltb_ℤ}
use telemetryhub.Js.Text.{trim, is_empty, or_text}
use telemetryhub.Api.Types.{Device, DeviceGroup}
use telemetryhub.Popup.{Ref, handle_click_outside}

pub record Title : Type 0 where
  pub is_editing : Bool
  pub edit_name : String

abbrev pub start : String → Title
start group_name = record { is_editing = false; edit_name = group_name }

unfoldable pub handle_save : String → Title → Title × Option String
handle_save group_name s = (
  record s { is_editing = false },
  if not (is_empty (trim s.edit_name)) && not (s.edit_name == group_name)
      then some (trim s.edit_name)
      else none,
)

-- `onKeyDown` of the input
unfoldable pub handle_key_down : String → String → Title → Title × Option String
unfolding handle_save
handle_key_down group_name key s =
    if key == "Enter"
    then handle_save group_name s
    else if key == "Escape"
    then (record s { is_editing = false }, none)
    else (s, none)

-- A click on the title, or on the pencil.
unfoldable pub handle_edit : Bool → Bool → Title → Title
handle_edit is_admin can_rename s =
    if is_admin && can_rename then record s { is_editing = true } else s

-- `disabled` of the two buttons that move a group; `totalGroups - 1` is below 0 only for no group.
unfoldable pub up_disabled : ℕ → Bool
up_disabled sort_order = leb sort_order 0

unfoldable pub down_disabled : ℕ → ℕ → Bool
down_disabled sort_order total_groups = leb total_groups (suc sort_order)

-- `isOnline`, for the times in milliseconds; a date that does not parse is none.
unfoldable pub is_online : ℤ → Option ℤ → Bool
unfolding ◌-ℤ◌
is_online now none = false
is_online now (some last_seen) = ltb_ℤ (now -ℤ last_seen) (pos (15 * 60 * 1000))

-- `availableGroups.find((g) => g.id === device.group_id)`
unfoldable pub current_group : Option ℕ → List DeviceGroup → Option DeviceGroup
current_group none gs = none
current_group (some id) [] = none
current_group (some id) (g ∷ gs) = if g.id == id then some g else current_group (some id) gs

-- The text on the button of the picker.
unfoldable pub picker_label : Device → List DeviceGroup → String
unfolding current_group
picker_label device gs = elim (current_group device.group_id gs) [
  | none ↦ "No group"
  | some g ↦ or_text g.name "No group"
]

unfoldable pub toggle_picker : Bool → Bool
toggle_picker show_group_picker = not show_group_picker

-- An entry of the picker: what `onAssignDevice` gets, and the flag afterwards.
unfoldable pub pick : Device → Option ℕ → Bool → (String × Option ℕ) × Bool
pick device group_id show_group_picker = ((device.id, group_id), false)
