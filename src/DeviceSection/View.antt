-- ===== src/DeviceSection/View.antt =====
-- What `DeviceGroupSection` and `DeviceCard` of frontend/src/components/device-group-section.tsx render, and
-- what using their controls does. The handlers of a section that its parent left out are the flags
-- `can_rename`, `can_delete` and `can_assign`.
use telemetryhub.Common.{
  ℕ, String, List, [], ◌∷◌, ◌++◌, Option, none, some, Bool, false, not, ◌&&◌, length, ◌==◌,
  string_eq, nat_eq, if◌then◌else◌,
}
use telemetryhub.Common.Int.{ℤ}
use telemetryhub.Js.Text.{text, decimal, or_text}
use telemetryhub.Api.Types.{Device, DeviceGroup}
use telemetryhub.Ui.{
  Widget, shows, button, clickable, input, link, child, change, key_down, NoChild, when, each,
}
use telemetryhub.DeviceSection.{
  Title, handle_save, handle_key_down, handle_edit, up_disabled, down_disabled, is_online,
  picker_label, toggle_picker, pick,
}

pub record SectionProps : Type 0 where
  pub group_name : String
  pub devices : List Device
  pub is_admin : Bool
  pub sort_order : ℕ
  pub total_groups : ℕ
  pub available_groups : List DeviceGroup
  pub can_rename : Bool
  pub can_delete : Bool
  pub can_assign : Bool

pub record CardProps : Type 0 where
  pub device : Device
  pub is_admin : Bool
  pub available_groups : List DeviceGroup
  pub can_assign : Bool

-- What a user does in a section.
pub data Action : Type 0 where
  move_up move_down save cancel edit delete : Action
  change_name press : String → Action

-- The parent's handler that a section calls.
pub data Callback : Type 0 where
  moves_up moves_down deletes : Callback
  renames_to : String → Callback

-- `n device(s)`, in one text
abbrev pub count_text : ℕ → String → String
count_text n noun = text (decimal n ∷ " " ∷ noun ∷ (if n == 1 then "" else "s") ∷ [])

-- One card for each device.
unfoldable pub cards : SectionProps → List Device → List (Widget Action CardProps)
cards p [] = []
cards p (d ∷ ds) =
    child (record {
      device = d;
      is_admin = p.is_admin;
      available_groups = p.available_groups;
      can_assign = p.can_assign;
    })
    ∷ cards p ds

abbrev title_bar : SectionProps → Title → List (Widget Action CardProps)
title_bar p s =
    if s.is_editing
    then (input "" s.edit_name (change change_name ∷ key_down (λ key. some (press key)) ∷ [])
        ∷ button "" false save
        ∷ button "" false cancel
        ∷ [])
    else clickable p.group_name edit ∷ []

abbrev pub device_list : SectionProps → List (Widget Action CardProps)
device_list p = elim p.devices [
  | [] ↦ shows "No devices in this group" ∷ []
  | d ∷ ds ↦ cards p (d ∷ ds)
]

unfoldable pub section_view : SectionProps → Title → List (Widget Action CardProps)
unfolding cards when up_disabled down_disabled
section_view p s =
    when p.is_admin (
      button "Move group up" (up_disabled p.sort_order) move_up
      ∷ button "Move group down" (down_disabled p.sort_order p.total_groups) move_down
      ∷ [])
    ++ title_bar p s
    ++ shows (count_text (length p.devices) "device")
      ∷ when (p.is_admin && (not s.is_editing && p.can_rename)) (
          button "Rename group" false edit
          ∷ when p.can_delete (button "Delete group" false delete ∷ []))
    ++ device_list p

abbrev of_save : Title × Option String → Title × Option Callback
of_save (s, none) = (s, none)
of_save (s, some name) = (s, some (renames_to name))

-- What a control does: the new state, and the handler that is called.
unfoldable pub perform : SectionProps → Action → Title → Title × Option Callback
unfolding handle_save handle_key_down handle_edit
perform p move_up s = (s, some moves_up)
perform p move_down s = (s, some moves_down)
perform p save s = of_save (handle_save p.group_name s)
perform p cancel s = (record s { is_editing = false }, none)
perform p edit s = (handle_edit p.is_admin p.can_rename s, none)
perform p delete s = (s, some deletes)
perform p (change_name t) s = (record s { edit_name = t }, none)
perform p (press key) s = of_save (handle_key_down p.group_name key s)

-- What a user does at a card; `close` is a click beside the picker of a narrow screen.
pub data CardAction : Type 0 where
  toggle close : CardAction
  assign : Option ℕ → CardAction

-- `now` and `last_seen` are the times in milliseconds, `seen_text` is `toLocaleString` of the latter.
module _ (now : ℤ) (last_seen : Option ℤ) (seen_text : String) where
  unfoldable pub card_view : CardProps → Bool → List (Widget CardAction NoChild)
  unfolding when each is_online picker_label
  card_view p show_group_picker =
      link (text ("/dashboard/" ∷ p.device.id ∷ [])) none
        ∷ shows (or_text p.device.name p.device.id)
        ∷ shows (if is_online now last_seen then "Online" else "Offline")
        ∷ shows p.device.id
        ∷ shows (or_text p.device.broker_name "—")
        ∷ shows seen_text
        ∷ when (p.is_admin && p.can_assign)
            (button (picker_label p.device p.available_groups) false toggle ∷ [])
      ++ when (show_group_picker && (p.is_admin && p.can_assign)) (
          clickable "" close
          ∷ shows "Move to group"
          ∷ button "No group" false (assign none)
          ∷ each (λ g. button g.name false (assign (some g.id)) ∷ []) p.available_groups)

-- The flag of the picker afterwards, and what `onAssignDevice` gets.
unfoldable pub perform_card : CardProps → CardAction → Bool → Bool × Option (String × Option ℕ)
unfolding toggle_picker pick
perform_card p toggle b = (toggle_picker b, none)
perform_card p close b = (false, none)
perform_card p (assign group_id) b = let r = pick p.device group_id b in (r.1, some r.0)
