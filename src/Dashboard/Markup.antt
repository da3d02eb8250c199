-- ===== src/Dashboard/Markup.antt =====
-- What the page of frontend/src/app/dashboard/page.tsx renders, and what its controls and the callbacks of
-- its sections do.
use telemetryhub.Common.{
  String, List, [], ◌∷◌, ◌++◌, Option, none, some, Bool, true, false, ◌==◌, string_eq,
  if◌then◌else◌,
}
use telemetryhub.Js.Text.{is_empty, trim}
use telemetryhub.Api.Types.{DeviceGroup}
use telemetryhub.Ui.{Widget, shows, spinner, button, input, child, change, key_down, when}
use telemetryhub.Handler.{M, pure, modify}
use telemetryhub.Reorder.{up, down}
use telemetryhub.DeviceSection.View.{
  SectionProps, Callback, moves_up, moves_down, deletes, renames_to,
}
use telemetryhub.Dashboard.{Page, View, Shown, waiting, loading, no_devices, sections, view}
use telemetryhub.Dashboard.Handlers.{
  handle_create_group, handle_rename_group, handle_delete_group, handle_move_group,
}

pub data Action : Type 0 where
  set_name : String → Action
  create : Action

-- A section, with the group that its handlers are for; they are left out for the devices without one.
pub record Element : Type 0 where
  pub group : Option DeviceGroup
  pub props : SectionProps

abbrev has_group : Option DeviceGroup → Bool
has_group none = false
has_group (some g) = true

abbrev name_of : Option DeviceGroup → String
name_of none = "Ungrouped"
name_of (some g) = g.name

unfoldable pub section_props : Bool → List DeviceGroup → Shown → SectionProps
section_props is_admin groups s = record {
  group_name = name_of s.title;
  devices = s.devices;
  is_admin = is_admin;
  sort_order = s.sort_order;
  total_groups = s.total_groups;
  available_groups = groups;
  can_rename = has_group s.title;
  can_delete = has_group s.title;
  can_assign = true;
}

unfoldable pub section_elements :
    Bool → List DeviceGroup → List Shown → List (Widget Action Element)
section_elements is_admin groups [] = []
section_elements is_admin groups (s ∷ ss) =
    child (record { group = s.title; props = section_props is_admin groups s })
    ∷ section_elements is_admin groups ss

-- The title and, for an administrator, the input of a new group.
unfoldable pub header : Bool → Page → List (Widget Action Element)
unfolding when
header is_admin p =
    shows "Dashboard"
    ∷ when is_admin (
        input "New group name" p.new_group_name
          (change set_name ∷ key_down (λ key. if key == "Enter" then some create else none) ∷ [])
        ∷ button "Add Group" (is_empty (trim p.new_group_name)) create
        ∷ [])

-- The page below the navigation bar, by what `view` says is shown.
unfoldable pub render : Bool → Page → View → List (Widget Action Element)
unfolding section_elements
render is_admin p waiting = spinner ∷ []
render is_admin p loading = header is_admin p ++ spinner ∷ []
render is_admin p no_devices =
    header is_admin p
    ++ shows "No devices found" ∷ shows "Connect an MQTT broker to start receiving data." ∷ []
render is_admin p (sections ss) = header is_admin p ++ section_elements is_admin p.groups ss

unfoldable pub page : Bool → Bool → Bool → Page → List (Widget Action Element)
unfolding view render
page auth_loading has_user is_admin p = render is_admin p (view auth_loading has_user p)

-- `seen` is the page when its elements were made.
unfoldable pub perform : Page → Action → M Page (Unit {0})
unfolding handle_create_group
perform seen (set_name t) = modify (λ s. record s { new_group_name = t })
perform seen create = handle_create_group seen

-- What the page does for a section; without a group there is no handler.
unfoldable pub answer : Page → Option DeviceGroup → Callback → M Page (Unit {0})
unfolding handle_move_group handle_rename_group handle_delete_group
answer seen none c = pure tt
answer seen (some g) moves_up = handle_move_group seen g.id up
answer seen (some g) moves_down = handle_move_group seen g.id down
answer seen (some g) (renames_to name) = handle_rename_group g.id name
answer seen (some g) deletes = handle_delete_group seen g.id
