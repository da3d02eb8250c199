-- ===== src/Popup.antt =====
-- The popovers of frontend/src/components: time-range-selector.tsx, field-selector.tsx, the group picker
-- of device-group-section.tsx and the dropdowns of date-time-picker.tsx. Each is open or closed, and
-- listens to the document while it is open.
pub mod Laws
use telemetryhub.Common.{
  String, List, [], ◌∷◌, Option, none, some, Bool, true, false, not, ◌&&◌, ◌||◌, ◌==◌, string_eq,
  if◌then◌else◌,
}

-- What a `ref` holds: nothing, or an element, as the test of containing a node.
abbrev pub Ref : Type 0 → Type 0
Ref Node = Option (Node → Bool)

-- `ref.current && !ref.current.contains(target)`
abbrev outside : {Node : Type 0} → Ref Node → Node → Bool
outside none target = false
outside (some inside) target = not (inside target)

-- `ref.current?.contains(target)`, as a condition
abbrev pub within : {Node : Type 0} → Ref Node → Node → Bool
within none target = false
within (some inside) target = inside target

-- The two flags of a selector: its popover on a wide screen and its drawer on a narrow one.
pub record Selector : Type 0 where
  pub open? : Bool
  pub drawer_open : Bool

abbrev pub closed : Selector
closed = record { open? = false; drawer_open = false }

module _ {Node : Type 0} where
  -- `handleClick` of the selectors: the click is outside the popover and outside the trigger
  unfoldable pub handle_click : Ref Node → Ref Node → Node → Selector → Selector
  handle_click popover_ref trigger_ref target s =
      if s.open? && (outside popover_ref target && outside trigger_ref target)
      then record s { open? = false }
      else s

  -- `handleClickOutside` of a device's card, and `onPointerDown` of a dropdown
  unfoldable pub handle_click_outside : Ref Node → Node → Bool → Bool
  handle_click_outside ref target is_open = if is_open && outside ref target then false else is_open

  -- `onPointerDown` of the date picker
  unfoldable pub handle_pointer_down : Ref Node → Ref Node → Node → Bool → Bool
  handle_pointer_down popover_ref trigger_ref target is_open =
      if is_open && not (within popover_ref target || within trigger_ref target)
      then false
      else is_open

-- `handleKey`, and `onKeyDown` of the others
unfoldable pub handle_key : String → Bool → Bool
handle_key key is_open = if is_open && key == "Escape" then false else is_open

unfoldable pub handle_trigger_click : Bool → Selector → Selector
handle_trigger_click mobile s =
    if mobile then record s { drawer_open = true } else record s { open? = not s.open? }

-- The selectors attach no element to their `triggerRef`, so it keeps its first value.
abbrev pub trigger_ref : {Node : Type 0} → Ref Node
trigger_ref = none

-- What a user does to a selector.
pub data Action (Node : Type 0) : Type 0 where
  click_trigger : Bool → Action Node
  press : String → Action Node
  -- a click anywhere, with the element of the popover
  click : Ref Node → Node → Action Node

unfoldable pub act : {Node : Type 0} → Action Node → Selector → Selector
unfolding handle_trigger_click handle_key handle_click
act (click_trigger mobile) s = handle_trigger_click mobile s
act (press key) s = record s { open? = handle_key key s.open? }
act (click popover_ref target) s = handle_click popover_ref trigger_ref target s
