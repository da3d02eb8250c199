-- ===== src/TimeRange/View.antt =====
-- What `TimeRangeSelector` renders. The drawer is a library's: its content is there while it is open.
use telemetryhub.Common.{
  String, List, [], ◌∷◌, ◌++◌, Option, none, some, Bool, false, ◌==◌, string_eq,
}
use telemetryhub.Ui.{Widget, shows, button, NoChild, when}
use telemetryhub.Popup.{Selector, handle_trigger_click}
use telemetryhub.TimeRange.{options, current_label, select}

pub data Action : Type 0 where
  trigger : Action
  choose : String → Action

-- The buttons of the options; a mark follows the label of the current one.
unfoldable pub option_buttons : String → List (String × String) → List (Widget Action NoChild)
unfolding when
option_buttons value [] = []
option_buttons value ((v, label) ∷ os) =
    button label false (choose v) ∷ when (v == value) (shows "✓" ∷ []) ++ option_buttons value os

unfoldable pub view : String → Selector → List (Widget Action NoChild)
unfolding when option_buttons current_label
view value s =
    button (current_label value) false trigger ∷ when s.open? (option_buttons value options)
    ++ when s.drawer_open (shows "Time Range" ∷ option_buttons value options)

-- The flags afterwards and what `onChange` gets; `mobile` is the media query for a narrow screen.
unfoldable pub perform : Bool → Action → Selector → Selector × Option String
unfolding select handle_trigger_click
perform mobile trigger s = (handle_trigger_click mobile s, none)
perform mobile (choose v) s = let r = select v s in (r.1, some r.0)
