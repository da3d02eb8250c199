-- ===== src/Session/Navigation/View.antt =====
-- What `Navbar` of frontend/src/components/navbar.tsx renders, and what its controls do. The state is
-- whether the menu is open.
use telemetryhub.Common.{List, [], ◌∷◌, Option, none, some, Bool, false, not}
use telemetryhub.Api.Types.{User}
use telemetryhub.Handler.{M, modify}
use telemetryhub.Ui.{Widget, shows, button, link, NoChild, when}
use telemetryhub.Session.Navigation.{handle_logout, close_menu}

pub data Action : Type 0 where
  logout toggle close : Action

unfoldable pub menu : User → List (Widget Action NoChild)
menu u =
    link "/dashboard" (some close)
    ∷ shows "Dashboard"
    ∷ shows u.email
    ∷ shows u.role
    ∷ button "Logout" false logout
    ∷ []

unfoldable pub view : Option User → Bool → List (Widget Action NoChild)
unfolding when menu
view none menu_open = []
view (some u) menu_open =
    link "/dashboard" none
    ∷ shows "TelemetryHub"
    ∷ link "/dashboard" none
    ∷ shows "Dashboard"
    ∷ shows u.email
    ∷ shows u.role
    ∷ button "Logout" false logout
    ∷ button "Toggle menu" false toggle
    ∷ when menu_open (menu u)

unfoldable pub perform : Bool → Action → M Bool (Unit {0})
unfolding handle_logout close_menu
perform seen logout = handle_logout
perform seen toggle = modify (λ s. not seen)
perform seen close = modify close_menu
