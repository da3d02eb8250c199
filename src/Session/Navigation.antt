-- ===== src/Session/Navigation.antt =====
-- Where the pages lead: frontend/src/app/page.tsx, frontend/src/components/navbar.tsx and
-- navbar-wrapper.tsx.
pub mod View
use telemetryhub.Common.{
  String, Option, none, some, Bool, true, false, not, ◌&&◌, ◌==◌, string_eq, if◌then◌else◌, ◌≡◌,
  arith, ◌↔◌, ◌⊎◌, inl, inr, Bool-cases, Option-cases,
}
use telemetryhub.Js.Text.{begins}
use telemetryhub.Api.Types.{User}
use telemetryhub.Handler.{M, ◌>>◌, emit, pushed, logged_out}
use telemetryhub.Session.Auth.{Auth}
use telemetryhub.Session.Auth.Reachable.{Reach, loading_while_checking}

-- The effect of `HomePage`: where it sends the user, if anywhere.
unfoldable pub home_target : Auth → Option String
home_target a =
    if not a.is_loading
    then some (elim a.user [ none ↦ "/login" | some u ↦ "/dashboard" ])
    else none

-- `showNavbar`
unfoldable pub show_navbar : String → Bool
show_navbar pathname = not (pathname == "/login") && not (pathname == "/register")

-- Whether `Navbar` shows anything inside the wrapper.
unfoldable pub navbar_shown : String → Auth → Bool
unfolding show_navbar
navbar_shown pathname a = show_navbar pathname && (elim a.user [ none ↦ false | some u ↦ true ])

-- `isDashboard`
unfoldable pub is_dashboard : String → Bool
is_dashboard pathname = begins pathname "/dashboard"

unfoldable pub handle_logout : M Bool (Unit {0})
handle_logout = do emit logged_out; emit (pushed "/login")

unfoldable pub close_menu : Bool → Bool
close_menu menu_open = false

-- The home page sends nobody anywhere exactly while getMe is awaited, in every state that can be
-- reached; afterwards it sends a user to the dashboard and all others to the login.
pub home_target_lem :
    {a : Auth}
    → Reach false a
    → ((home_target a ≡ none) ↔ (a.checking ≡ true))
      × (((u : User) × (a.user ≡ some u)
            × ((a.checking ≡ true) ⊎ (home_target a ≡ some "/dashboard")))
          ⊎ ((a.user ≡ none) × ((a.checking ≡ true) ⊎ (home_target a ≡ some "/login"))))
unfolding home_target
home_target_lem {a} r =
    let e = loading_while_checking r in
    (
      (λ h. ground arith, λ h. ground arith),
      elim (Bool-cases a.checking) [
        | inl waits ↦ elim (Option-cases a.user) [
          | inl nobody ↦ inr (nobody, inl waits)
          | inr (u, known) ↦ inl (u, known, inl waits)
        ]
        | inr answered ↦ elim (Option-cases a.user) [
          | inl nobody ↦ inr (nobody, inr (ground arith))
          | inr (u, known) ↦ inl (u, known, inr (ground arith))
        ]
      ],
    )
