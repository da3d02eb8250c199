-- ===== src/Session/Register/View.antt =====
-- What `RegisterPage` of frontend/src/app/register/page.tsx renders, and what its controls do. A browser
-- does not submit a form whose `required` inputs are empty, which is left out: more can happen here.
use telemetryhub.Common.{String, List, [], ◌∷◌, ◌++◌, none, some, false, not, if◌then◌else◌}
use telemetryhub.Js.Text.{is_empty}
use telemetryhub.Handler.{M, modify}
use telemetryhub.Ui.{
  Widget, shows, button, input, submit, link, On, change, focus, leave, NoChild, when,
}
use telemetryhub.Session.Register.{Form, handle_submit}

pub data Action : Type 0 where
  set_email set_password set_confirm_password : String → Action
  focus_on : String → Action
  focus_off toggle_password toggle_confirm_password create_account : Action

-- The handlers of an input of the form.
abbrev handlers : (String → Action) → String → List (On Action)
handlers set name = change set ∷ focus (focus_on name) ∷ leave focus_off ∷ []

unfoldable pub form_view : Form → List (Widget Action NoChild)
unfolding when
form_view s =
    shows "Email"
      ∷ input "you@example.com" s.email (handlers set_email "email")
      ∷ shows "Password"
      ∷ input "••••••••" s.password (handlers set_password "password")
      ∷ button (if s.show_password then "Hide password" else "Show password") false toggle_password
      ∷ shows "Must contain at least 1 uppercase letter, 1 number, and 1 symbol."
      ∷ shows "Confirm Password"
      ∷ input "••••••••" s.confirm_password (handlers set_confirm_password "confirmPassword")
      ∷ button (if s.show_confirm_password then "Hide password" else "Show password") false
          toggle_confirm_password
      ∷ when (not (is_empty s.error)) (shows s.error ∷ [])
    ++ submit (if s.is_loading then "Creating account..." else "Create Account") s.is_loading
        create_account
      ∷ []

unfoldable pub view : Form → List (Widget Action NoChild)
unfolding form_view
view s =
    shows "TelemetryHub"
      ∷ shows "Create your account"
      ∷ shows "Enter your details to get started"
      ∷ form_view s
    ++ shows "Already have an account? "
      ∷ link "/login" none
      ∷ shows "Sign in"
      ∷ shows "© 2026 TelemetryHub"
      ∷ []

unfoldable pub perform : Form → Action → M Form (Unit {0})
unfolding handle_submit
perform seen (set_email t) = modify (λ s. record s { email = t })
perform seen (set_password t) = modify (λ s. record s { password = t })
perform seen (set_confirm_password t) = modify (λ s. record s { confirm_password = t })
perform seen (focus_on name) = modify (λ s. record s { focused_field = some name })
perform seen focus_off = modify (λ s. record s { focused_field = none })
perform seen toggle_password = modify (λ s. record s { show_password = not seen.show_password })
perform seen toggle_confirm_password =
    modify (λ s. record s { show_confirm_password = not seen.show_confirm_password })
perform seen create_account = handle_submit seen
