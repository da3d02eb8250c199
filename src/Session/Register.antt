-- ===== src/Session/Register.antt =====
-- `RegisterPage` of frontend/src/app/register/page.tsx.
pub mod View
pub mod Controls
pub mod Password
use telemetryhub.Common.{
  ℕ, String, Option, none, some, Bool, true, false, not, ◌&&◌, ◌||◌, ◌==◌, string_eq, if◌then◌else◌,
  ltb, leb,
}
use telemetryhub.Js.Text.{size, some_char}
use telemetryhub.Js.Text.Percent.{is_alnum}
use telemetryhub.Api.Calls.{Call}
use telemetryhub.Handler.{M, pure, ◌>>=◌, ◌>>◌, modify, emit, call, try_catch, finally, pushed}

pub record Form : Type 0 where
  pub email : String
  pub password : String
  pub confirm_password : String
  pub show_password : Bool
  pub show_confirm_password : Bool
  pub error : String
  pub is_loading : Bool
  pub focused_field : Option String

abbrev pub start : Form
start = record {
  email = "";
  password = "";
  confirm_password = "";
  show_password = false;
  show_confirm_password = false;
  error = "";
  is_loading = false;
  focused_field = none;
}

abbrev pub is_upper : ℕ → Bool
is_upper c = leb b'A' c && leb c b'Z'

abbrev pub is_digit : ℕ → Bool
is_digit c = leb b'0' c && leb c b'9'

abbrev pub is_symbol : ℕ → Bool
is_symbol c = not (is_alnum c)

unfoldable pub validate_password : String → Option String
unfolding size some_char is_alnum
validate_password pwd =
    if ltb (size pwd) 8
    then some "Password must be at least 8 characters long."
    else if not (some_char is_upper pwd)
    then some "Password must contain at least one uppercase letter."
    else if not (some_char is_digit pwd)
    then some "Password must contain at least one number."
    else if not (some_char is_symbol pwd)
    then some "Password must contain at least one symbol."
    else none

unfoldable pub handle_submit : Form → M Form (Unit {0})
handle_submit seen = do
  modify (λ s. record s { error = "" })
  elim (validate_password seen.password) [
    | some password_error ↦ modify (λ s. record s { error = password_error })
    | none ↦
        if not (seen.password == seen.confirm_password)
        then modify (λ s. record s { error = "Passwords do not match" })
        else (do
          modify (λ s. record s { is_loading = true })
          finally
              (try_catch
                (do
                  status ← call (Call.register seen.email seen.password seen.confirm_password)
                  emit (pushed "/login?registered=true"))
                (λ e. modify (λ s. record s { error = e })))
              (modify (λ s. record s { is_loading = false })))
  ]
