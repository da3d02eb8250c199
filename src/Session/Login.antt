-- ===== src/Session/Login.antt =====
-- `LoginForm` of frontend/src/app/login/page.tsx. All that is thrown in it is an `Error`.
pub mod View
pub mod Outcomes
use telemetryhub.Common.{
  String, Option, none, some, Bool, true, false, ◌==◌, string_eq, if◌then◌else◌,
}
use telemetryhub.Api.Calls.{Call}
use telemetryhub.Handler.{M, ◌>>=◌, ◌>>◌, modify, emit, call, try_catch, finally, logged_in, pushed}

pub record Form : Type 0 where
  pub email : String
  pub password : String
  pub show_password : Bool
  pub error : String
  pub success_msg : String
  pub is_loading : Bool
  pub focused_field : Option String

abbrev pub start : Form
start = record {
  email = "";
  password = "";
  show_password = false;
  error = "";
  success_msg = "";
  is_loading = false;
  focused_field = none;
}

abbrev is_true : Option String → Bool
is_true none = false
is_true (some v) = v == "true"

-- The effect on the search parameter `registered`.
unfoldable pub show_success : Option String → Form → Form
show_success registered s =
    if is_true registered
    then record s { success_msg = "Account created successfully! Please sign in." }
    else s

unfoldable pub handle_submit : Form → M Form (Unit {0})
handle_submit seen = do
  modify (λ s. record s { error = ""; is_loading = true })
  finally
      (try_catch
        (do
          result ← call (Call.login seen.email seen.password)
          emit (logged_in result.token result.user)
          emit (pushed "/dashboard"))
        (λ e. modify (λ s. record s { error = e })))
      (modify (λ s. record s { is_loading = false }))
