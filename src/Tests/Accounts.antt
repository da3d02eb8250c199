-- ===== src/Tests/Accounts.antt =====
-- Runs of Backend.Accounts, of the routes and of what a viewer sees.
use telemetryhub.Common.{
  ℕ, String, List, [], ◌∷◌, ◌++◌, Option, none, some, Bool, true, false, ◌≡◌, refl, ◌==◌, string_eq,
}
use telemetryhub.Js.Text.{text}
use telemetryhub.Js.Sort.{Sign}
use telemetryhub.Api.Types.{FieldRename}
use telemetryhub.Api.Calls.{Call, Answer}
use telemetryhub.Api.Replies.{Fetched, rejected}
use telemetryhub.Api.Requests.{request}
use telemetryhub.Api.Requests.Served.{endpoint, parameters, query, request-route, served}
use telemetryhub.Handler.{Env, run}
use telemetryhub.DevicePage.State.{Page, selected_fields}
use telemetryhub.DevicePage.ChartGroups.{chart_groups}
use telemetryhub.DevicePage.Handlers.{fetch_renames}
use telemetryhub.DevicePage.Handlers.Viewer.{viewer_sees_no_group}
use telemetryhub.Backend.Routes.{route, fill}
use telemetryhub.Backend.Access.{Claims, Reply, respond}
use telemetryhub.Backend.Accounts.{Db, Statement, RegisterRequest, LoginRequest, register_public}
use telemetryhub.Backend.Accounts.Invariant.{
  Distinct, emails, admins, stay, step, registers, nobody_becomes_admin,
}
use telemetryhub.Tests.Data.{distinct_texts}

request-route_example :
    let c = Call.get_readings "d1" ("temp" ∷ []) "a" "b" in
    let r = route (endpoint c) in
    ((request "/api/v1" none c).method ≡ r.method)
    × ((request "/api/v1" none c).url
        ≡ text ("/api/v1" ∷ (fill r.pattern (parameters c) ++ query c)))
request-route_example = request-route "/api/v1" none (Call.get_readings "d1" ("temp" ∷ []) "a" "b")

abbrev works : Statement → Bool
works s = true

abbrev hash_password : String → Option String
hash_password p = some p

abbrev verify_password : String → String → Bool
verify_password p h = p == h

abbrev sign : Claims → ℕ → Option String
sign c until = some c.role

abbrev viewer : Claims
viewer = record { user_id = 2; email = "v@b"; role = "viewer" }

abbrev parse_token : String → Option Claims
parse_token t = some viewer

abbrev db : Db
db = record {
  users = record { id = 1; email = "a@b"; password_hash = "x"; role = "admin" } ∷ [];
  sessions = [];
  next_id = 2;
}

abbrev request_body : Option RegisterRequest
request_body =
    some (record { email = "v@b"; password = "Secret-12"; confirm_password = "Secret-12" })

abbrev login_body : Option LoginRequest
login_body = some (record { email = "v@b"; password = "Secret-12" })

h_Distinct : Distinct (emails db.users)
h_Distinct = (tt, tt)

nobody_becomes_admin_example :
    let after = (register_public works hash_password request_body db).1 in
    Distinct (emails after.users) × (admins after.users ≡ admins db.users)
nobody_becomes_admin_example =
    nobody_becomes_admin works hash_password verify_password sign 24
      (step stay (registers db request_body)) h_Distinct

-- What the handler would respond.
abbrev next : Option Claims → Reply (List FieldRename)
next c = respond 200 []

abbrev guarded_answers : (c : Call) → Fetched (Answer c)
guarded_answers (Call.get_renames d) = served parse_token (some "t") (Call.get_renames d) next
guarded_answers c = rejected "offline"

abbrev guarded_env : Env Page
guarded_env = record {
  reply = λ log c. guarded_answers c;
  meanwhile = λ log s. s;
  consent = λ log. true;
}

abbrev page : Page
page = record {
  device = none;
  device_loading = false;
  fields = "a" ∷ "b" ∷ [];
  stored_fields = [];
  fields_hydrated = true;
  readings = [];
  is_loading = false;
  auto_selected = false;
  reset_all_counter = 0;
  renames = [];
}

viewer_sees_no_group_example :
    let s = (run (fetch_renames true "d1") guarded_env page).state in
    (s.renames ≡ [])
    × ((locale_compare : String → String → Sign)
        → chart_groups locale_compare true (selected_fields s) s.renames
          ≡ record { groups = []; ungrouped = selected_fields s })
viewer_sees_no_group_example =
    viewer_sees_no_group parse_token "t" "d1" viewer guarded_env page next (λ log. refl)
      (distinct_texts "t" "" refl) refl (distinct_texts "viewer" "admin" refl) refl
