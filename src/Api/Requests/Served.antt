-- ===== src/Api/Requests/Served.antt =====
-- The routes of the server that answer the functions of frontend/src/lib/api.ts.
use Prim.Native.String
use package.text.Mathlib.TextLemmas.{append_assoc}
use telemetryhub.Common.{ap, String, List, [], ◌∷◌, ◌++◌, Option, some, ◌≡◌, refl}
use telemetryhub.Js.Text.{text, decimal, join}
use telemetryhub.Js.Text.Percent.{encode_uri_component, search_params}
use telemetryhub.Api.Calls.{Call, Answer}
use telemetryhub.Api.Replies.{Fetched, refused, accepted, readable}
use telemetryhub.Backend.Access.{Claims, Reply, refuse, respond, guarded}
use telemetryhub.Backend.Access.Laws.{authorization}
use telemetryhub.Api.Requests.{
  format_name, request, login_request, register_request, get_me_request, get_device_request,
  get_devices_request, get_device_fields_request, get_readings_request, update_device_request,
  delete_device_request, delete_device_field_request, get_renames_request, create_rename_request,
  update_rename_request, delete_rename_request, update_group_config_request,
  update_sub_group_config_request, get_device_groups_request, create_device_group_request,
  update_device_group_request, delete_device_group_request, reorder_device_groups_request,
  set_device_group_request, export_device_data_request,
}
use telemetryhub.Backend.Routes as R
use telemetryhub.Backend.Routes.{Endpoint, route, fill}

-- The handler of a call, and the parameters of its route.
unfoldable pub endpoint : Call → Endpoint
endpoint (Call.login email password) = R.login
endpoint (Call.register email password confirm) = R.register_public
endpoint Call.get_me = R.me
endpoint Call.get_devices = R.list_devices
endpoint Call.get_device_groups = R.list_device_groups
endpoint (Call.get_device device) = R.get_device
endpoint (Call.get_device_fields device) = R.get_device_fields
endpoint (Call.delete_device device) = R.delete_device
endpoint (Call.get_renames device) = R.list_renames
endpoint (Call.get_readings device fields from to) = R.get_readings
endpoint (Call.update_device device name type) = R.update_device
endpoint (Call.delete_device_field device field) = R.delete_device_field
endpoint (Call.delete_rename device field) = R.delete_rename
endpoint (Call.create_rename device field name unit group sub) = R.create_rename
endpoint (Call.update_rename device field name unit group sub) = R.update_rename
endpoint (Call.update_group_config device group description order) = R.batch_update_group_config
endpoint (Call.update_sub_group_config device group sub description order) =
    R.batch_update_sub_group_config
endpoint (Call.create_device_group name) = R.create_device_group
endpoint (Call.update_device_group id name) = R.update_device_group
endpoint (Call.delete_device_group id) = R.delete_device_group
endpoint (Call.reorder_device_groups order) = R.reorder_device_groups
endpoint (Call.set_device_group device group) = R.set_device_group
endpoint (Call.export_device_data device fields from to format) = R.export

abbrev pub parameters : Call → List String
parameters (Call.get_device device) = device ∷ []
parameters (Call.get_device_fields device) = device ∷ []
parameters (Call.delete_device device) = device ∷ []
parameters (Call.get_renames device) = device ∷ []
parameters (Call.get_readings device fields from to) = device ∷ []
parameters (Call.update_device device name type) = device ∷ []
parameters (Call.delete_device_field device field) = device ∷ encode_uri_component field ∷ []
parameters (Call.delete_rename device field) = device ∷ encode_uri_component field ∷ []
parameters (Call.create_rename device field name unit group sub) = device ∷ []
parameters (Call.update_rename device field name unit group sub) =
    device ∷ encode_uri_component field ∷ []
parameters (Call.update_group_config device group description order) = device ∷ []
parameters (Call.update_sub_group_config device group sub description order) = device ∷ []
parameters (Call.update_device_group id name) = decimal id ∷ []
parameters (Call.delete_device_group id) = decimal id ∷ []
parameters (Call.set_device_group device group) = device ∷ []
parameters (Call.export_device_data device fields from to format) = encode_uri_component device ∷ []
parameters _ = []

-- What follows the path.
abbrev pub query : Call → List String
query (Call.get_readings device fields from to) =
    "?" ∷ search_params (("fields", join "," fields) ∷ ("from", from) ∷ ("to", to) ∷ []) ∷ []
query (Call.export_device_data device fields from to format) =
    "?"
    ∷ search_params (
        ("fields", join "," fields)
        ∷ ("from", from)
        ∷ ("to", to)
        ∷ ("format", format_name format)
        ∷ [])
    ∷ []
query _ = []

-- Every function of api.ts sends the method and the path of one of the server's routes, its parameters
-- filled in, below the address of the server.
pub request-route :
    (api_url : String) (token : Option String) (c : Call)
    → let r = route (endpoint c) in
      ((request api_url token c).method ≡ r.method)
      × ((request api_url token c).url
          ≡ text (api_url ∷ (fill r.pattern (parameters c) ++ query c)))
unfolding endpoint request login_request register_request get_me_request get_device_request
    get_devices_request get_device_fields_request get_readings_request update_device_request
    delete_device_request delete_device_field_request get_renames_request create_rename_request
    update_rename_request delete_rename_request update_group_config_request
    update_sub_group_config_request get_device_groups_request create_device_group_request
    update_device_group_request delete_device_group_request reorder_device_groups_request
    set_device_group_request export_device_data_request route fill text
request-route api_url token (Call.login email password) = (refl, refl)
request-route api_url token (Call.register email password confirm) = (refl, refl)
request-route api_url token Call.get_me = (refl, refl)
request-route api_url token Call.get_devices = (refl, refl)
request-route api_url token Call.get_device_groups = (refl, refl)
request-route api_url token (Call.get_device device) = (refl, refl)
request-route api_url token (Call.get_device_fields device) = (refl, refl)
request-route api_url token (Call.delete_device device) = (refl, refl)
request-route api_url token (Call.get_renames device) = (refl, refl)
request-route api_url token (Call.get_readings device fields from to) = (
  refl,
  ap (λ t. String.◌++◌ api_url (String.◌++◌ "/devices/" (String.◌++◌ device t)))
      (append_assoc "/readings" "?" _),
)
request-route api_url token (Call.update_device device name type) = (refl, refl)
request-route api_url token (Call.delete_device_field device field) = (refl, refl)
request-route api_url token (Call.delete_rename device field) = (refl, refl)
request-route api_url token (Call.create_rename device field name unit group sub) = (refl, refl)
request-route api_url token (Call.update_rename device field name unit group sub) = (refl, refl)
request-route api_url token (Call.update_group_config device group description order) = (refl, refl)
request-route api_url token (Call.update_sub_group_config device group sub description order) =
    (refl, refl)
request-route api_url token (Call.create_device_group name) = (refl, refl)
request-route api_url token (Call.update_device_group id name) = (refl, refl)
request-route api_url token (Call.delete_device_group id) = (refl, refl)
request-route api_url token (Call.reorder_device_groups order) = (refl, refl)
request-route api_url token (Call.set_device_group device group) = (refl, refl)
request-route api_url token (Call.export_device_data device fields from to format) = (
  refl,
  ap
      (λ t.
        String.◌++◌ api_url (String.◌++◌ "/devices/" (String.◌++◌ (encode_uri_component device) t)))
      (append_assoc "/export" "?" _),
)

-- What of a reply arrives at the caller: `res.ok` is true of what is responded and false of what is refused.
abbrev pub arrives : {A : Type 0} → Reply A → Fetched A
arrives (refuse status message) = refused (readable (some message))
arrives (respond status body) = accepted body

-- How the server answers a call: the middleware of its route, then the handler.
unfoldable pub served :
    (String → Option Claims)
    → Option String
    → (c : Call) → (Option Claims → Reply (Answer c))
    → Fetched (Answer c)
unfolding guarded endpoint route
served parse_token token c next =
    arrives (guarded parse_token (route (endpoint c)).access (authorization token) next)
