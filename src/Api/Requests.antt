-- ===== src/Api/Requests.antt =====
-- The request that each function of frontend/src/lib/api.ts hands to `fetch`. The address of the
-- server, `API_URL`, comes from the build's environment and is a parameter.
pub mod Paths
pub mod Served
use telemetryhub.Common.{ℕ, String, List, [], ◌∷◌, ◌++◌, Option, none, some}
use telemetryhub.Common.Int.{ℤ}
use telemetryhub.Js.Text.{text, join, decimal}
use telemetryhub.Js.Text.Percent.{encode_uri_component, search_params}
use telemetryhub.Api.Types.{Format, csv, json}
use telemetryhub.Api.Calls.{Call}

pub data Method : Type 0 where
  read post put delete : Method

-- The values that the bodies hold.
pub data Value : Type 0 where
  str : String → Value
  int : ℤ → Value
  nat : ℕ → Value
  nats : List ℕ → Value
  null : Value

-- A body is the object that `JSON.stringify` writes, property by property.
pub record Request : Type 0 where
  pub url : String
  pub method : Method
  pub headers : List (String × String)
  pub body : Option (List (String × Value))

-- `JSON.stringify` leaves out a property that is `undefined`.
abbrev pub opt_str : String → Option String → List (String × Value)
opt_str k none = []
opt_str k (some s) = (k, str s) ∷ []

abbrev pub opt_int : String → Option ℤ → List (String × Value)
opt_int k none = []
opt_int k (some n) = (k, int n) ∷ []

abbrev content_type : String × String
content_type = ("Content-Type", "application/json")

-- `getHeaders`; the argument is what `localStorage` holds under `auth_token`. An empty token counts
-- as none.
unfoldable pub get_headers : Option String → List (String × String)
unfolding text
get_headers none = content_type ∷ []
get_headers (some String.[]) = content_type ∷ []
get_headers (some (String.◌∷◌ c s)) =
    content_type ∷ ("Authorization", text ("Bearer " ∷ String.◌∷◌ c s ∷ [])) ∷ []

pub format_name : Format → String
format_name csv = "csv"
format_name json = "json"

abbrev rename_fields :
    Option String → Option String → Option String → Option String → List (String × Value)
rename_fields display_name unit chart_group sub_group =
    opt_str "display_name" display_name
    ++ (opt_str "unit" unit ++ (opt_str "chart_group" chart_group ++ opt_str "sub_group" sub_group))

abbrev nat_or_null : Option ℕ → Value
nat_or_null none = null
nat_or_null (some n) = nat n

module _ (api_url : String) where
  -- `login` and `register` send no token.
  login_request : String → String → Request
  login_request email password = record {
    url = text (api_url ∷ "/auth/login" ∷ []);
    method = post;
    headers = content_type ∷ [];
    body = some (("email", str email) ∷ ("password", str password) ∷ []);
  }

  register_request : String → String → String → Request
  register_request email password confirm_password = record {
    url = text (api_url ∷ "/auth/register" ∷ []);
    method = post;
    headers = content_type ∷ [];
    body = some (
        ("email", str email)
        ∷ ("password", str password)
        ∷ ("confirm_password", str confirm_password)
        ∷ []);
  }

module _ (api_url : String) (token : Option String) where
  abbrev plain : Method → List String → Request
  plain m path = record {
    url = text (api_url ∷ path);
    method = m;
    headers = get_headers token;
    body = none;
  }

  abbrev with_body : Method → List String → List (String × Value) → Request
  with_body m path fields = record {
    url = text (api_url ∷ path);
    method = m;
    headers = get_headers token;
    body = some fields;
  }

  get_me_request : Request
  get_me_request = plain read ("/auth/me" ∷ [])

  get_device_request : String → Request
  get_device_request device_id = plain read ("/devices/" ∷ device_id ∷ [])

  get_devices_request : Request
  get_devices_request = plain read ("/devices" ∷ [])

  get_device_fields_request : String → Request
  get_device_fields_request device_id = plain read ("/devices/" ∷ device_id ∷ "/fields" ∷ [])

  get_readings_request : String → List String → String → String → Request
  unfolding join search_params
  get_readings_request device_id fields from to =
      let params = search_params (("fields", join "," fields) ∷ ("from", from) ∷ ("to", to) ∷ []) in
      plain read ("/devices/" ∷ device_id ∷ "/readings?" ∷ params ∷ [])

  update_device_request : String → Option String → Option String → Request
  update_device_request device_id name device_type =
      with_body put ("/devices/" ∷ device_id ∷ [])
        (opt_str "name" name ++ opt_str "device_type" device_type)

  delete_device_request : String → Request
  delete_device_request device_id = plain delete ("/devices/" ∷ device_id ∷ [])

  delete_device_field_request : String → String → Request
  delete_device_field_request device_id field =
      plain delete ("/devices/" ∷ device_id ∷ "/fields/" ∷ encode_uri_component field ∷ [])

  get_renames_request : String → Request
  get_renames_request device_id = plain read ("/devices/" ∷ device_id ∷ "/renames" ∷ [])

  create_rename_request :
      String → String → Option String → Option String → Option String → Option String → Request
  create_rename_request device_id raw_field display_name unit chart_group sub_group =
      with_body post ("/devices/" ∷ device_id ∷ "/renames" ∷ [])
        (("raw_field", str raw_field) ∷ rename_fields display_name unit chart_group sub_group)

  update_rename_request :
      String → String → Option String → Option String → Option String → Option String → Request
  update_rename_request device_id raw_field display_name unit chart_group sub_group =
      with_body put ("/devices/" ∷ device_id ∷ "/renames/" ∷ encode_uri_component raw_field ∷ [])
        (rename_fields display_name unit chart_group sub_group)

  delete_rename_request : String → String → Request
  delete_rename_request device_id raw_field =
      plain delete ("/devices/" ∷ device_id ∷ "/renames/" ∷ encode_uri_component raw_field ∷ [])

  update_group_config_request : String → String → Option String → Option ℤ → Request
  update_group_config_request device_id chart_group description sort_order =
      with_body post ("/devices/" ∷ device_id ∷ "/renames/group-config" ∷ []) (
        ("chart_group", str chart_group)
        ∷ (opt_str "group_description" description ++ opt_int "group_sort_order" sort_order))

  update_sub_group_config_request : String → String → String → Option String → Option ℤ → Request
  update_sub_group_config_request device_id chart_group sub_group description sort_order =
      with_body post ("/devices/" ∷ device_id ∷ "/renames/subgroup-config" ∷ []) (
        ("chart_group", str chart_group)
        ∷ ("sub_group", str sub_group)
        ∷ (opt_str "sub_group_description" description
            ++ opt_int "sub_group_sort_order" sort_order))

  get_device_groups_request : Request
  get_device_groups_request = plain read ("/device-groups" ∷ [])

  create_device_group_request : String → Request
  create_device_group_request name =
      with_body post ("/device-groups" ∷ []) (("name", str name) ∷ [])

  update_device_group_request : ℕ → String → Request
  update_device_group_request id name =
      with_body put ("/device-groups/" ∷ decimal id ∷ []) (("name", str name) ∷ [])

  delete_device_group_request : ℕ → Request
  delete_device_group_request id = plain delete ("/device-groups/" ∷ decimal id ∷ [])

  reorder_device_groups_request : List ℕ → Request
  reorder_device_groups_request order =
      with_body put ("/device-groups/reorder" ∷ []) (("order", nats order) ∷ [])

  set_device_group_request : String → Option ℕ → Request
  set_device_group_request device_id group_id =
      with_body put ("/devices/" ∷ device_id ∷ "/group" ∷ [])
        (("group_id", nat_or_null group_id) ∷ [])

  export_device_data_request : String → List String → String → String → Format → Request
  unfolding join search_params format_name
  export_device_data_request device_id fields from to format =
      let params = search_params (
        ("fields", join "," fields)
        ∷ ("from", from)
        ∷ ("to", to)
        ∷ ("format", format_name format)
        ∷ []) in
      plain read ("/devices/" ∷ encode_uri_component device_id ∷ "/export?" ∷ params ∷ [])

  -- The request of each call.
  pub request : Call → Request
  unfolding login_request register_request get_me_request get_device_request get_devices_request
      get_device_fields_request get_readings_request update_device_request delete_device_request
      delete_device_field_request get_renames_request create_rename_request update_rename_request
      delete_rename_request update_group_config_request update_sub_group_config_request
      get_device_groups_request create_device_group_request update_device_group_request
      delete_device_group_request reorder_device_groups_request set_device_group_request
      export_device_data_request
  request (Call.login email password) = login_request api_url email password
  request (Call.register email password confirm) = register_request api_url email password confirm
  request Call.get_me = get_me_request
  request Call.get_devices = get_devices_request
  request Call.get_device_groups = get_device_groups_request
  request (Call.get_device device) = get_device_request device
  request (Call.get_device_fields device) = get_device_fields_request device
  request (Call.delete_device device) = delete_device_request device
  request (Call.get_renames device) = get_renames_request device
  request (Call.get_readings device fields from to) = get_readings_request device fields from to
  request (Call.update_device device name type) = update_device_request device name type
  request (Call.delete_device_field device field) = delete_device_field_request device field
  request (Call.delete_rename device field) = delete_rename_request device field
  request (Call.create_rename device field name unit group sub) =
      create_rename_request device field name unit group sub
  request (Call.update_rename device field name unit group sub) =
      update_rename_request device field name unit group sub
  request (Call.update_group_config device group description order) =
      update_group_config_request device group description order
  request (Call.update_sub_group_config device group sub description order) =
      update_sub_group_config_request device group sub description order
  request (Call.create_device_group name) = create_device_group_request name
  request (Call.update_device_group id name) = update_device_group_request id name
  request (Call.delete_device_group id) = delete_device_group_request id
  request (Call.reorder_device_groups order) = reorder_device_groups_request order
  request (Call.set_device_group device group) = set_device_group_request device group
  request (Call.export_device_data device fields from to format) =
      export_device_data_request device fields from to format
