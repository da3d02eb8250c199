-- ===== src/Api/Requests/Paths.antt =====
-- The addresses of the requests.
use package.text.Mathlib.TextLemmas.{append-nil}
use telemetryhub.Common.{String, List, [], ◌∷◌, Option, true, ◌≡◌, refl}
use telemetryhub.Js.Text.{text, join}
use telemetryhub.Js.Text.Percent.{encode_uri_component, search_params}
use telemetryhub.Js.Text.Percent.Laws.{every_char, is_safe, encode_uri_component_safe}
use telemetryhub.Api.Types.{Format}
use telemetryhub.Api.Calls.{Call}
use telemetryhub.Api.Requests.{
  format_name, request, export_device_data_request, delete_device_request,
  delete_device_field_request,
}

module _ (api_url : String) (token : Option String) where
  -- In the address of an export the device's identifier stands encoded between two slashes, and what
  -- stands there has no character but letters, digits, - _ . ! ~ * ' ( ) and the percent sign.
  pub export_url :
      (device_id : String) (fields : List String) (from to : String) (format : Format)
      → (params : String) × ((request api_url token
            (Call.export_device_data device_id fields from to format)).url
          ≡ text
              (api_url ∷ "/devices/" ∷ encode_uri_component device_id ∷ "/export?" ∷ params ∷ []))
        × (every_char is_safe (encode_uri_component device_id) ≡ true)
  unfolding request export_device_data_request text
  export_url device_id fields from to format = (
    search_params (
        ("fields", join "," fields)
        ∷ ("from", from)
        ∷ ("to", to)
        ∷ ("format", format_name format)
        ∷ []),
    refl,
    encode_uri_component_safe device_id,
  )

  -- Deleting a device whose identifier is another one followed by /fields/ and an encoded field
  -- name is the same request as deleting that field of that other device: here the identifier is
  -- not encoded.
  pub delete_device-request_clash :
      (device_id field : String)
      → request api_url token
          (Call.delete_device (text (device_id ∷ "/fields/" ∷ encode_uri_component field ∷ [])))
        ≡ request api_url token (Call.delete_device_field device_id field)
  unfolding request delete_device_request delete_device_field_request text
  delete_device-request_clash device_id field =
      rw (append-nil (text (device_id ∷ "/fields/" ∷ encode_uri_component field ∷ []))) refl
