-- ===== src/Backend/Fields.antt =====
-- backend/internal/handlers/readings.go: GetReadings, and how it reads the list of fields that
-- the frontend joins. Reading a time, time.Now and the store are parameters; a query parameter that is missing is
-- the empty text.
pub mod Asked
use Prim.Native.Char.{Char, code}
use Prim.Native.String
use telemetryhub.Common.{
  String, List, [], ◌∷◌, Option, none, some, Bool, true, false, not, nat_beq, if◌then◌else◌, filter,
}
use telemetryhub.Js.Text.{is_empty, extend}
use telemetryhub.Api.Replies.{Result, ok, err}
use telemetryhub.Backend.Access.{Reply, refuse, respond}

-- `ReadingsResponse`; the times are written by the caller's format.
pub record ReadingsResponse (T R : Type 0) : Type 0 where
  pub device_id : String
  pub fields : List String
  pub from : T
  pub to : T
  pub readings : List R

-- `splitString(s, ",")`
unfoldable pub split_string : String → List String
split_string String.[] = "" ∷ []
split_string (String.◌∷◌ c s) =
    let rest = split_string s in if nat_beq (code c) b',' then "" ∷ rest else extend c rest

-- `splitFields`
unfoldable pub split_fields : String → List String
unfolding split_string filter
split_fields s = filter (λ f. not (is_empty f)) (split_string s)

-- A time of the query, or what stands for a missing one.
unfoldable pub time_or {ℓ} : {T : Type ℓ} → (String → Option T) → T → String → Option T
time_or parse_time missing s = if is_empty s then some missing else parse_time s

module _ {T R : Type 0} (parse_time : String → Option T) where
  -- `GetReadings`
  unfoldable pub get_readings :
      T
      → T
      → (String → List String → T → T → Result (List R))
      → String
      → String
      → String
      → String
      → Reply (ReadingsResponse T R)
  unfolding time_or split_fields
  get_readings day_ago now store device_id fields from to =
      if is_empty fields
      then refuse 400 "fields parameter required"
      else elim (time_or parse_time day_ago from) [
        | none ↦ refuse 400 "Invalid 'from' parameter"
        | some t ↦ elim (time_or parse_time now to) [
          | none ↦ refuse 400 "Invalid 'to' parameter"
          | some u ↦ elim (store device_id (split_fields fields) t u) [
            | err e ↦ refuse 500 "Failed to fetch readings"
            | ok readings ↦ respond 200 (record {
              device_id = device_id;
              fields = split_fields fields;
              from = t;
              to = u;
              readings = readings;
            })
          ]
        ]
      ]
