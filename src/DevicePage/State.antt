-- ===== src/DevicePage/State.antt =====
-- The state of the device page and what it computes from it. `stored_fields` and `fields_hydrated`
-- are those of the hook that keeps the selection in the browser's storage.
pub mod Selection
pub mod Latest
pub mod Keys
use telemetryhub.Common.{
  ℕ, ◌*◌, String, List, [], ◌∷◌, Option, none, some, Bool, true, false, not, ◌&&◌, ◌||◌, filter,
  take, if◌then◌else◌, ◌==◌, string_eq,
}
use telemetryhub.Common.Int.{ℤ, pos, ltb_ℤ, ◌-ℤ◌}
use telemetryhub.Js.Map.{includes}
use telemetryhub.Js.Text.{text, or_text, or_else_text, is_empty}
use telemetryhub.Api.Types.{Device, ReadingData, FieldRename}
use telemetryhub.FieldSelector.{FieldLabel}

pub record Page : Type 0 where
  pub device : Option Device
  pub device_loading : Bool
  pub fields : List String
  pub stored_fields : List String
  pub fields_hydrated : Bool
  pub readings : List ReadingData
  pub is_loading : Bool
  pub auto_selected : Bool
  pub reset_all_counter : ℕ
  pub renames : List FieldRename

abbrev pub is_nil {ℓ} : {A : Type ℓ} → List A → Bool
is_nil [] = true
is_nil (x ∷ xs) = false

-- The keys of the browser's storage.
unfoldable pub fields_key : String → String
fields_key device_id =
    if is_empty device_id
    then "telemetryhub:device:_:fields"
    else text ("telemetryhub:device:" ∷ device_id ∷ ":fields" ∷ [])

unfoldable pub timerange_key : String → String
timerange_key device_id =
    if is_empty device_id
    then "telemetryhub:device:_:timerange"
    else text ("telemetryhub:device:" ∷ device_id ∷ ":timerange" ∷ [])

-- `selectedFields`
unfoldable pub selected_fields : Page → List String
selected_fields p =
    if p.fields_hydrated then filter (λ f. includes p.fields f) p.stored_fields else []

-- One round of the loop of `lastUpdated`, at a time that is none for NaN.
abbrev pub later_of : Option ℤ → ℤ → ℤ
later_of none latest = latest
later_of (some t) latest = if ltb_ℤ latest t then t else latest

-- `time_of` parses a date.
unfoldable pub latest_from : (String → Option ℤ) → ℤ → List ReadingData → ℤ
latest_from time_of latest [] = latest
latest_from time_of latest (r ∷ rs) = latest_from time_of (later_of (time_of r.bucket) latest) rs

unfoldable pub last_updated : (String → Option ℤ) → Page → Option ℤ
last_updated time_of p =
    let latest = latest_from time_of (pos 0) p.readings in
    if is_nil p.readings then none else if ltb_ℤ (pos 0) latest then some latest else none

-- The effect that selects the first fields once, if none of the stored ones is there.
unfoldable pub auto_select : Page → Page
auto_select p =
    let marked = record p { auto_selected = true } in
    if is_nil p.fields || not p.fields_hydrated
    then p
    else if p.auto_selected
    then p
    else if not (is_nil (filter (λ f. includes p.fields f) p.stored_fields))
    then marked
    else record marked { stored_fields = take 5 p.fields }

-- The milliseconds of a stored time range; any other text counts as a day.
unfoldable pub range_ms : String → ℕ
range_ms r =
    if r == "1h"
    then 1 * 60 * 60 * 1000
    else if r == "6h"
    then 6 * 60 * 60 * 1000
    else if r == "24h"
    then 24 * 60 * 60 * 1000
    else if r == "7d"
    then 7 * 24 * 60 * 60 * 1000
    else if r == "30d"
    then 30 * 24 * 60 * 60 * 1000
    else 24 * 60 * 60 * 1000

-- `renames.find((r) => r.raw_field === field)`
unfoldable pub find_rename : String → List FieldRename → Option FieldRename
find_rename field [] = none
find_rename field (r ∷ rs) = if r.raw_field == field then some r else find_rename field rs

-- `rename?.p || fallback`
abbrev pub property : (FieldRename → Option String) → Option FieldRename → String → String
property p none fallback = fallback
property p (some r) fallback = or_else_text (p r) fallback

unfoldable pub get_display_name : List FieldRename → String → String
get_display_name renames field = property (λ r. r.display_name) (find_rename field renames) field

unfoldable pub get_unit : List FieldRename → String → String
get_unit renames field = property (λ r. r.unit) (find_rename field renames) ""

unfoldable pub label_for_field : List FieldRename → String → FieldLabel
label_for_field renames field = elim (find_rename field renames) [
  | none ↦ record {
    field = field;
    display_name = none;
    unit = none;
    chart_group = none;
    sub_group = none;
    group_description = none;
    sub_group_description = none;
    group_sort_order = none;
    sub_group_sort_order = none;
  }
  | some r ↦ record {
    field = field;
    display_name = r.display_name;
    unit = r.unit;
    chart_group = r.chart_group;
    sub_group = r.sub_group;
    group_description = r.group_description;
    sub_group_description = r.sub_group_description;
    group_sort_order = r.group_sort_order;
    sub_group_sort_order = r.sub_group_sort_order;
  }
]
