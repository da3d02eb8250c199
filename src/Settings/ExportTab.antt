-- ===== src/Settings/ExportTab.antt =====
-- `ExportTab`: which fields are exported, for which time, and the download.
pub mod Toggle
pub mod Download
pub mod View
pub mod Controls
use Prim.Native.Char.{code}
use Prim.Native.String
use telemetryhub.Common.{
  ℕ, String, List, [], ◌∷◌, ◌++◌, Option, none, some, Bool, true, false, not, ◌&&◌, ◌||◌, filter,
  length, ltb, leb, nat_beq, if◌then◌else◌, ◌==◌, string_eq,
}
use telemetryhub.Common.Int.{ℤ, ltb_ℤ}
use telemetryhub.Js.Map.{get, includes, add, remove, of_list}
use telemetryhub.Js.Text.{text, trimmed, is_empty}
use telemetryhub.Js.Text.Percent.{is_alnum}
use telemetryhub.Api.Types.{FieldRename, Format, csv, json, Blob}
use telemetryhub.Api.Calls.{Call}
use telemetryhub.Api.Replies.{ok, err}
use telemetryhub.Handler.{M, pure, ◌>>=◌, ◌>>◌, modify, emit, call, try_catch, finally, saved}
use telemetryhub.Settings.Context.{GroupContext}

pub record Tab : Type 0 where
  pub selected : List String
  pub from : String
  pub to : String
  pub error : Option String
  pub downloading : Option Format

abbrev pub start : Tab
start = record { selected = []; from = ""; to = ""; error = none; downloading = none }

-- `renames.some((r) => r.raw_field === f && !!r.chart_group?.trim())`
unfoldable pub has_group : List FieldRename → String → Bool
has_group [] f = false
has_group (r ∷ rs) f =
    r.raw_field == f && (elim (trimmed r.chart_group) [ none ↦ false | some g ↦ true ])
    || has_group rs f

unfoldable pub ungrouped_fields : List FieldRename → List String → List String
ungrouped_fields renames fields = filter (λ f. not (has_group renames f)) fields

unfoldable pub toggle_field : String → List String → List String
toggle_field f prev = if includes prev f then remove f prev else add f prev

-- `groupFields.every((f) => next.has(f))`
unfoldable pub every_has : List String → List String → Bool
every_has next [] = true
every_has next (f ∷ fs) = includes next f && every_has next fs

unfoldable pub add_each : List String → List String → List String
add_each next [] = next
add_each next (f ∷ fs) = add_each (add f next) fs

unfoldable pub remove_each : List String → List String → List String
remove_each next [] = next
remove_each next (f ∷ fs) = remove_each (remove f next) fs

abbrev pub fields_of : GroupContext → String → List String
fields_of c g = elim (get g c.groups) [ none ↦ [] | some e ↦ e.fields ]

unfoldable pub toggle_group : GroupContext → String → List String → List String
toggle_group c g prev =
    if every_has prev (fields_of c g)
    then remove_each prev (fields_of c g)
    else add_each prev (fields_of c g)

unfoldable pub select_all : List String → Tab → Tab
unfolding of_list
select_all fields s = record s { selected = of_list fields }

unfoldable pub clear_all : Tab → Tab
clear_all s = record s { selected = [] }

-- `deviceId.replace(/[^A-Za-z0-9._-]+/g, '_')`
abbrev pub is_file_char : ℕ → Bool
is_file_char c = is_alnum c || nat_beq c b'.' || nat_beq c b'_' || nat_beq c b'-'

unfoldable pub file_name_from : Bool → String → String
unfolding is_alnum
file_name_from in_run String.[] = ""
file_name_from in_run (String.◌∷◌ c s) =
    let rest = file_name_from (not (is_file_char (code c))) s in
    if is_file_char (code c)
    then String.◌∷◌ c rest
    else if in_run
    then rest
    else String.◌++◌ "_" rest

-- `s.replace(/[:.]/g, '-')`
unfoldable pub dashes : String → String
dashes String.[] = ""
dashes (String.◌∷◌ c s) =
    let rest = dashes s in
    if nat_beq (code c) b':' || nat_beq (code c) b'.'
    then String.◌++◌ "-" rest
    else String.◌∷◌ c rest

abbrev pub extension : Format → String
extension csv = "csv"
extension json = "json"

-- `new Date(s)`, as milliseconds or none for an invalid date, and `toISOString` of a valid one, are
-- the engine's.
module _ (time_of : String → Option ℤ) (to_iso : ℤ → String) where
  abbrev earlier : Option ℤ → Option ℤ → Bool
  earlier none b = false
  earlier (some a) none = false
  earlier (some a) (some b) = ltb_ℤ a b

  unfoldable pub range_valid : Tab → Bool
  range_valid s =
      if is_empty s.from || is_empty s.to then false else earlier (time_of s.from) (time_of s.to)

  abbrev is_none {ℓ} : {A : Type ℓ} → Option A → Bool
  is_none none = true
  is_none (some a) = false

  abbrev is_nil {ℓ} : {A : Type ℓ} → List A → Bool
  is_nil [] = true
  is_nil (x ∷ xs) = false

  unfoldable pub can_download : Tab → Bool
  can_download s = not (is_nil s.selected) && range_valid s && is_none s.downloading

  -- `new Date(s).toISOString()` throws on an invalid date.
  abbrev pub iso : String → M Tab String
  iso s env w = elim (time_of s) [
    | none ↦ (err "Invalid time value", w)
    | some t ↦ (ok (to_iso t), w)
  ]

  abbrev pub download_name : String → String → String → Format → String
  download_name device_id from to format = text (
      file_name_from false device_id
      ∷ "_"
      ∷ dashes from
      ∷ "_"
      ∷ dashes to
      ∷ "."
      ∷ extension format
      ∷ [])

  unfoldable pub handle_download : String → Tab → Format → M Tab (Unit {0})
  handle_download device_id seen format = do
    modify (λ s. record s { error = none; downloading = some format })
    finally
        (try_catch
          (do
            from ← iso seen.from
            to ← iso seen.to
            blob ← call (Call.export_device_data device_id seen.selected from to format)
            emit (saved (download_name device_id from to format) blob))
          (λ e. modify (λ s. record s { error = some e })))
        (modify (λ s. record s { downloading = none }))
