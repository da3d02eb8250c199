-- ===== src/DateTimePicker.antt =====
-- `DateTimePicker` of frontend/src/components/date-time-picker.tsx. A date of the engine is of a type `Date`;
-- its constructor and getters in local time, and the calendar of date-fns, are parameters. A number is
-- none for NaN. `Number` on a text is a parameter too.
pub mod Placing
pub mod RoundTrip
pub mod Numbers
pub mod View
use Prim.Native.String
use telemetryhub.Common.{
  ℕ, ◌+◌, String, List, [], ◌∷◌, Option, none, some, Bool, true, false, not, ◌&&◌, ltb, get_elem?,
  if◌then◌else◌, map, ◌==◌, string_eq,
}
use telemetryhub.Common.Int.{ℤ, pos, negsuc, ◌+ℤ◌, leb_ℤ, ltb_ℤ, ◌-ℤ◌}
use telemetryhub.Js.Text.{text, is_empty, missing_or, split, contains, decimal, size}

pub record Time : Type 0 where
  pub hour : ℤ
  pub minute : ℤ

-- `hh || 0`
abbrev pub or_zero : Option ℤ → ℤ
or_zero none = pos 0
or_zero (some n) = n

-- `${n}` for an integer
unfoldable pub shown : ℤ → String
shown (pos n) = decimal n
shown (negsuc n) = text ("-" ∷ decimal (n + 1) ∷ [])

-- `String(n).padStart(2, '0')`
unfoldable pub pad : ℤ → String
unfolding shown
pad n =
    let s = shown n in
    if ltb (size s) 1
    then text ("00" ∷ s ∷ [])
    else if ltb (size s) 2
    then text ("0" ∷ s ∷ [])
    else s

-- `const [a, b] = parts.map(Number)`: what is missing is undefined, and counts as NaN here.
abbrev number_at : (String → Option ℤ) → List String → ℕ → Option ℤ
number_at number parts i = elim (get_elem? parts i) [ none ↦ none | some s ↦ number s ]

unfoldable pub extract_time : (String → Option ℤ) → String → Time
unfolding split
extract_time number v =
    let time_part : String =
      if contains v "T" then missing_or (get_elem? (split v "T") 1) "" else "00:00" in
    let parts = split time_part ":" in
    if is_empty v then record { hour = pos 0; minute = pos 0 } else record {
      hour = or_zero (number_at number parts 0);
      minute = or_zero (number_at number parts 1);
    }

module _ (Date : Type 0) where
  -- `new Date(y, m, d, hh, mm)` and the getters
  pub record Calendar : Type 0 where
    pub make : Option ℤ → Option ℤ → Option ℤ → ℤ → ℤ → Date
    pub full_year : Date → ℤ
    pub month : Date → ℤ
    pub date : Date → ℤ

  pub record Picker : Type 0 where
    pub open? : Bool
    pub view_month : Date
    pub time : Time

module _ {Date : Type 0} (calendar : Calendar Date) (number : String → Option ℤ) where
  -- `m - 1`, which is NaN for NaN
  abbrev less_one : Option ℤ → Option ℤ
  less_one none = none
  less_one (some m) = some (m -ℤ pos 1)

  unfoldable pub parse_local : String → Date
  unfolding split
  parse_local v =
      let halves = split v "T" in
      let day = split (missing_or (get_elem? halves 0) "") "-" in
      let clock = split (missing_or (get_elem? halves 1) "00:00") ":" in
      calendar.make (number_at number day 0) (less_one (number_at number day 1))
        (number_at number day 2) (or_zero (number_at number clock 0))
        (or_zero (number_at number clock 1))

  -- The text that `emit` passes on: the day of the date, and the time.
  unfoldable pub emitted : Date → Time → String
  unfolding pad shown
  emitted day t =
      let local =
        calendar.make (some (calendar.full_year day)) (some (calendar.month day))
          (some (calendar.date day)) t.hour t.minute in
      text (
        shown (calendar.full_year local)
        ∷ "-"
        ∷ pad (calendar.month local +ℤ pos 1)
        ∷ "-"
        ∷ pad (calendar.date local)
        ∷ "T"
        ∷ pad t.hour
        ∷ ":"
        ∷ pad t.minute
        ∷ [])

  -- The first state.
  unfoldable pub start : Date → String → Picker Date
  unfolding parse_local extract_time
  start now value = record {
    open? = false;
    view_month = if is_empty value then now else parse_local value;
    time = extract_time number value;
  }

  -- `selectedDate`
  unfoldable pub selected_date : String → Option Date
  unfolding parse_local
  selected_date value = if is_empty value then none else some (parse_local value)

  -- The handlers give the new state and the value passed to `onChange`, if any.
  unfoldable pub select_day : Date → Picker Date → Picker Date × Option String
  unfolding emitted
  select_day day s = (record s { view_month = day }, some (emitted day s.time))

  unfoldable pub emit_selected : String → Time → Option String
  unfolding selected_date emitted
  emit_selected value t = elim (selected_date value) [
    | none ↦ none
    | some day ↦ some (emitted day t)
  ]

  unfoldable pub select_hour : String → ℤ → Picker Date → Picker Date × Option String
  unfolding emit_selected
  select_hour value h s =
      let next : Time = record s.time { hour = h } in
      (record s { time = next }, emit_selected value next)

  unfoldable pub select_minute : String → ℤ → Picker Date → Picker Date × Option String
  unfolding emit_selected
  select_minute value m s =
      let next : Time = record s.time { minute = m } in
      (record s { time = next }, emit_selected value next)

-- The place of the popover. Lengths are whole pixels.
pub record Rect : Type 0 where
  pub top : ℤ
  pub bottom : ℤ
  pub left : ℤ
  pub height : ℤ

pub record Pos : Type 0 where
  pub top : ℤ
  pub left : ℤ
  pub width : ℤ

abbrev min : ℤ → ℤ → ℤ
min a b = if leb_ℤ a b then a else b

abbrev max : ℤ → ℤ → ℤ
max a b = if leb_ℤ a b then b else a

-- `openPopover`
unfoldable pub open_popover : Rect → Pos
open_popover rect = record { top = rect.bottom +ℤ pos 6; left = pos 0; width = pos 288 }

unfoldable pub left_of : Rect → ℤ → ℤ
left_of rect inner_width = min rect.left (max (pos 8) (inner_width -ℤ pos 288 -ℤ pos 8))

-- The layout effect, with the height of the popover and the size of the window.
unfoldable pub place : Rect → ℤ → ℤ → ℤ → Pos
unfolding left_of
place rect popup_height inner_width inner_height =
    let below = rect.bottom +ℤ pos 6 in
    record {
      top =
          if ltb_ℤ (inner_height -ℤ pos 8) (below +ℤ popup_height)
          then max (pos 8) (rect.top -ℤ popup_height -ℤ pos 6)
          else below;
      left = left_of rect inner_width;
      width = pos 288;
    }

-- `onReposition`
unfoldable pub on_reposition : Rect → ℤ → Pos
unfolding left_of
on_reposition rect inner_width = record {
  top = rect.bottom +ℤ pos 6;
  left = left_of rect inner_width;
  width = pos 288;
}
