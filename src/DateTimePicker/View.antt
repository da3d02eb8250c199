-- ===== src/DateTimePicker/View.antt =====
-- What `DateTimePicker` and its `TimeDropdown` render. The functions of date-fns are parameters.
use telemetryhub.Common.{
  ℕ, zero, suc, String, List, [], ◌∷◌, ◌++◌, Option, none, some, Bool, true, false, if◌then◌else◌,
}
use telemetryhub.Common.Int.{ℤ, pos}
use telemetryhub.Js.Text.{is_empty}
use telemetryhub.Ui.{Widget, shows, button, child, NoChild, when, each}
use telemetryhub.DateTimePicker as D
use telemetryhub.DateTimePicker.{
  Calendar, Picker, Time, Pos, Rect, pad, parse_local, select_day, select_hour, select_minute,
}

-- The flag of a dropdown, and the value that `onSelect` gets.
pub data Choice : Type 0 where
  toggle : Choice
  choose : ℤ → Choice

unfoldable pub dropdown_view : String → ℤ → List ℤ → Bool → List (Widget Choice NoChild)
unfolding when each pad
dropdown_view aria_label value options open? =
    button aria_label false toggle
    ∷ shows (pad value)
    ∷ when open? (each (λ o. button (pad o) false (choose o) ∷ []) options)

unfoldable pub perform_choice : Choice → Bool → Bool × Option ℤ
perform_choice toggle open? = ((if open? then false else true), none)
perform_choice (choose o) open? = (false, some o)

-- `Array.from({ length: n }, (_, i) => i)`
unfoldable pub count_from : ℕ → ℕ → List ℤ
count_from i zero = []
count_from i (suc n) = pos i ∷ count_from (suc i) n

abbrev pub hour_options : List ℤ
hour_options = count_from 0 24

abbrev pub minute_options : List ℤ
minute_options = count_from 0 60

pub data Action (Date : Type 0) : Type 0 where
  open_popover previous_month next_month : Action Date
  pick_day : Date → Action Date

-- The props of a dropdown: its label, value and options.
pub record Dropdown : Type 0 where
  pub aria_label : String
  pub value : ℤ
  pub options : List ℤ

module _ {Date : Type 0} (calendar : Calendar Date) (number : String → Option ℤ) where
  -- The functions of date-fns; those on weeks get `weekStartsOn`.
  pub record Fns : Type 0 where
    pub start_of_month : Date → Date
    pub end_of_month : Date → Date
    pub start_of_week : Date → ℕ → Date
    pub end_of_week : Date → ℕ → Date
    pub each_day_of_interval : Date → Date → List Date
    pub format : Date → String → String
    pub sub_months : Date → ℕ → Date
    pub add_months : Date → ℕ → Date

  module _ (fns : Fns) where
    -- The days of the weeks, from Monday, that the month has days in.
    unfoldable pub days : Date → List Date
    days view_month =
        let start = fns.start_of_week (fns.start_of_month view_month) 1 in
        let end = fns.end_of_week (fns.end_of_month view_month) 1 in
        fns.each_day_of_interval start end

    abbrev weekday_headers : List (Widget (Action Date) Dropdown)
    weekday_headers =
        shows "Mo"
        ∷ shows "Tu"
        ∷ shows "We"
        ∷ shows "Th"
        ∷ shows "Fr"
        ∷ shows "Sa"
        ∷ shows "Su"
        ∷ []

    unfoldable pub calendar_view : Picker Date → List (Widget (Action Date) Dropdown)
    unfolding each count_from days
    calendar_view s =
        button "Previous month" false previous_month
          ∷ shows (fns.format s.view_month "MMMM yyyy")
          ∷ button "Next month" false next_month
          ∷ weekday_headers
        ++ each (λ day. button (fns.format day "d") false (pick_day day) ∷ []) (days s.view_month)
        ++ shows "Time"
          ∷ child (record { aria_label = "Hour"; value = s.time.hour; options = hour_options })
          ∷ shows ":"
          ∷ child
              (record { aria_label = "Minute"; value = s.time.minute; options = minute_options })
          ∷ []

    abbrev has_pos : Option Pos → Bool
    has_pos none = false
    has_pos (some p) = true

    unfoldable pub view :
        String → String → String → Option Pos → Picker Date → List (Widget (Action Date) Dropdown)
    unfolding when calendar_view parse_local
    view aria_label placeholder value pos' s =
        button aria_label false open_popover
        ∷ shows (
            if is_empty value
            then placeholder
            else fns.format (parse_local calendar number value) "yyyy-MM-dd HH:mm")
        ∷ when s.open? (when (has_pos pos') (calendar_view s))

    -- The state afterwards, with the place of the popover, and what `onChange` gets; `rect` is the
    -- trigger's, if it is mounted.
    unfoldable pub perform :
        Option Rect
        → Action Date
        → Option Pos × Picker Date
        → (Option Pos × Picker Date) × Option String
    unfolding select_day
    perform none open_popover (p, s) = ((p, s), none)
    perform (some rect) open_popover (p, s) =
        ((some (D.open_popover rect), record s { open? = true }), none)
    perform rect previous_month (p, s) =
        ((p, record s { view_month = fns.sub_months s.view_month 1 }), none)
    perform rect next_month (p, s) =
        ((p, record s { view_month = fns.add_months s.view_month 1 }), none)
    perform rect (pick_day day) (p, s) = let r = select_day calendar number day s in ((p, r.0), r.1)

    -- What the two dropdowns do.
    unfoldable pub perform_time : String → Bool → ℤ → Picker Date → Picker Date × Option String
    unfolding select_hour select_minute
    perform_time value is_hour n s =
        if is_hour
        then select_hour calendar number value n s
        else select_minute calendar number value n s
