-- ===== src/Tests/Forms.antt =====
-- Runs of the session and of the date picker.
use telemetryhub.Common.{
  ap, String, [], ◌∷◌, Option, none, some, false, ◌≡◌, refl, ◌⊎◌, string_eq, arith,
}
use telemetryhub.Common.Int.{ℤ, pos}
use telemetryhub.Api.Types.{User}
use telemetryhub.Api.Replies.{Result}
use telemetryhub.Js.Text.Digits.{value_from}
use telemetryhub.Session.Auth.{Auth, mount, checked}
use telemetryhub.Session.Auth.Reachable.{Step, first}
use telemetryhub.Session.Auth.Settles.{Steps, session_settles}
use telemetryhub.Settings.ExportTab as E
use telemetryhub.DateTimePicker.{Calendar, Time, extract_time, parse_local, emitted}
use telemetryhub.DateTimePicker.RoundTrip.{emitted_read_back}
use telemetryhub.DateTimePicker.Numbers.{ReadsDigits}

abbrev reloaded : Auth
reloaded = mount (some "old")

session_settles_example :
    ((reloaded.is_loading ≡ false)
      ⊎ ((a : Result User)
          → Step false reloaded (checked a reloaded) × ((checked a reloaded).is_loading ≡ false)))
    × ((t : Auth) → reloaded.is_loading ≡ false → Steps reloaded t → t.is_loading ≡ false)
session_settles_example = session_settles (first (some "old"))

abbrev export : E.Tab
export = record E.start { selected = "a" ∷ []; from = "1"; to = "2" }

-- A date as its year, month and day, without a clock; months count from 0.
abbrev Date : Type 0
Date = ℤ × (ℤ × ℤ)

abbrev or_none : Option ℤ → ℤ
or_none none = pos 0
or_none (some n) = n

abbrev calendar : Calendar Date
calendar = record {
  make = λ y m d h mi. (or_none y, (or_none m, or_none d));
  full_year = λ d. d.0;
  month = λ d. d.1.0;
  date = λ d. d.1.1;
}

-- `Number` on digits.
abbrev number : String → Option ℤ
number s = some (pos (value_from 0 s))

reads : ReadsDigits number
reads s n d e h = ap (λ k. some (pos k)) e

abbrev leap_day : Date
leap_day = (pos 2024, (pos 1, pos 29))

abbrev early : Time
early = record { hour = pos 7; minute = pos 5 }

emitted_read_back_example :
    let v = emitted calendar number leap_day early in
    (extract_time number v ≡ early)
    × (parse_local calendar number v
        ≡ calendar.make (some (pos 2024)) (some (pos 1)) (some (pos 29)) (pos 7) (pos 5))
emitted_read_back_example =
    emitted_read_back calendar number leap_day 2024 1 29 7 5 reads (omega arith) (omega arith)
      (omega arith) (omega arith) (omega arith) refl refl refl
