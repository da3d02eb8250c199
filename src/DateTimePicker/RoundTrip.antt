-- ===== src/DateTimePicker/RoundTrip.antt =====
-- The text of the picker is read back as it was written.
use Prim.Native.String
use package.text.Mathlib.TextLemmas.{append-nil, append_assoc}
use telemetryhub.Common.{
  ◌<◌, ℕ, ◌+◌, String, ◌≡◌, refl, [], ◌∷◌, Option, some, arith, ltb, ap, ◌∙◌, Bool-cases, inl, inr,
}
use telemetryhub.Common.Int.{ℤ, pos, ◌+ℤ◌, ◌-ℤ◌}
use telemetryhub.Js.Text.{text, split, decimal, size}
use telemetryhub.Js.Text.Split.{
  Avoids, Avoids-append, NoDigit, split_at, split_only, contains_at, is_empty_at, decimal-Avoids,
}
use telemetryhub.DateTimePicker.Numbers.{ReadsDigits, decimal_read, pad_read}
use telemetryhub.DateTimePicker.{Calendar, Time, shown, pad, extract_time, parse_local, emitted}

pad-Avoids : (c n : ℕ) → NoDigit c → Avoids c (pad (pos n))
unfolding pad shown text
pad-Avoids c n h =
    let d = decimal-Avoids c n h in
    elim (Bool-cases (ltb (size (decimal n)) 1)) [
      | inl blank ↦ rw blank (
          Avoids-append c "00" _ (ground arith, (ground arith, tt))
            (Avoids-append c (decimal n) "" d tt))
      | inr some_ ↦ elim (Bool-cases (ltb (size (decimal n)) 2)) [
        | inl short ↦
            rw (some_, short)
              (Avoids-append c "0" _ (ground arith, tt) (Avoids-append c (decimal n) "" d tt))
        | inr long ↦ rw (some_, long) d
      ]
    ]

-- The texts of a day, and of a time.
abbrev day_text : String → String → String → String
day_text y m d = String.◌++◌ y (String.◌++◌ "-" (String.◌++◌ m (String.◌++◌ "-" d)))

abbrev time_text : String → String → String
time_text h m = String.◌++◌ h (String.◌++◌ ":" m)

joined :
    (y m d h mi : String)
    → text (y ∷ "-" ∷ m ∷ "-" ∷ d ∷ "T" ∷ h ∷ ":" ∷ mi ∷ [])
      ≡ String.◌++◌ (day_text y m d) (String.◌++◌ "T" (time_text h mi))
unfolding text
joined y m d h mi = simp (append_assoc, append-nil)

module _ (y m d h mi : ℕ) where
  abbrev day : String
  day = day_text (decimal y) (pad (pos m)) (pad (pos d))

  abbrev time : String
  time = time_text (pad (pos h)) (pad (pos mi))

  abbrev pub whole : String
  whole = String.◌++◌ day (String.◌++◌ "T" time)

  day-Avoids : Avoids b'T' day
  day-Avoids = Avoids-append b'T' (decimal y) _ (decimal-Avoids b'T' y refl) (
      Avoids-append b'T' "-" _ (refl, tt)
        (Avoids-append b'T' (pad (pos m)) _ (pad-Avoids b'T' m refl)
          (Avoids-append b'T' "-" _ (refl, tt) (pad-Avoids b'T' d refl))))

  time-Avoids : Avoids b'T' time
  time-Avoids =
      Avoids-append b'T' (pad (pos h)) _ (pad-Avoids b'T' h refl)
        (Avoids-append b'T' ":" _ (refl, tt) (pad-Avoids b'T' mi refl))

  split-T : split whole "T" ≡ day ∷ time ∷ []
  split-T = split_at "T" day time day-Avoids ∙ ap (λ r. day ∷ r) (split_only "T" time time-Avoids)

  split-day : split day "-" ≡ decimal y ∷ pad (pos m) ∷ pad (pos d) ∷ []
  split-day =
      split_at "-" (decimal y) _ (decimal-Avoids b'-' y refl)
      ∙ ap (λ r. decimal y ∷ r)
          (split_at "-" (pad (pos m)) (pad (pos d)) (pad-Avoids b'-' m refl)
            ∙ ap (λ r. pad (pos m) ∷ r) (split_only "-" (pad (pos d)) (pad-Avoids b'-' d refl)))

  split-time : split time ":" ≡ pad (pos h) ∷ pad (pos mi) ∷ []
  split-time =
      split_at ":" (pad (pos h)) (pad (pos mi)) (pad-Avoids b':' h refl)
      ∙ ap (λ r. pad (pos h) ∷ r) (split_only ":" (pad (pos mi)) (pad-Avoids b':' mi refl))

  module _ (number : String → Option ℤ) (hour_read : number (pad (pos h)) ≡ some (pos h))
      (minute_read : number (pad (pos mi)) ≡ some (pos mi)) where
    extract_time-whole : extract_time number whole ≡ record { hour = pos h; minute = pos mi }
    unfolding extract_time
    extract_time-whole =
        rw
          (
            is_empty_at "T" day time,
            contains_at "T" day time,
            split-T,
            split-time,
            hour_read,
            minute_read,
          )
          refl

    parse_local-whole :
        {Date : Type 0} (calendar : Calendar Date)
        → number (decimal y) ≡ some (pos y)
        → number (pad (pos m)) ≡ some (pos m)
        → number (pad (pos d)) ≡ some (pos d)
        → parse_local calendar number whole
          ≡ calendar.make (some (pos y)) (some (pos m -ℤ pos 1)) (some (pos d)) (pos h) (pos mi)
    unfolding parse_local
    parse_local-whole calendar year_read month_read day_read =
        rw
          (
            parse_local, split-T, split-day, split-time, hour_read, minute_read, year_read,
            month_read, day_read,
          )
          refl

plus_one : (m : ℕ) → pos m +ℤ pos 1 ≡ pos (m + 1)
unfolding ◌+ℤ◌
plus_one m = ground arith

minus_one : (m : ℕ) → pos (m + 1) -ℤ pos 1 ≡ pos m
unfolding ◌-ℤ◌
minus_one m = ground arith

-- What the picker emits for a day and a time is read back, as the time and as the local time of the
-- day's parts, if `Number` reads digits and the parts are those of a day of the years 0 to 275760.
pub emitted_read_back :
    {Date : Type 0} (calendar : Calendar Date) (number : String → Option ℤ) (day : Date)
    (y m d h mi : ℕ)
    → ReadsDigits number
    → y < 275761
    → m < 12
    → d < 32
    → h < 24
    → mi < 60
    → let local =
        calendar.make
          (some (calendar.full_year day))
          (some (calendar.month day))
          (some (calendar.date day))
          (pos h)
          (pos mi) in
      calendar.full_year local ≡ pos y
      → calendar.month local ≡ pos m
      → calendar.date local ≡ pos d
      → let t : Time = record { hour = pos h; minute = pos mi } in
        let v = emitted calendar number day t in
        (extract_time number v ≡ t)
        × (parse_local calendar number v
            ≡ calendar.make (some (pos y)) (some (pos m)) (some (pos d)) (pos h) (pos mi))
unfolding emitted shown
emitted_read_back calendar number day y m d h mi reads by bm bd bh bmi ey em ed =
    let v = whole y (m + 1) d h mi in
    let e : emitted calendar number day (record { hour = pos h; minute = pos mi }) ≡ v =
      rw (ey, em, ed, plus_one m)
        (joined (decimal y) (pad (pos (m + 1))) (pad (pos d)) (pad (pos h)) (pad (pos mi))) in
    let rh = pad_read number reads h (omega arith) in
    let rmi = pad_read number reads mi (omega arith) in
    rw e (
      extract_time-whole y (m + 1) d h mi number rh rmi,
      parse_local-whole y (m + 1) d h mi number rh rmi calendar
            (decimal_read number reads y (omega arith))
            (pad_read number reads (m + 1) (omega arith)) (pad_read number reads d (omega arith))
          ∙ ap (λ k. calendar.make (some (pos y)) (some k) (some (pos d)) (pos h) (pos mi))
              (minus_one m),
    )
