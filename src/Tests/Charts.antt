-- ===== src/Tests/Charts.antt =====
-- Runs of DevicePage.Chart.
use Prim.Native.Char.{code}
use telemetryhub.Common.{
  ℕ, zero, suc, String, List, [], ◌∷◌, filter, Option, none, some, true, false, ◌≡◌, refl, arith,
  string_eq, ◌+◌, ◌≢◌, get_elem?, nat_beq, if◌then◌else◌,
}
use telemetryhub.Common.Int.{ℤ, pos, negsuc, ◌≤ℤ◌, pos_part}
use telemetryhub.Js.Text.{text}
use telemetryhub.Api.Types.{ReadingData, Decimal}
use telemetryhub.DevicePage.Chart.{
  ChartState, Zoom, idle, in_range, all_field_data, field_data, field_tooltip, zoomed,
  handle_mouse_down, distance, handle_mouse_move, handle_mouse_up,
}
use telemetryhub.DevicePage.Chart.View.{press, move, release, perform}
use telemetryhub.DevicePage.Chart.Steps.{Reach, IsTime, first, next, IsOrdered, zoom-IsOrdered}
use telemetryhub.DevicePage.Chart.Tooltip.{tooltip_outside_zoom}
use telemetryhub.Tests.Data.{reading, decimal}

-- A date as its sign and as many letters.
letters : ℕ → String
letters zero = ""
letters (suc n) = String.◌∷◌ "a" (letters n)

measure : String → ℕ
measure String.[] = 0
measure (String.◌∷◌ c s) = suc (measure s)

measure-letters : (n : ℕ) → measure (letters n) ≡ n
unfolding measure letters
measure-letters zero = refl
measure-letters (suc n) = ground (arith, measure-letters n)

to_iso : ℤ → String
unfolding letters
to_iso (pos n) = String.◌∷◌ "+" (letters n)
to_iso (negsuc n) = String.◌∷◌ "-" (letters n)

time_of : String → Option ℤ
unfolding measure
time_of String.[] = none
time_of (String.◌∷◌ c s) =
    some (if nat_beq (code c) b'+' then pos (measure s) else negsuc (measure s))

reads_back : (t : ℤ) → IsTime t → time_of (to_iso t) ≡ some t
unfolding to_iso time_of
reads_back (pos n) h = ground (arith, measure-letters n)
reads_back (negsuc n) h = ground (arith, measure-letters n)

abbrev readings : List ReadingData
readings = reading "t" "+a" ∷ reading "t" "+aaa" ∷ []

abbrev zoom : Zoom
zoom = record { from = "+aa"; to = "+aaaa" }

first_of_field : all_field_data readings "t" ≡ reading "t" "+a" ∷ reading "t" "+aaa" ∷ []
unfolding all_field_data filter
first_of_field = refl

first_outside : in_range time_of zoom (reading "t" "+a") ≡ false
unfolding time_of
first_outside = refl

shown_in_zoom :
    get_elem? (field_data time_of (some zoom) readings "t") 0 ≡ some (reading "t" "+aaa")
unfolding time_of field_data zoomed all_field_data filter
shown_in_zoom = refl

abbrev digits : Decimal → String
digits d = "1"

tooltip_outside_zoom_example :
    (field_tooltip digits readings "t" "temp" "C" 0 (some (decimal 1))
      ≡ text ("temp" ∷ ": " ∷ "1" ∷ text (" " ∷ "C" ∷ []) ∷ [])
        ∷ text ("  Max: " ∷ "1" ∷ text (" " ∷ "C" ∷ []) ∷ [])
        ∷ text ("  Min: " ∷ "1" ∷ text (" " ∷ "C" ∷ []) ∷ [])
        ∷ [])
    × (in_range time_of zoom (reading "t" "+aaa") ≡ true)
    × (reading "t" "+a" ≢ reading "t" "+aaa")
tooltip_outside_zoom_example =
    tooltip_outside_zoom time_of readings "t" digits "temp" "C" (decimal 1) zoom 0
      (reading "t" "+a" ∷ []) (reading "t" "+aaa" ∷ []) (reading "t" "+a") (reading "t" "+aaa")
      first_of_field (first_outside, tt) refl shown_in_zoom

-- The scale before a zoom, and the one after it.
abbrev wide : ℤ → ℤ
wide x = x

abbrev near : ℤ → ℤ
near x = pos (pos_part x + 7)

wide_monotone : (x y : ℤ) → x ≤ℤ y → wide x ≤ℤ wide y
wide_monotone x y h = h

near_monotone : (x y : ℤ) → x ≤ℤ y → near x ≤ℤ near y
near_monotone x y h = ground arith

abbrev pressed : ChartState
pressed = perform to_iso (some wide) (press (pos 5)) idle

abbrev dragged : ChartState
dragged = perform to_iso (some wide) (move (pos 30)) pressed

abbrev zoomed_in : ChartState
zoomed_in = perform to_iso (some wide) release dragged

abbrev pressed_again : ChartState
pressed_again = perform to_iso (some near) (press (pos 20)) zoomed_in

abbrev dragged_again : ChartState
dragged_again = perform to_iso (some near) (move (pos 2)) pressed_again

abbrev zoomed_again : ChartState
zoomed_again = perform to_iso (some near) release dragged_again

-- Two drags, the second one to the left and with another scale.
zooming : Reach to_iso zoomed_again
unfolding perform handle_mouse_down handle_mouse_move handle_mouse_up distance
zooming =
    next (some near) release (near_monotone, omega arith, omega arith)
      (next (some near) (move (pos 2)) (near_monotone, omega arith, omega arith)
        (next (some near) (press (pos 20)) near_monotone (
          next (some wide) release (wide_monotone, omega arith, omega arith)
            (next (some wide) (move (pos 30)) (wide_monotone, omega arith, omega arith)
              (next (some wide) (press (pos 5)) wide_monotone first)))))

zoom-IsOrdered_example : IsOrdered to_iso time_of reads_back zoomed_again.zoom_range
zoom-IsOrdered_example = zoom-IsOrdered to_iso time_of reads_back zooming
