-- ===== src/DevicePage/Chart/Dragging.antt =====
-- What dragging over a chart does to its zoom.
use telemetryhub.Common.{◌≤◌, ◌<◌, String, Option, none, some, ◌≡◌, arith, string_eq, refl}
use telemetryhub.Common.Int.{ℤ, ◌≤ℤ◌}
use telemetryhub.DevicePage.Chart.{
  Zoom, ChartState, handle_mouse_down, handle_mouse_move, handle_mouse_up, distance, min_ℤ, max_ℤ,
}

handle_mouse_up_far :
    (to_iso : ℤ → String) (time_at : ℤ → ℤ) (s : ChartState) (x y : ℤ)
    → 10 ≤ distance y x
    → handle_mouse_up to_iso (some time_at) (handle_mouse_move y (handle_mouse_down x s)) ≡ record {
      zoom_range =
          some (record { from = to_iso (time_at (min_ℤ x y)); to = to_iso (time_at (max_ℤ x y)) });
      drag_state = none;
    }
unfolding handle_mouse_up handle_mouse_down handle_mouse_move
handle_mouse_up_far to_iso time_at s x y far = ground arith

-- A shorter drag leaves the zoom as it was.
pub drag_too_short :
    (to_iso : ℤ → String) (scale : Option (ℤ → ℤ)) (s : ChartState) (x y : ℤ)
    → distance y x < 10
    → handle_mouse_up to_iso scale (handle_mouse_move y (handle_mouse_down x s))
      ≡ record s { drag_state = none }
unfolding handle_mouse_up handle_mouse_down handle_mouse_move
drag_too_short to_iso scale s x y near = ground arith

-- What the date functions and the chart's scale are relied on for: a date that is written is read
-- back, and a pixel to the right is not an earlier time.
module _ (to_iso : ℤ → String) (time_of : String → Option ℤ) (time_at : ℤ → ℤ)
    (reads_back : (t : ℤ) → time_of (to_iso t) ≡ some t)
    (monotone : (x y : ℤ) → x ≤ℤ y → time_at x ≤ℤ time_at y) where
  -- If dates are read back as written and a pixel to the right is not an earlier time, a drag
  -- from one pixel to another that is at least ten away, to the left or to the right, zooms to a
  -- range that begins no later than it ends, at the times of the two pixels.
  pub drag_zooms :
      (s : ChartState) (x y : ℤ)
      → 10 ≤ distance y x
      → let r =
          handle_mouse_up to_iso (some time_at) (handle_mouse_move y (handle_mouse_down x s)) in
        (z : Zoom) × (a : ℤ) × (b : ℤ) × (r ≡ record { zoom_range = some z; drag_state = none })
        × (time_of z.from ≡ some a)
        × (time_of z.to ≡ some b)
        × (a ≤ℤ b)
        × (a ≡ time_at (min_ℤ x y))
        × (b ≡ time_at (max_ℤ x y))
  unfolding handle_mouse_down handle_mouse_move
  drag_zooms s x y far =
      let a = time_at (min_ℤ x y) in
      let b = time_at (max_ℤ x y) in
      (
        record { from = to_iso a; to = to_iso b },
        a,
        b,
        handle_mouse_up_far to_iso time_at s x y far,
        reads_back a,
        reads_back b,
        monotone (min_ℤ x y) (max_ℤ x y) (ground arith),
        refl,
        refl,
      )
