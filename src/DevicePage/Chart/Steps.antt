-- ===== src/DevicePage/Chart/Steps.antt =====
-- The states of a chart that the mouse can bring about.
use telemetryhub.Common.{
  ◌+◌, ◌≤◌, Bool, false, if◌then◌else◌, String, [], Option, none, some, true, ◌≡◌, refl, arith, ◌↔◌,
  inl, inr, Option-cases, ◌⊎◌, Bool-cases, ◌&&◌, not, ltb,
}
use telemetryhub.Common.Int.{ℤ, ◌≤ℤ◌, leb_ℤ, pos_part, neg_part}
use telemetryhub.Ui.{when}
use telemetryhub.DevicePage.Chart.{
  ChartState, Drag, Zoom, idle, handle_mouse_down, handle_mouse_move, handle_mouse_up,
  handle_mouse_leave, handle_reset_zoom, distance, min_ℤ, max_ℤ,
}
use telemetryhub.DevicePage.Chart.View.{
  Action, press, move, release, leave, double_click, reset, overlay, perform,
}

-- The times that a date can have, in milliseconds before or after 1970.
abbrev pub IsTime : ℤ → Type 0
IsTime t = pos_part t + neg_part t ≤ 8640000000000000

-- What the scale of a chart is relied on for: a pixel to the right is not an earlier time, and the two ends of a drag
-- have times of dates, of other times `toISOString` throws.
abbrev pub Dates : Option (ℤ → ℤ) → Option Drag → Type 0
Dates none drag = Unit
Dates (some time_at) none = (x y : ℤ) → x ≤ℤ y → time_at x ≤ℤ time_at y
Dates (some time_at) (some d) =
    ((x y : ℤ) → x ≤ℤ y → time_at x ≤ℤ time_at y)
    × IsTime (time_at d.start_x)
    × IsTime (time_at d.cur_x)

-- The scale is read anew at each step: it changes with the zoom, with the readings and with the size.
module _ (to_iso : ℤ → String) where
  pub data Reach : ChartState → Type 0 where
    first : Reach idle
    next :
        {s : ChartState} (scale : Option (ℤ → ℤ)) (a : Action)
        → Dates scale s.drag_state
        → Reach s
        → Reach (perform to_iso scale a s)

  -- A drag that is noted is active.
  abbrev IsHeld : Option Drag → Type 0
  IsHeld none = Unit
  IsHeld (some d) = d.active ≡ true

  perform-IsHeld :
      (scale : Option (ℤ → ℤ)) (a : Action) (s : ChartState)
      → IsHeld s.drag_state
      → IsHeld (perform to_iso scale a s).drag_state
  unfolding perform handle_mouse_down handle_mouse_move handle_mouse_up handle_mouse_leave
      handle_reset_zoom
  perform-IsHeld scale (press x) s h = refl
  perform-IsHeld scale (move x) s h = ground arith
  perform-IsHeld scale release s h = ground arith
  perform-IsHeld scale leave s h = ground arith
  perform-IsHeld scale double_click s h = h
  perform-IsHeld scale reset s h = h

  Reach-IsHeld : {s : ChartState} → Reach s → IsHeld s.drag_state
  Reach-IsHeld first = tt
  Reach-IsHeld (next {s} scale a dates r) = perform-IsHeld scale a s (Reach-IsHeld r)

  overlay-nil : (o : Option Drag) → IsHeld o → (overlay o ≡ []) ↔ (o ≡ none)
  unfolding when
  overlay-nil none h = (λ e. refl, λ e. refl)
  overlay-nil (some d) h = (λ e. absurd (ground arith), λ e. absurd (ground arith))

  -- In every state that the mouse brings about, releasing the button and leaving the chart end the
  -- drag, and the dragged range is marked exactly while there is a drag.
  pub drag_ends :
      {s : ChartState} (scale : Option (ℤ → ℤ))
      → Reach s
      → ((perform to_iso scale release s).drag_state ≡ none)
        × ((perform to_iso scale leave s).drag_state ≡ none)
        × ((overlay s.drag_state ≡ []) ↔ (s.drag_state ≡ none))
  unfolding perform handle_mouse_up handle_mouse_leave
  drag_ends {s} scale r =
      let h = Reach-IsHeld r in (ground arith, ground arith, overlay-nil s.drag_state h)

  held_Dates :
      (time_at : ℤ → ℤ) (d : Drag) (drag : Option Drag)
      → drag ≡ some d
      → Dates (some time_at) drag
      → Dates (some time_at) (some d)
  held_Dates time_at d drag held dates = coe 0 1 (i. Dates (some time_at) (held i)) dates

  either_IsTime :
      (time_at : ℤ → ℤ) (x y : ℤ) (left : Bool)
      → IsTime (time_at x)
      → IsTime (time_at y)
      → IsTime (time_at (if left then x else y))
  either_IsTime time_at x y true h k = h
  either_IsTime time_at x y false h k = k

  -- Releasing the button keeps the zoom, or sets it to two times of dates, the earlier first.
  release-zoom :
      (scale : Option (ℤ → ℤ)) (s : ChartState)
      → Dates scale s.drag_state
      → let z = (handle_mouse_up to_iso scale s).zoom_range in
        (z ≡ s.zoom_range)
        ⊎ ((a : ℤ) × (b : ℤ) × IsTime a
            × IsTime b
            × (a ≤ℤ b)
            × (z ≡ some (record { from = to_iso a; to = to_iso b })))
  unfolding handle_mouse_up
  release-zoom none s dates = inl (ground arith)
  release-zoom (some time_at) s dates = elim (Option-cases s.drag_state) [
    | inl free ↦ inl (ground arith)
    | inr (d, held) ↦
        let pair = held_Dates time_at d s.drag_state held dates in
        elim (Bool-cases (d.active && not (ltb (distance d.cur_x d.start_x) 10))) [
          | inr near ↦ inl (ground arith)
          | inl far ↦ inr (
            time_at (min_ℤ d.start_x d.cur_x),
            time_at (max_ℤ d.start_x d.cur_x),
            either_IsTime time_at d.start_x d.cur_x (leb_ℤ d.start_x d.cur_x) pair.1 pair.2,
            either_IsTime time_at d.cur_x d.start_x (leb_ℤ d.start_x d.cur_x) pair.2 pair.1,
            pair.0 (min_ℤ d.start_x d.cur_x) (max_ℤ d.start_x d.cur_x) (ground arith),
            ground arith,
          )
        ]
  ]

  -- What the date functions are relied on for: a date that is written is read back.
  module _ (time_of : String → Option ℤ)
      (reads_back : (t : ℤ) → IsTime t → time_of (to_iso t) ≡ some t) where
    -- Both ends of a zoom are times, the earlier first.
    abbrev pub IsOrdered : Option Zoom → Type 0
    IsOrdered none = Unit
    IsOrdered (some z) =
        (a : ℤ) × (b : ℤ) × (time_of z.from ≡ some a) × (time_of z.to ≡ some b) × (a ≤ℤ b)

    release-IsOrdered :
        (scale : Option (ℤ → ℤ)) (s : ChartState)
        → Dates scale s.drag_state
        → IsOrdered s.zoom_range
        → IsOrdered (handle_mouse_up to_iso scale s).zoom_range
    release-IsOrdered scale s dates h = elim (release-zoom scale s dates) [
      | inl same ↦ rw same h
      | inr (a, b, ta, tb, le, e) ↦ rw e (a, b, reads_back a ta, reads_back b tb, le)
    ]

    perform-IsOrdered :
        (scale : Option (ℤ → ℤ)) (a : Action) (s : ChartState)
        → Dates scale s.drag_state
        → IsOrdered s.zoom_range
        → IsOrdered (perform to_iso scale a s).zoom_range
    unfolding perform handle_mouse_down handle_mouse_move handle_mouse_leave handle_reset_zoom
    perform-IsOrdered scale (press x) s dates h = h
    perform-IsOrdered scale (move x) s dates h = ground arith
    perform-IsOrdered scale release s dates h = release-IsOrdered scale s dates h
    perform-IsOrdered scale leave s dates h = ground (arith, release-IsOrdered scale s dates h)
    perform-IsOrdered scale double_click s dates h = tt
    perform-IsOrdered scale reset s dates h = tt

    -- If dates are read back as written, and at each step the scale of that time puts a pixel to the right at no
    -- earlier time and the ends of the drag at times of dates, then the zoom of every state that the mouse brings about
    -- begins no later than it ends.
    pub zoom-IsOrdered : {s : ChartState} → Reach s → IsOrdered s.zoom_range
    zoom-IsOrdered first = tt
    zoom-IsOrdered (next {s} scale a dates r) = perform-IsOrdered scale a s dates (zoom-IsOrdered r)
