-- ===== src/DateTimePicker/Placing.antt =====
-- Where the popover of the picker stands.
use telemetryhub.Common.{◌≡◌, arith, ◌⊎◌, inl, inr, Bool-cases}
use telemetryhub.Common.Int.{
  ℤ, pos, ◌+ℤ◌, ◌-ℤ◌, ◌≤ℤ◌, +ℤ_parts, -ℤ_parts, eq_of_parts, ltb_ℤ, leb_ℤ,
}
use telemetryhub.DateTimePicker.{Rect, place, left_of}

left_of_fits :
    (rect : Rect) (inner_width : ℤ)
    → pos 304 ≤ℤ inner_width
    → (left_of rect inner_width ≤ℤ rect.left)
      × ((left_of rect inner_width +ℤ pos 288 +ℤ pos 8) ≤ℤ inner_width)
unfolding left_of
left_of_fits rect inner_width w =
    let cut = inner_width -ℤ pos 288 in
    let e1 = -ℤ_parts inner_width (pos 288) in
    let e2 = -ℤ_parts cut (pos 8) in
    let left = left_of rect inner_width in
    let e3 = +ℤ_parts left (pos 288) in
    let e4 = +ℤ_parts (left +ℤ pos 288) (pos 8) in (ground arith, ground arith)

-- For a trigger that ends at least 2 pixels below the top and a window at least 304 pixels wide, the
-- popover stands at least 8 pixels below the top, not right of the start of its trigger, and ends at
-- least 8 pixels left of the right edge. It ends at least 8 pixels above the bottom, or starts at 8
-- pixels, or ends 6 pixels above its trigger.
pub place_lem :
    (rect : Rect) (popup_height inner_width inner_height : ℤ)
    → pos 2 ≤ℤ rect.bottom
    → pos 304 ≤ℤ inner_width
    → let p = place rect popup_height inner_width inner_height in
      (pos 8 ≤ℤ p.top)
      × (p.left ≤ℤ rect.left)
      × ((p.left +ℤ p.width +ℤ pos 8) ≤ℤ inner_width)
      × (((p.top +ℤ popup_height +ℤ pos 8) ≤ℤ inner_height)
          ⊎ ((p.top ≡ pos 8) ⊎ ((p.top +ℤ popup_height +ℤ pos 6) ≡ rect.top)))
unfolding place left_of
place_lem rect popup_height inner_width inner_height h w =
    let below = rect.bottom +ℤ pos 6 in
    let lowest = below +ℤ popup_height in
    let limit = inner_height -ℤ pos 8 in
    let above = rect.top -ℤ popup_height in
    let cut = inner_width -ℤ pos 288 in
    let e1 = +ℤ_parts rect.bottom (pos 6) in
    let e2 = +ℤ_parts below popup_height in
    let e3 = -ℤ_parts inner_height (pos 8) in
    let e4 = -ℤ_parts rect.top popup_height in
    let e5 = -ℤ_parts above (pos 6) in
    let left = left_of rect inner_width in
    let (in_reach, fits) = left_of_fits rect inner_width w in
    elim (Bool-cases (ltb_ℤ limit lowest)) [
      | inl flips ↦ elim (Bool-cases (leb_ℤ (pos 8) (above -ℤ pos 6))) [
        | inl room ↦
            let e6 = +ℤ_parts (above -ℤ pos 6) popup_height in
            let e7 = +ℤ_parts (above -ℤ pos 6 +ℤ popup_height) (pos 6) in
            let back : above -ℤ pos 6 +ℤ popup_height +ℤ pos 6 ≡ rect.top =
              eq_of_parts (above -ℤ pos 6 +ℤ popup_height +ℤ pos 6) rect.top (omega arith) in
            (ground arith, in_reach, fits, inr (inr (ground arith)))
        | inr tight ↦ (ground arith, in_reach, fits, inr (inl (ground arith)))
      ]
      | inr stays ↦
          let e6 = +ℤ_parts lowest (pos 8) in (ground arith, in_reach, fits, inl (ground arith))
    ]
