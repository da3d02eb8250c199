-- ===== src/DevicePage/Chart/Tooltip.antt =====
-- Which readings a chart plots, and of which its tooltip speaks.
use telemetryhub.Common.{
  String, Option, none, some, Bool, true, false, ◌≡◌, refl, arith, List, [], ◌∷◌, filter, ◌==◌,
  string_eq, All, ℕ, zero, suc, ◌++◌, get_elem?, ◌≢◌, sym, ap, ◌∙◌, if◌then◌else◌,
}
use telemetryhub.Common.Int.{ℤ}
use telemetryhub.Api.Types.{ReadingData, Decimal}
use telemetryhub.Js.Text.{text, is_empty}
use telemetryhub.DevicePage.Chart.{
  Zoom, in_range, zoomed, all_field_data, field_data, tooltip_item, field_tooltip,
}

filter_comm :
    {A : Type 0} (p q : A → Bool) (xs : List A) → filter p (filter q xs) ≡ filter q (filter p xs)
unfolding filter
filter_comm p q [] = refl
filter_comm p q (x ∷ xs) = ground (arith, filter_comm p q xs)

All-filter : {A : Type 0} (p : A → Bool) (xs : List A) → All (λ x. p x ≡ true) (filter p xs)
unfolding filter
All-filter p [] = tt
All-filter p (x ∷ xs) = ground (arith, All-filter p xs)

module _ (time_of : String → Option ℤ) (readings : List ReadingData) (field : String) where
  -- A field's readings are the same on a chart of its own and on the chart of its group, which picks
  -- by time first.
  pub field_data-zoomed :
      (zoom : Option Zoom)
      → field_data time_of zoom readings field
        ≡ filter (λ r. r.field_name == field) (zoomed time_of zoom readings)
  unfolding field_data zoomed all_field_data
  field_data-zoomed none = refl
  field_data-zoomed (some z) =
      filter_comm (in_range time_of z) (λ r. r.field_name == field) readings

  clash : false ≡ true → ⊥
  clash e = absurd (ground arith)

  -- What an index gives of a first part, it gives of the whole.
  get_elem?-append :
      (i : ℕ) (xs ys : List ReadingData) (x : ReadingData)
      → get_elem? xs i ≡ some x
      → get_elem? (xs ++ ys) i ≡ some x
  get_elem?-append i [] ys x h = absurd (ground arith)
  get_elem?-append zero (y ∷ xs) ys x h = h
  get_elem?-append (suc i) (y ∷ xs) ys x h = get_elem?-append i xs ys x h

  All-get_elem? :
      (P : ReadingData → Type 0) (i : ℕ) (xs : List ReadingData) (x : ReadingData)
      → All P xs
      → get_elem? xs i ≡ some x
      → P x
  All-get_elem? P i [] x a h = absurd (ground arith)
  All-get_elem? P zero (y ∷ xs) x (p, a) h = let e : y ≡ x = ground arith in coe 0 1 (i. P (e i)) p
  All-get_elem? P (suc i) (y ∷ xs) x (p, a) h = All-get_elem? P i xs x a h

  tooltip_text :
      (to_fixed : Decimal → String) (name unit : String) (index : ℕ) (val : Decimal)
      (item : ReadingData)
      → tooltip_item readings field index ≡ some item
      → let suffix = if is_empty unit then "" else text (" " ∷ unit ∷ []) in
        field_tooltip to_fixed readings field name unit index (some val)
        ≡ text (name ∷ ": " ∷ to_fixed val ∷ suffix ∷ [])
          ∷ text ("  Max: " ∷ to_fixed item.max_value ∷ suffix ∷ [])
          ∷ text ("  Min: " ∷ to_fixed item.min_value ∷ suffix ∷ [])
          ∷ []
  unfolding field_tooltip
  tooltip_text to_fixed name unit index val item found = ground arith

  -- If the first readings of a field lie outside the zoom, then at each plotted point, up to as many as these are,
  -- the tooltip has the maximum and the minimum of the one of them with the point's index, although the reading that
  -- is plotted there lies in the zoom and so is another one.
  pub tooltip_outside_zoom :
      (to_fixed : Decimal → String) (name unit : String) (val : Decimal) (z : Zoom) (index : ℕ)
      (before after : List ReadingData) (hidden plotted : ReadingData)
      → all_field_data readings field ≡ before ++ after
      → All (λ r. in_range time_of z r ≡ false) before
      → get_elem? before index ≡ some hidden
      → get_elem? (field_data time_of (some z) readings field) index ≡ some plotted
      → let suffix = if is_empty unit then "" else text (" " ∷ unit ∷ []) in
        (field_tooltip to_fixed readings field name unit index (some val)
          ≡ text (name ∷ ": " ∷ to_fixed val ∷ suffix ∷ [])
            ∷ text ("  Max: " ∷ to_fixed hidden.max_value ∷ suffix ∷ [])
            ∷ text ("  Min: " ∷ to_fixed hidden.min_value ∷ suffix ∷ [])
            ∷ [])
        × (in_range time_of z plotted ≡ true)
        × (hidden ≢ plotted)
  unfolding field_data zoomed all_field_data tooltip_item
  tooltip_outside_zoom to_fixed name unit val z index before after hidden plotted whole outside at
        shown =
      let inside =
        All-get_elem? (λ r. in_range time_of z r ≡ true) index
          (field_data time_of (some z) readings field) plotted
          (All-filter (in_range time_of z) (all_field_data readings field)) shown in
      let out = All-get_elem? (λ r. in_range time_of z r ≡ false) index before hidden outside at in
      (
        tooltip_text to_fixed name unit index val hidden
            (ap (λ rs. get_elem? rs index) whole ∙ get_elem?-append index before after hidden at),
        inside,
        λ e. clash (sym out ∙ ap (in_range time_of z) e ∙ inside),
      )
