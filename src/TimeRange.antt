-- ===== src/TimeRange.antt =====
-- `TimeRangeSelector` of frontend/src/components/time-range-selector.tsx: its options and its label. How it
-- opens and closes stands in Popup.
pub mod View
use telemetryhub.Common.{String, List, [], ◌∷◌, false, string_eq}
use telemetryhub.Js.Map.{get}
use telemetryhub.Js.Text.{missing_or}
use telemetryhub.Popup.{Selector}

-- `OPTIONS`: value and label
abbrev pub options : List (String × String)
options =
    ("1h", "1 Hour")
    ∷ ("6h", "6 Hours")
    ∷ ("24h", "24 Hours")
    ∷ ("7d", "7 Days")
    ∷ ("30d", "30 Days")
    ∷ []

-- `currentLabel`
unfoldable pub current_label : String → String
unfolding get
current_label value = missing_or (get value options) value

-- What `onChange` gets, and the flags afterwards.
unfoldable pub select : String → Selector → String × Selector
select val s = (val, record s { open? = false; drawer_open = false })
