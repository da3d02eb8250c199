-- ===== src/Tests/Fields.antt =====
-- Runs of DevicePage: the order of the groups of charts.
use telemetryhub.Common.{String, List, [], ◌∷◌, none, some, true, ◌≡◌, ◌≢◌, arith, string_eq}
use telemetryhub.Js.Sort.{plus}
use telemetryhub.Api.Types.{FieldRename}
use telemetryhub.DevicePage.ChartGroups.{chart_groups}
use telemetryhub.DevicePage.ChartGroups.Order.{InOrder, chart_groups-InOrder}
use telemetryhub.Tests.Data.{rename, same_name}

abbrev renames : List FieldRename
renames =
    rename "a" (some " g ") (some "s")
    ∷ rename "b" (some "g") none
    ∷ rename "c" (some "h") none
    ∷ []

abbrev chosen : List String
chosen = "c" ∷ "b" ∷ "a" ∷ "x" ∷ []

same_total : (s t : String) → same_name s t ≡ plus → same_name t s ≢ plus
same_total s t e = absurd (ground arith)

same_trans : (s t u : String) → same_name s t ≢ plus → same_name t u ≢ plus → same_name s u ≢ plus
same_trans s t u h k = h

chart_groups-InOrder_example :
    InOrder same_name same_total same_trans (chart_groups same_name true chosen renames).groups
chart_groups-InOrder_example = chart_groups-InOrder same_name same_total same_trans chosen renames
