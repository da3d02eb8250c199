-- ===== src/Tests/Dashboard.antt =====
-- Runs of Dashboard.
use telemetryhub.Common.{[], ◌∷◌, none, some, nat_eq, string_eq}
use telemetryhub.Dashboard.{Page, start}
use telemetryhub.Tests.Data.{device, group}

abbrev page : Page
page = record start {
  devices = device "d1" (some 1) ∷ device "d2" none ∷ [];
  groups = group 1 0 ∷ group 2 1 ∷ [];
}
