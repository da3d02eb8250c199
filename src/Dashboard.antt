-- ===== src/Dashboard.antt =====
-- frontend/src/app/dashboard/page.tsx: the page's state, its handlers and what it shows. A handler
-- that reads the page's state reads it as it was when the handler was made, `seen`; what it sets, it
-- sets in the state of the moment.
pub mod Handlers
pub mod Grouping
pub mod Requests
pub mod Markup
pub mod Visitor
pub mod Listing
use telemetryhub.Common.{
  ℕ, zero, suc, ◌+◌, String, List, [], ◌∷◌, ◌++◌, map, Option, none, some, Bool, true, false, not,
  length, if◌then◌else◌, nat_eq,
}
use telemetryhub.Js.Map.{get, put}
use telemetryhub.Js.Sort.{Sign, sign_of, sort}
use telemetryhub.Js.Text.{missing_or}
use telemetryhub.Api.Types.{Device, DeviceGroup}

pub record Page : Type 0 where
  pub devices : List Device
  pub groups : List DeviceGroup
  pub is_loading : Bool
  pub new_group_name : String

abbrev pub start : Page
start = record { devices = []; groups = []; is_loading = true; new_group_name = "" }

-- `groupedDevices`: the devices of each group identifier, and the others
pub record Grouped : Type 0 where
  pub by_group : List (ℕ × List Device)
  pub ungrouped : List Device

-- The identifier 0 counts as none.
abbrev pub group_of : Device → Option ℕ
group_of d = elim d.group_id [
  | none ↦ none
  | some n ↦ elim n [ zero ↦ none | suc k ↦ some (suc k) ]
]

-- one round of the loop
unfoldable pub add_device : Grouped → Device → Grouped
unfolding get put
add_device g d = elim (group_of d) [
  | none ↦ record g { ungrouped = g.ungrouped ++ d ∷ [] }
  | some k ↦
      let arr = missing_or (get k g.by_group) [] in
      record g { by_group = put k (arr ++ d ∷ []) g.by_group }
]

unfoldable pub group_from : Grouped → List Device → Grouped
unfolding add_device
group_from g [] = g
group_from g (d ∷ ds) = group_from (add_device g d) ds

unfoldable pub grouped_devices : List Device → Grouped
unfolding group_from
grouped_devices = group_from (record { by_group = []; ungrouped = [] })

abbrev pub by_sort_order : DeviceGroup → DeviceGroup → Sign
by_sort_order a b = sign_of a.sort_order b.sort_order

-- A group with its devices, as it is shown.
pub record Section : Type 0 where
  pub group : DeviceGroup
  pub devices : List Device

unfoldable pub sorted_groups : List DeviceGroup → Grouped → List Section
unfolding sort sign_of get
sorted_groups groups g =
    map (λ x. record { group = x; devices = missing_or (get x.id g.by_group) [] })
      (sort by_sort_order groups)

-- What the page shows below its header. The title of a section is none for the devices without a
-- group, which have no handlers to move, rename or delete it.
pub record Shown : Type 0 where
  pub title : Option DeviceGroup
  pub devices : List Device
  pub sort_order : ℕ
  pub total_groups : ℕ

pub data View : Type 0 where
  -- no user yet, or the devices are being fetched
  waiting loading : View
  no_devices : View
  sections : List Shown → View

number_from : ℕ → ℕ → List Section → List Shown
number_from total i [] = []
number_from total i (s ∷ ss) =
    record { title = some s.group; devices = s.devices; sort_order = i; total_groups = total }
    ∷ number_from total (suc i) ss

abbrev pub is_nil {ℓ} : {A : Type ℓ} → List A → Bool
is_nil [] = true
is_nil (x ∷ xs) = false

abbrev pub rest_section : List Section → List Device → List Shown
rest_section ss [] = []
rest_section ss (d ∷ ds) =
    record { title = none; devices = d ∷ ds; sort_order = length ss; total_groups = length ss + 1 }
    ∷ []

unfoldable pub view : Bool → Bool → Page → View
unfolding sorted_groups grouped_devices number_from
view auth_loading has_user p =
    let g = grouped_devices p.devices in
    let ss = sorted_groups p.groups g in
    let total = length ss + (if is_nil g.ungrouped then 0 else 1) in
    if auth_loading
    then waiting
    else if not has_user
    then waiting
    else if p.is_loading
    then loading
    else if is_nil p.devices
    then no_devices
    else sections (number_from total 0 ss ++ rest_section ss g.ungrouped)
