-- ===== src/Dashboard/Listing.antt =====
-- Which devices the sections of the dashboard list.
use mathlib.Core.List.Perm
use mathlib.Core.List.{Perm, perm_middle, append_assoc, append-nil}
use telemetryhub.Common.{
  if◌then◌else◌, ℕ, suc, List, [], ◌∷◌, ◌++◌, Bool, true, false, ◌||◌, ◌≡◌, refl, ap, arith, filter,
  All, Bool-cases, inl, inr, nat_eq, sym,
}
use telemetryhub.Common.Perms.{
  flat_map, flat_map-perm, flat_map-perm_each, flat_map-map, perm_of_eq,
}
use telemetryhub.Js.Map.{get}
use telemetryhub.Js.Sort.{sort}
use telemetryhub.Js.Sort.Laws.{sort-perm}
use telemetryhub.Js.Text.{missing_or}
use telemetryhub.Api.Types.{Device, DeviceGroup}
use telemetryhub.Ui.{Widget, child, when}
use telemetryhub.Dashboard.{
  Page, Section, Shown, sections, view, grouped_devices, sorted_groups, number_from, by_sort_order,
  rest_section, is_nil, no_devices, loading,
}
use telemetryhub.Dashboard.Grouping.{in_group, in_none, grouped_devices_lem}
use telemetryhub.Dashboard.Markup.{
  Action, Element, header, render, page, section_elements, section_props,
}

-- Filters that exclude one another filter what one of them does.
filter-or :
    {A : Type 0} (p q : A → Bool)
    → ((x : A) → p x ≡ true → q x ≡ false)
    → (xs : List A) → Perm (filter p xs ++ filter q xs) (filter (λ x. p x || q x) xs)
unfolding filter
filter-or p q h [] = Perm.refl []
filter-or p q h (x ∷ xs) = elim (Bool-cases (p x)) [
  | inl here ↦ rw (here, h x here) (Perm.cons x (filter-or p q h xs))
  | inr away ↦ elim (Bool-cases (q x)) [
    | inl there ↦
        rw (away, there)
          (Perm.trans (perm_middle (filter p xs) (filter q xs)) (Perm.cons x (filter-or p q h xs)))
    | inr neither ↦ rw (away, neither) (filter-or p q h xs)
  ]
]

-- Whether a device is in one of some groups.
abbrev pub in_some : List DeviceGroup → Device → Bool
in_some [] d = false
in_some (g ∷ gs) d = in_group g.id d || in_some gs d

abbrev pub Distinct : List DeviceGroup → Type 0
Distinct [] = Unit
Distinct (g ∷ gs) = All (λ (h : DeviceGroup). ¬ (g.id ≡ h.id)) gs × Distinct gs

in_some-other :
    (g : DeviceGroup) (gs : List DeviceGroup) (d : Device)
    → All (λ (h : DeviceGroup). ¬ (g.id ≡ h.id)) gs
    → in_group g.id d ≡ true
    → in_some gs d ≡ false
in_some-other g [] d other here = refl
in_some-other g (h ∷ hs) d other here = ground (arith, in_some-other g hs d other.1 here)

filter-in_some_nil : (ds : List Device) → filter (in_some []) ds ≡ []
unfolding filter
filter-in_some_nil [] = refl
filter-in_some_nil (d ∷ ds) = filter-in_some_nil ds

flat_map-in_group :
    (gs : List DeviceGroup) (ds : List Device)
    → Distinct gs
    → Perm (flat_map (λ (g : DeviceGroup). filter (in_group g.id) ds) gs) (filter (in_some gs) ds)
flat_map-in_group [] ds distinct = perm_of_eq (sym (filter-in_some_nil ds))
flat_map-in_group (g ∷ gs) ds distinct =
    Perm.trans (Perm.append_left (filter (in_group g.id) ds) (flat_map-in_group gs ds distinct.1))
      (filter-or (in_group g.id) (in_some gs) (λ d here. in_some-other g gs d distinct.0 here) ds)

-- The devices that an element shows, and those of a page in the order of the document.
abbrev pub shown_in : Widget Action Element → List Device
shown_in (child e) = e.props.devices
shown_in _ = []

abbrev pub listed : List (Widget Action Element) → List Device
listed ws = flat_map shown_in ws

listed-section_elements :
    (b : Bool) (gs : List DeviceGroup) (ss : List Shown)
    → listed (section_elements b gs ss) ≡ flat_map (λ (s : Shown). s.devices) ss
unfolding section_elements section_props
listed-section_elements b gs [] = refl
listed-section_elements b gs (s ∷ ss) = ap (λ r. s.devices ++ r) (listed-section_elements b gs ss)

listed-render :
    (b : Bool) (p : Page) (ss : List Shown)
    → listed (render b p (sections ss)) ≡ flat_map (λ (s : Shown). s.devices) ss
unfolding render header when
listed-render true p ss = listed-section_elements true p.groups ss
listed-render false p ss = listed-section_elements false p.groups ss

flat_map-append :
    (xs ys : List Shown)
    → flat_map (λ (s : Shown). s.devices) (xs ++ ys)
      ≡ flat_map (λ (s : Shown). s.devices) xs ++ flat_map (λ (s : Shown). s.devices) ys
flat_map-append [] ys = refl
flat_map-append (x ∷ xs) ys = rw (flat_map-append xs ys) (sym (append_assoc x.devices _ _))

flat_map-number_from :
    (total i : ℕ) (ss : List Section)
    → flat_map (λ (s : Shown). s.devices) (number_from total i ss)
      ≡ flat_map (λ (s : Section). s.devices) ss
unfolding number_from
flat_map-number_from total i [] = refl
flat_map-number_from total i (s ∷ ss) =
    ap (λ r. s.devices ++ r) (flat_map-number_from total (suc i) ss)

flat_map-rest_section :
    (ss : List Section) (ds : List Device)
    → flat_map (λ (s : Shown). s.devices) (rest_section ss ds) ≡ ds
flat_map-rest_section ss [] = refl
flat_map-rest_section ss (d ∷ ds) = append-nil (d ∷ ds)

-- The devices of the sections of the groups.
sorted_groups-perm :
    (gs : List DeviceGroup) (ds : List Device)
    → Distinct gs
    → Perm
        (flat_map (λ (s : Section). s.devices) (sorted_groups gs (grouped_devices ds)))
        (filter (in_some gs) ds)
unfolding sorted_groups
sorted_groups-perm gs ds distinct =
    let g = grouped_devices ds in
    let held : DeviceGroup → List Device = λ x. missing_or (get x.id g.by_group) [] in
    let sorted = sort by_sort_order gs in
    Perm.trans
      (perm_of_eq (
        flat_map-map (λ (s : Section). s.devices) (λ x. record { group = x; devices = held x })
          sorted))
      (Perm.trans (flat_map-perm held (sort-perm by_sort_order gs)) (
        Perm.trans
          (flat_map-perm_each held (λ x. filter (in_group x.id) ds)
            (λ x. perm_of_eq (grouped_devices_lem ds x.id).0) gs)
          (flat_map-in_group gs ds distinct)))

-- A device without a group is in none of the groups.
in_none-in_some : (gs : List DeviceGroup) (d : Device) → in_some gs d ≡ true → in_none d ≡ false
in_none-in_some [] d h = absurd (ground arith)
in_none-in_some (g ∷ gs) d h = ground (arith, in_none-in_some gs d)

-- The sections of the groups and the one of the other devices, when both are shown.
listed-sections :
    (is_admin : Bool) (p : Page) (total : ℕ)
    → Distinct p.groups
    → let g = grouped_devices p.devices in
      let ss = sorted_groups p.groups g in
      Perm
        (listed
          (render is_admin p (sections (number_from total 0 ss ++ rest_section ss g.ungrouped))))
        (filter (λ d. in_some p.groups d || in_none d) p.devices)
listed-sections is_admin p total distinct =
    let g = grouped_devices p.devices in
    let ss = sorted_groups p.groups g in
    rw
      (
        listed-render is_admin p (number_from total 0 ss ++ rest_section ss g.ungrouped),
        flat_map-append (number_from total 0 ss) (rest_section ss g.ungrouped),
        flat_map-number_from total 0 ss,
        flat_map-rest_section ss g.ungrouped,
      )
      (Perm.trans
        (Perm.append (sorted_groups-perm p.groups p.devices distinct)
          (perm_of_eq (grouped_devices_lem p.devices 0).1))
        (filter-or (in_some p.groups) in_none (in_none-in_some p.groups) p.devices))

listed-no_devices : (is_admin : Bool) (p : Page) → listed (render is_admin p no_devices) ≡ []
unfolding render header when
listed-no_devices true p = refl
listed-no_devices false p = refl

filter-is_nil : (q : Device → Bool) (ds : List Device) → is_nil ds ≡ true → filter q ds ≡ []
unfolding filter
filter-is_nil q [] h = refl
filter-is_nil q (d ∷ ds) h = absurd (ground arith)

-- What is shown once the devices are there, by a test that says whether there are none.
listed-view :
    (is_admin : Bool) (p : Page) (awaited b : Bool) (total : ℕ)
    → awaited ≡ false
    → is_nil p.devices ≡ b
    → Distinct p.groups
    → let g = grouped_devices p.devices in
      let ss = sorted_groups p.groups g in
      Perm
        (listed (
          render is_admin p (
            if awaited
            then loading
            else if b
            then no_devices
            else sections (number_from total 0 ss ++ rest_section ss g.ungrouped))))
        (filter (λ d. in_some p.groups d || in_none d) p.devices)
listed-view is_admin p true b total loaded e distinct = absurd (ground arith)
listed-view is_admin p false true total loaded bare distinct =
    rw (listed-no_devices is_admin p, filter-is_nil _ p.devices bare) (Perm.refl [])
listed-view is_admin p false false total loaded found distinct =
    listed-sections is_admin p total distinct

-- With devices, the dashboard of a user lists each device that has no group, or one that the server
-- listed, in exactly one section and once, if no two groups have the same identifier.
pub dashboard_lists_devices :
    (is_admin : Bool) (p : Page)
    → p.is_loading ≡ false
    → Distinct p.groups
    → Perm
        (listed (page false true is_admin p))
        (filter (λ d. in_some p.groups d || in_none d) p.devices)
unfolding page view
dashboard_lists_devices is_admin p loaded distinct =
    listed-view is_admin p p.is_loading (is_nil p.devices) _ loaded refl distinct
