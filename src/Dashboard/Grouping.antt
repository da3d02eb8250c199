-- ===== src/Dashboard/Grouping.antt =====
-- `groupedDevices` gives each group its devices, in the order of the list.
use telemetryhub.Common.{
  ℕ, List, [], ◌∷◌, ◌++◌, none, some, Bool, true, false, ◌≡◌, sym, filter, ◌==◌, nat_eq,
  if◌then◌else◌, arith, Option-cases, Bool-cases, inl, inr, ◌∙◌, nat_beq_iff,
}
use mathlib.Core.List.{append-nil, append_assoc}
use telemetryhub.Js.Map.{get}
use telemetryhub.Js.Map.Laws.{get-put}
use telemetryhub.Js.Text.{missing_or}
use telemetryhub.Api.Types.{Device}
use telemetryhub.Dashboard.{Grouped, group_of, add_device, group_from, grouped_devices}

-- The test of being in a group, and of being in none.
abbrev pub in_group : ℕ → Device → Bool
in_group k d = elim (group_of d) [ none ↦ false | some n ↦ n == k ]

abbrev pub in_none : Device → Bool
in_none d = elim (group_of d) [ none ↦ true | some n ↦ false ]

abbrev pub members : ℕ → Grouped → List Device
members k g = missing_or (get k g.by_group) []

members-add_device :
    (k : ℕ) (g : Grouped) (d : Device)
    → members k (add_device g d) ≡ (if in_group k d then members k g ++ d ∷ [] else members k g)
unfolding add_device
members-add_device k g d = elim (Option-cases (group_of d)) [
  | inl free ↦ ground arith
  | inr (n, owned) ↦
      ground (
        arith,
        nat_beq_iff n k,
        get-put n k (missing_or (get n g.by_group) [] ++ d ∷ []) g.by_group,
      )
]

members-group_from :
    (k : ℕ) (g : Grouped) (ds : List Device)
    → members k (group_from g ds) ≡ members k g ++ filter (in_group k) ds
unfolding group_from filter
members-group_from k g [] = sym (append-nil _)
members-group_from k g (d ∷ ds) = elim (Bool-cases (in_group k d)) [
  | inl owned ↦
      members-group_from k (add_device g d) ds
      ∙ rw (members-add_device k g d, owned)
          (append_assoc (members k g) (d ∷ []) (filter (in_group k) ds))
  | inr other ↦ members-group_from k (add_device g d) ds ∙ rw (members-add_device k g d, other)
]

ungrouped-add_device :
    (g : Grouped) (d : Device)
    → (add_device g d).ungrouped ≡ (if in_none d then g.ungrouped ++ d ∷ [] else g.ungrouped)
unfolding add_device
ungrouped-add_device g d = ground arith

ungrouped-group_from :
    (g : Grouped) (ds : List Device)
    → (group_from g ds).ungrouped ≡ g.ungrouped ++ filter in_none ds
unfolding group_from filter
ungrouped-group_from g [] = sym (append-nil _)
ungrouped-group_from g (d ∷ ds) = elim (Bool-cases (in_none d)) [
  | inl free ↦
      ungrouped-group_from (add_device g d) ds
      ∙ rw (ungrouped-add_device g d, free) (append_assoc g.ungrouped (d ∷ []) (filter in_none ds))
  | inr owned ↦ ungrouped-group_from (add_device g d) ds ∙ rw (ungrouped-add_device g d, owned)
]

-- `groupedDevices` holds under each identifier the devices of that group, and apart those without
-- one, each in the order of the list.
pub grouped_devices_lem :
    (ds : List Device) (k : ℕ)
    → (members k (grouped_devices ds) ≡ filter (in_group k) ds)
      × ((grouped_devices ds).ungrouped ≡ filter in_none ds)
unfolding grouped_devices
grouped_devices_lem ds k = (members-group_from k _ ds, ungrouped-group_from _ ds)
