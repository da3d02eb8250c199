-- ===== src/Backend/Devices/Reordered.antt =====
-- What moving a group on the dashboard stores.
use telemetryhub.Common.{
  ℕ, suc, ◌+◌, List, [], ◌∷◌, ◌++◌, map, some, true, false, ◌==◌, nat_eq, ◌≡◌, refl, arith, All,
  filter, Bool-cases, inl, inr, ap, ◌∙◌, length, length-map, sym,
}
use telemetryhub.Js.Map.{includes}
use telemetryhub.Js.Sort.{sort}
use telemetryhub.Api.Types.{DeviceGroup}
use telemetryhub.Api.Calls.{Call}
use telemetryhub.Api.Replies.{settle, Result-cases}
use telemetryhub.Handler.{Env, run, calls, called}
use telemetryhub.Reorder.{Direction, move}
use telemetryhub.Dashboard.{Page, by_sort_order}
use telemetryhub.Dashboard.Handlers.{handle_move_group}
use telemetryhub.Backend.Devices.{GroupRow, Db, place_group, place_groups, reorder}

abbrev numbered : ℕ → List GroupRow → List GroupRow
numbered id = filter (λ g. g.id == id)

-- What the server does with the calls of a handler, the newest first, that store an order.
unfoldable pub reorder_all : List Call → Db → Db
unfolding reorder
reorder_all [] db = db
reorder_all (Call.reorder_device_groups order ∷ cs) db = (reorder true order (reorder_all cs db)).1
reorder_all (c ∷ cs) db = reorder_all cs db

place_group_sets :
    (id i : ℕ) (gs : List GroupRow)
    → All (λ (g : GroupRow). g.sort_order ≡ i) (numbered id (place_group id i gs))
unfolding place_group filter
place_group_sets id i [] = tt
place_group_sets id i (g ∷ gs) = elim (Bool-cases (g.id == id)) [
  | inl hit ↦ rw (hit, hit) (refl, place_group_sets id i gs)
  | inr miss ↦ rw (miss, miss) (place_group_sets id i gs)
]

place_group_other :
    (id k i : ℕ) (gs : List GroupRow)
    → (k == id) ≡ false
    → numbered id (place_group k i gs) ≡ numbered id gs
unfolding place_group filter
place_group_other id k i [] h = refl
place_group_other id k i (g ∷ gs) h = ground (arith, place_group_other id k i gs h)

place_groups_other :
    (id i : ℕ) (order : List ℕ) (gs : List GroupRow)
    → includes order id ≡ false
    → numbered id (place_groups i order gs) ≡ numbered id gs
unfolding place_groups includes
place_groups_other id i [] gs h = refl
place_groups_other id i (k ∷ order) gs h =
    place_groups_other id (suc i) order (place_group k i gs) (ground arith)
    ∙ place_group_other id k i gs (ground arith)

place_groups_at :
    (i j id : ℕ) (before after : List ℕ) (gs : List GroupRow)
    → j ≡ i + length before
    → includes after id ≡ false
    → All
        (λ (g : GroupRow). g.sort_order ≡ j)
        (numbered id (place_groups i (before ++ id ∷ after) gs))
unfolding place_groups
place_groups_at i j id [] after gs e h =
    let here : j ≡ i = omega arith in
    rw (place_groups_other id (suc i) after (place_group id i gs) h, here)
      (place_group_sets id i gs)
place_groups_at i j id (b ∷ before) after gs e h =
    place_groups_at (suc i) j id before after (place_group b i gs) (omega arith) h

ids-append :
    (before : List DeviceGroup) (g : DeviceGroup) (after : List DeviceGroup)
    → map (λ (x : DeviceGroup). x.id) (before ++ g ∷ after)
      ≡ map (λ (x : DeviceGroup). x.id) before ++ g.id ∷ map (λ (x : DeviceGroup). x.id) after
ids-append [] g after = refl
ids-append (b ∷ before) g after = ap (λ ids. b.id ∷ ids) (ids-append before g after)

-- An order that has an entry is stored.
groups-reorder :
    (before after : List ℕ) (id : ℕ) (db : Db)
    → (reorder true (before ++ id ∷ after) db).1.groups
      ≡ place_groups 0 (before ++ id ∷ after) db.groups
unfolding reorder
groups-reorder [] after id db = refl
groups-reorder (b ∷ before) after id db = refl

groups-reorder_all :
    (env : Env Page) (seen s : Page) (id : ℕ) (direction : Direction) (order : List DeviceGroup)
    (db : Db)
    → move (λ (x : DeviceGroup). x.id == id) direction (sort by_sort_order seen.groups) ≡ some order
    → reorder_all (calls (run (handle_move_group seen id direction) env s).log) db
      ≡ (reorder true (map (λ (x : DeviceGroup). x.id) order) db).1
unfolding reorder_all handle_move_group calls
groups-reorder_all env seen s id direction order db moved =
    let c = Call.reorder_device_groups (map (λ (x : DeviceGroup). x.id) order) in
    elim (Result-cases (settle c (env.reply ((called c, s) ∷ []) c))) [
      | inl (a, e) ↦ ground arith
      | inr (m, e) ↦ ground arith
    ]

-- After a move of a group on the dashboard a server that stores the order holds, as the order of every row of a group
-- that the new list has and does not have again further on, the group's place in the new list.
pub move_group_reorders :
    (env : Env Page) (seen s : Page) (id : ℕ) (direction : Direction)
    (before after : List DeviceGroup) (g : DeviceGroup) (db : Db)
    → move (λ (x : DeviceGroup). x.id == id) direction (sort by_sort_order seen.groups)
      ≡ some (before ++ g ∷ after)
    → includes (map (λ (x : DeviceGroup). x.id) after) g.id ≡ false
    → All
        (λ (r : GroupRow). r.sort_order ≡ length before)
        (filter
          (λ (r : GroupRow). r.id == g.id)
          (reorder_all (calls (run (handle_move_group seen id direction) env s).log) db).groups)
move_group_reorders env seen s id direction before after g db moved once =
    let ids = map (λ (x : DeviceGroup). x.id) before in
    let rest = map (λ (x : DeviceGroup). x.id) after in
    let stored : (reorder_all (calls (run (handle_move_group seen id direction) env s).log)
          db).groups
        ≡ place_groups 0 (ids ++ g.id ∷ rest) db.groups =
      ap (λ d. d.groups) (groups-reorder_all env seen s id direction (before ++ g ∷ after) db moved)
      ∙ ap (λ order. (reorder true order db).1.groups) (ids-append before g after)
      ∙ groups-reorder ids rest g.id db in
    rw (stored, sym (length-map (λ (x : DeviceGroup). x.id) before))
      (place_groups_at 0 (length ids) g.id ids rest db.groups (omega arith) once)
