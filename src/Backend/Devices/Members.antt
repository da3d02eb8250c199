-- ===== src/Backend/Devices/Members.antt =====
-- The groups that the devices are in.
use telemetryhub.Common.{
  ℕ, suc, String, List, [], ◌∷◌, ◌++◌, map, Option, none, some, Bool, true, false, not, ◌||◌, ◌&&◌,
  ◌==◌, nat_eq, string_eq, if◌then◌else◌, filter, ◌≡◌, refl, arith, ◌∙◌, Bool-cases, inl, inr,
  nat_beq, All,
}
use telemetryhub.Js.Text.{is_empty, missing_or}
use telemetryhub.Backend.Devices.{
  DeviceRow, GroupRow, Db, Table, store_device, update_device, delete_device, delete_device_field,
  place_group, place_groups, reorder, delete_group, create_group, rename_group, set_device_group,
  has_group, has_name, next_order, raw_payloads_of, readings_of, field_renames_of, devices_of,
}

-- A request that changes devices or groups, with whether the database executes what it needs.
pub data Step : Db → Db → Type 0 where
  updates :
      (db : Db) (w : Bool) (id : String) (name type : Option String)
      → Step db (update_device w id name type db).1
  deletes : (db : Db) (w : Table → Bool) (id : String) → Step db (delete_device w id db).1
  deletes_field :
      (db : Db) (w : Table → Bool) (id field : String)
      → Step db (delete_device_field w id field db).1
  reorders : (db : Db) (w : Bool) (order : List ℕ) → Step db (reorder w order db).1
  deletes_group : (db : Db) (w : Bool) (id : ℕ) → Step db (delete_group w id db).1
  creates_group :
      (db : Db) (w : Bool) (id : ℕ) (name : Option String) → Step db (create_group w id name db).1
  renames_group :
      (db : Db) (w : Bool) (id : ℕ) (name : Option String) → Step db (rename_group w id name db).1
  sets_group :
      (db : Db) (w : Bool) (id : String) (group : Option ℕ)
      → Step db (set_device_group w id group db).1

-- The group of a device is one of the groups, if it has one.
abbrev Member : List GroupRow → DeviceRow → Type 0
Member groups d = (elim d.group_id [ none ↦ true | some g ↦ has_group g groups ]) ≡ true

abbrev pub Members : Db → Type 0
Members db = All (Member db.groups) db.devices

-- The members of one database are members in another, if every device there is in no group or in one that
-- stays.
Members-map :
    (f : DeviceRow → DeviceRow) (a b : List GroupRow) (ds : List DeviceRow)
    → ((d : DeviceRow) → Member a d → Member b (f d))
    → All (Member a) ds
    → All (Member b) (map f ds)
Members-map f a b [] h all = tt
Members-map f a b (d ∷ ds) h all = (h d all.0, Members-map f a b ds h all.1)

Members-groups :
    (a b : List GroupRow) (ds : List DeviceRow)
    → ((id : ℕ) → has_group id a ≡ true → has_group id b ≡ true)
    → All (Member a) ds
    → All (Member b) ds
Members-groups a b [] h all = tt
Members-groups a b (d ∷ ds) h all = (by_group d.group_id all.0, Members-groups a b ds h all.1)
  where
    by_group :
        (o : Option ℕ)
        → (elim o [ none ↦ true | some g ↦ has_group g a ]) ≡ true
        → (elim o [ none ↦ true | some g ↦ has_group g b ]) ≡ true
    by_group none e = refl
    by_group (some g) e = h g e

Members-filter :
    (p : DeviceRow → Bool) (gs : List GroupRow) (ds : List DeviceRow)
    → All (Member gs) ds
    → All (Member gs) (filter p ds)
unfolding filter
Members-filter p gs [] all = tt
Members-filter p gs (d ∷ ds) all = elim (Bool-cases (p d)) [
  | inl kept ↦ rw kept (all.0, Members-filter p gs ds all.1)
  | inr dropped ↦ rw dropped (Members-filter p gs ds all.1)
]

-- Rows that keep their numbers.
has_group-map :
    (f : GroupRow → GroupRow) (id : ℕ) (gs : List GroupRow)
    → ((g : GroupRow) → (f g).id ≡ g.id)
    → has_group id (map f gs) ≡ has_group id gs
unfolding has_group
has_group-map f id [] h = refl
has_group-map f id (g ∷ gs) h = ground (arith, h g, has_group-map f id gs h)

has_group-place_groups :
    (i : ℕ) (order : List ℕ) (id : ℕ) (gs : List GroupRow)
    → has_group id (place_groups i order gs) ≡ has_group id gs
unfolding place_groups place_group
has_group-place_groups i [] id gs = refl
has_group-place_groups i (k ∷ order) id gs =
    has_group-place_groups (suc i) order id (place_group k i gs)
    ∙ has_group-map (λ g. if g.id == k then record g { sort_order = i } else g) id gs
        (λ g. ground arith)

has_group-append :
    (id : ℕ) (gs : List GroupRow) (g : GroupRow)
    → has_group id gs ≡ true
    → has_group id (gs ++ g ∷ []) ≡ true
unfolding has_group
has_group-append id [] g h = absurd (ground arith)
has_group-append id (k ∷ gs) g h = ground (arith, has_group-append id gs g)

has_group-filter :
    (id g : ℕ) (gs : List GroupRow)
    → nat_beq g id ≡ false
    → has_group g gs ≡ true
    → has_group g (filter (λ k. not (k.id == id)) gs) ≡ true
unfolding has_group filter
has_group-filter id g [] other h = absurd (ground arith)
has_group-filter id g (k ∷ gs) other h = ground (arith, has_group-filter id g gs other)

Step-keeps : {a b : Db} → Step a b → Members a → Members b
unfolding update_device store_device delete_device delete_device_field reorder delete_group
    create_group rename_group set_device_group
Step-keeps (updates db true id name type) m =
    Members-map _ db.groups db.groups db.devices (λ d h. ground arith) m
Step-keeps (updates db false id name type) m = m
Step-keeps (deletes db w id) m =
    elim (Bool-cases (w raw_payloads_of && w readings_of && w field_renames_of && w devices_of)) [
      | inl done ↦ rw done (Members-filter (λ d. not (d.id == id)) db.groups db.devices m)
      | inr failed ↦ rw failed m
    ]
Step-keeps (deletes_field db w id field) m =
    elim (Bool-cases (w readings_of && w field_renames_of)) [
      | inl done ↦ rw done m
      | inr failed ↦ rw failed m
    ]
Step-keeps (reorders db w []) m = m
Step-keeps (reorders db false (id ∷ order)) m = m
Step-keeps (reorders db true (id ∷ order)) m =
    Members-groups db.groups (place_groups 0 (id ∷ order) db.groups) db.devices
      (λ g h. has_group-place_groups 0 (id ∷ order) g db.groups ∙ h) m
Step-keeps (deletes_group db false id) m = m
Step-keeps (deletes_group db true id) m =
    Members-map _ db.groups (filter (λ g. not (g.id == id)) db.groups) db.devices
      (λ d h. out_of d d.group_id refl h) m
  where
    left : List GroupRow
    left = filter (λ g. not (g.id == id)) db.groups

    out_of :
        (d : DeviceRow) (o : Option ℕ)
        → d.group_id ≡ o
        → Member db.groups d
        → Member left (elim d.group_id [
          | none ↦ d
          | some g ↦ if g == id then record d { group_id = none } else d
        ])
    out_of d none e h = ground arith
    out_of d (some g) e h = elim (Bool-cases (g == id)) [
      | inl same ↦ ground arith
      | inr other ↦ ground (arith, has_group-filter id g db.groups)
    ]
Step-keeps (creates_group db w id name) m = elim (Bool-cases (is_empty (missing_or name ""))) [
  | inl blank ↦ rw blank m
  | inr given ↦ elim (Bool-cases (not w || has_name (missing_or name "") db.groups)) [
    | inl failed ↦ rw (given, failed) m
    | inr done ↦
        rw (given, done)
          (Members-groups db.groups (db.groups ++ new ∷ []) db.devices
            (λ g h. has_group-append g db.groups new h) m)
  ]
]
  where
    new : GroupRow
    new = record { id = id; name = missing_or name ""; sort_order = next_order db.groups }
Step-keeps (renames_group db w id name) m = elim (Bool-cases (is_empty (missing_or name ""))) [
  | inl blank ↦ rw blank m
  | inr given ↦
      elim (Bool-cases
        (not w || has_name (missing_or name "") (filter (λ g. not (g.id == id)) db.groups))) [
          | inl failed ↦ rw (given, failed) m
          | inr done ↦
              rw (given, done)
                (Members-groups db.groups (map named db.groups) db.devices
                  (λ g h. has_group-map named g db.groups (λ k. ground arith) ∙ h) m)
        ]
]
  where
    named : GroupRow → GroupRow
    named g = if g.id == id then record g { name = missing_or name "" } else g
Step-keeps (sets_group db w id none) m = elim (Bool-cases w) [
  | inl works ↦ rw works (Members-map _ db.groups db.groups db.devices (λ d h. ground arith) m)
  | inr failed ↦ rw failed m
]
Step-keeps (sets_group db w id (some g)) m =
    elim (Bool-cases (not w || not (has_group g db.groups))) [
      | inl failed ↦ rw failed m
      | inr done ↦ rw done (Members-map _ db.groups db.groups db.devices (λ d h. ground arith) m)
    ]

-- The database after requests.
pub data Steps : Db → Db → Type 0 where
  stay : {db : Db} → Steps db db
  step : {a b c : Db} → Steps a b → Step b c → Steps a c

-- Whatever requests come and whatever of the database fails, a device stays in no group or in one that is there.
pub devices_stay_members : {a b : Db} → Steps a b → Members a → Members b
devices_stay_members stay m = m
devices_stay_members (step r s) m = Step-keeps s (devices_stay_members r m)
