-- ===== src/Backend/Devices/Deleted.antt =====
-- What the deletion of a device leaves.
use telemetryhub.Common.{
  String, List, Bool, true, not, ◌≡◌, ◌≢◌, filter, ◌==◌, string_eq, arith, filter-filter_absorb,
  filter-filter_disjoint, refl, ◌⊎◌, inl, inr, Bool-cases, [], ◌&&◌,
}
use text.Mathlib.TextEquality.{eq_iff}
use telemetryhub.Backend.Access.{refuse, respond}
use telemetryhub.Backend.Devices.{
  DeviceRow, Db, Table, delete_device, raw_payloads_of, readings_of, field_renames_of, devices_of,
}

-- What the tables have of a device.
abbrev of_devices : String → List DeviceRow → List DeviceRow
of_devices j = filter (λ d. d.id == j)

abbrev of_pairs : String → List (String × String) → List (String × String)
of_pairs j = filter (λ p. p.0 == j)

abbrev of_names : String → List String → List String
of_names j = filter (λ d. d == j)

-- The tables have nothing of a device.
abbrev pub Gone : String → Db → Type 0
Gone j db =
    (of_devices j db.devices ≡ [])
    × (of_pairs j db.readings ≡ [])
    × (of_pairs j db.field_renames ≡ [])
    × (of_names j db.raw_payloads ≡ [])

-- Two databases have the same of a device, and the same groups.
abbrev pub SameOf : String → Db → Db → Type 0
SameOf j a b =
    (of_devices j a.devices ≡ of_devices j b.devices)
    × (of_pairs j a.readings ≡ of_pairs j b.readings)
    × (of_pairs j a.field_renames ≡ of_pairs j b.field_renames)
    × (of_names j a.raw_payloads ≡ of_names j b.raw_payloads)
    × (a.groups ≡ b.groups)

-- Whatever of the database fails, the deletion of a device is refused and changes nothing, or the four tables have
-- nothing of the device any more; of any other device they have what they had, and the cache of readings stays as it
-- was.
pub delete_device_lem :
    (works : Table → Bool) (id j : String) (db : Db)
    → j ≢ id
    → let done = delete_device works id db in
      (((done.0 ≡ respond 200 "Device deleted") × Gone id done.1)
        ⊎ ((done.0 ≡ refuse 500 "Failed to delete device") × (done.1 ≡ db)))
      × SameOf j done.1 db
      × (done.1.cache ≡ db.cache)
unfolding delete_device
delete_device_lem works id j db ne =
    elim (Bool-cases
      (works raw_payloads_of && works readings_of && works field_renames_of && works devices_of)) [
        | inr failed ↦ rw failed (inr (refl, refl), (refl, refl, refl, refl, refl), refl)
        | inl done ↦ rw done (
          inl (
            refl,
            (
              filter-filter_disjoint (λ d. d.id == id) (λ d. not (d.id == id)) (λ d h. ground arith)
                  db.devices,
              filter-filter_disjoint (λ p. p.0 == id) (λ p. not (p.0 == id)) (λ p h. ground arith)
                  db.readings,
              filter-filter_disjoint (λ p. p.0 == id) (λ p. not (p.0 == id)) (λ p h. ground arith)
                  db.field_renames,
              filter-filter_disjoint (λ d. d == id) (λ d. not (d == id)) (λ d h. ground arith)
                  db.raw_payloads,
            ),
          ),
          (
            filter-filter_absorb (λ d. d.id == j) (λ d. not (d.id == id)) (λ d h. kept d.id h)
                db.devices,
            filter-filter_absorb (λ p. p.0 == j) (λ p. not (p.0 == id)) (λ p h. kept p.0 h)
                db.readings,
            filter-filter_absorb (λ p. p.0 == j) (λ p. not (p.0 == id)) (λ p h. kept p.0 h)
                db.field_renames,
            filter-filter_absorb (λ d. d == j) (λ d. not (d == id)) (λ d h. kept d h)
                db.raw_payloads,
            refl,
          ),
          refl,
        )
      ]
  where
    kept : (k : String) → (k == j) ≡ true → not (k == id) ≡ true
    kept k h = ground (arith, eq_iff k j, eq_iff k id)
