-- ===== src/DevicePage/State/Latest.antt =====
-- The time of the last data.
use telemetryhub.Common.{
  String, List, [], ◌∷◌, Option, none, some, true, ◌≡◌, refl, arith, All, ◌⊎◌, inl, inr,
}
use telemetryhub.Common.Int.{ℤ, pos, ◌≤ℤ◌, ltb_ℤ}
use telemetryhub.Api.Types.{ReadingData}
use telemetryhub.DevicePage.State.{Page, later_of, latest_from, last_updated}

module _ (time_of : String → Option ℤ) where
  -- No reading with a readable time is later.
  abbrev pub NotLater : ℤ → ReadingData → Type 0
  NotLater t r = elim (time_of r.bucket) [ none ↦ Unit {0} | some u ↦ u ≤ℤ t ]

  -- Some reading has this time.
  abbrev pub HasTime : ℤ → List ReadingData → Type 0
  HasTime t [] = ⊥
  HasTime t (r ∷ rs) = (time_of r.bucket ≡ some t) ⊎ HasTime t rs

  later_of-le : (o : Option ℤ) (t : ℤ) → t ≤ℤ later_of o t
  later_of-le none t = omega arith
  later_of-le (some u) t = ground arith

  no_later :
      (o : Option ℤ) (t m : ℤ)
      → later_of o t ≤ℤ m
      → (elim o as (λ x. Type 0) [ none ↦ Unit {0} | some u ↦ u ≤ℤ m ])
  no_later none t m h = tt
  no_later (some u) t m h = ground arith

  later_of_cases : (o : Option ℤ) (t : ℤ) → (later_of o t ≡ t) ⊎ (o ≡ some (later_of o t))
  later_of_cases none t = inl refl
  later_of_cases (some u) t = ground arith

  latest_from-le : (t : ℤ) (rs : List ReadingData) → t ≤ℤ latest_from time_of t rs
  unfolding latest_from
  latest_from-le t [] = omega arith
  latest_from-le t (r ∷ rs) =
      omega
        (arith, later_of-le (time_of r.bucket) t, latest_from-le (later_of (time_of r.bucket) t) rs)

  latest_from-All : (t : ℤ) (rs : List ReadingData) → All (NotLater (latest_from time_of t rs)) rs
  unfolding latest_from
  latest_from-All t [] = tt
  latest_from-All t (r ∷ rs) =
      let t' = later_of (time_of r.bucket) t in
      (
        no_later (time_of r.bucket) t (latest_from time_of t' rs) (latest_from-le t' rs),
        latest_from-All t' rs,
      )

  latest_from_cases :
      (t : ℤ) (rs : List ReadingData)
      → (latest_from time_of t rs ≡ t) ⊎ HasTime (latest_from time_of t rs) rs
  unfolding latest_from
  latest_from_cases t [] = inl refl
  latest_from_cases t (r ∷ rs) = ground (
    arith,
    later_of_cases (time_of r.bucket) t,
    latest_from_cases (later_of (time_of r.bucket) t) rs,
  )

  -- The time that is shown as that of the last data is the time of a reading, and no reading with
  -- a readable time is later.
  pub last_updated_lem :
      (p : Page) (t : ℤ)
      → last_updated time_of p ≡ some t
      → All (NotLater t) p.readings × HasTime t p.readings
  unfolding last_updated
  last_updated_lem p t e =
      let latest = latest_from time_of (pos 0) p.readings in
      let same : latest ≡ t = ground arith in
      let positive : ltb_ℤ (pos 0) latest ≡ true = ground arith in
      rw (← same) (
        latest_from-All (pos 0) p.readings,
        elim (latest_from_cases (pos 0) p.readings) [
          | inl none_later ↦ absurd (ground arith)
          | inr found ↦ found
        ],
      )
