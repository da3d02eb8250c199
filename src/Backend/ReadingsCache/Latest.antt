-- ===== src/Backend/ReadingsCache/Latest.antt =====
-- What the cache of readings serves.
use telemetryhub.Common.{
  ℕ, zero, suc, ◌-◌, ◌≤◌, String, List, [], ◌∷◌, Option, none, some, false, not, ◌==◌, nat_beq,
  string_eq, if◌then◌else◌, filter, ◌≡◌, refl, arith, ◌⊎◌, inl, inr, Bool-cases, Option-cases,
}
use package.text.Mathlib.TextEquality.{eq_iff}
use telemetryhub.Api.Replies.{Result, ok, err}
use telemetryhub.Js.Map.{get as entry_at}
use telemetryhub.Js.Map.Laws.{get-put}
use telemetryhub.Backend.ReadingsCache.{
  Entry, Cache, new_cache, delete, expired, get, evict_expired, oldest_key, set, get_readings,
}

-- A use of the cache, with its time: a key is looked up, or results are stored under it.
pub data Use (R : Type 0) : Type 0 where
  looks : ℕ → String → Use R
  stores : ℕ → String → R → Use R

module _ {R : Type 0} where
  -- The cache after its uses, of which the last is the first of the list.
  unfoldable pub run : ℕ → ℕ → List (Use R) → Cache R
  unfolding get set
  run ttl max [] = new_cache
  run ttl max (looks now k ∷ us) = (get ttl now k (run ttl max us)).1
  run ttl max (stores now k r ∷ us) = set ttl max now k r (run ttl max us)

  -- What was last stored under a key, and when.
  unfoldable pub last_stored : String → List (Use R) → Option (R × ℕ)
  last_stored k [] = none
  last_stored k (looks now j ∷ us) = last_stored k us
  last_stored k (stores now j r ∷ us) = if j == k then some (r, now) else last_stored k us

  entry_at-delete :
      (j k : String) (c : Cache R) (e : Entry R)
      → entry_at k (delete j c) ≡ some e
      → entry_at k c ≡ some e
  unfolding delete entry_at filter
  entry_at-delete j k [] e h = h
  entry_at-delete j k ((i, d) ∷ c) e h =
      ground (arith, eq_iff i j, eq_iff i k, entry_at-delete j k c e, missing c)
    where
      missing : (m : Cache R) → k ≡ j → entry_at k (filter (λ p. not (p.0 == j)) m) ≡ none
      missing [] same = refl
      missing ((a, b) ∷ m) same = ground (arith, eq_iff a j, eq_iff a k, missing m same)

  entry_at-evict_expired :
      (ttl now : ℕ) (es c : Cache R) (k : String) (e : Entry R)
      → entry_at k (evict_expired ttl now es c) ≡ some e
      → entry_at k c ≡ some e
  unfolding evict_expired
  entry_at-evict_expired ttl now [] c k e h = h
  entry_at-evict_expired ttl now ((j, d) ∷ es) c k e h = elim (Bool-cases (expired ttl now d)) [
    | inl old ↦
        entry_at-delete j k c e (entry_at-evict_expired ttl now es (delete j c) k e (ground arith))
    | inr live ↦ entry_at-evict_expired ttl now es c k e (ground arith)
  ]

  entry_at-get :
      (ttl now : ℕ) (j k : String) (c : Cache R) (e : Entry R)
      → entry_at k (get ttl now j c).1 ≡ some e
      → entry_at k c ≡ some e
  unfolding get
  entry_at-get ttl now j k c e h = elim (Option-cases (entry_at j c)) [
    | inl missing ↦ ground arith
    | inr (d, found) ↦ elim (Bool-cases (expired ttl now d)) [
      | inl old ↦ entry_at-delete j k c e (ground arith)
      | inr live ↦ ground arith
    ]
  ]

  entry_at-set :
      (ttl max now : ℕ) (j k : String) (r : R) (c : Cache R) (e : Entry R)
      → nat_beq ttl 0 ≡ false
      → entry_at k (set ttl max now j r c) ≡ some e
      → (if j == k then some (record { results = r; inserted = now }) else entry_at k c) ≡ some e
  unfolding set
  entry_at-set ttl max now j k r c e on h =
      let live = evict_expired ttl now c c in
      let new : Entry R = record { results = r; inserted = now } in
      elim (Bool-cases (j == k)) [
        | inl same ↦
            ground (arith, get-put j k new live, get-put j k new (delete (oldest_key live) live))
        | inr other ↦ rw other (
            entry_at-evict_expired ttl now c c k e (
              ground (
                arith,
                get-put j k new live,
                get-put j k new (delete (oldest_key live) live),
                entry_at-delete (oldest_key live) k live e,
              )))
      ]

  run_off : (max : ℕ) (us : List (Use R)) → run 0 max us ≡ []
  unfolding run get set entry_at
  run_off max [] = refl
  run_off max (looks now k ∷ us) = ground (arith, run_off max us)
  run_off max (stores now k r ∷ us) = run_off max us

  -- An entry is what was last stored under its key.
  entry_at-run :
      (ttl max : ℕ) (k : String) (us : List (Use R)) (e : Entry R)
      → nat_beq ttl 0 ≡ false
      → entry_at k (run ttl max us) ≡ some e
      → last_stored k us ≡ some (e.results, e.inserted)
  unfolding run last_stored entry_at
  entry_at-run ttl max k [] e on h = absurd (ground arith)
  entry_at-run ttl max k (looks now j ∷ us) e on h =
      entry_at-run ttl max k us e on (entry_at-get ttl now j k (run ttl max us) e h)
  entry_at-run ttl max k (stores now j r ∷ us) e on h = ground (
    arith,
    entry_at-set ttl max now j k r (run ttl max us) e on h,
    entry_at-run ttl max k us e on,
  )

  hit_is_last :
      (ttl max now : ℕ) (k : String) (us : List (Use R)) (r : R)
      → (get ttl now k (run ttl max us)).0 ≡ some r
      → (t : ℕ) × (last_stored k us ≡ some (r, t)) × (now - t ≤ ttl)
  unfolding get expired entry_at
  hit_is_last zero max now k us r h = absurd (ground (arith, run_off max us))
  hit_is_last (suc ttl) max now k us r h = elim (Option-cases (entry_at k (run (suc ttl) max us))) [
    | inl missing ↦ absurd (ground arith)
    | inr (e, found) ↦ (
      e.inserted,
      ground (arith, entry_at-run (suc ttl) max k us e (ground arith) found),
      ground arith,
    )
  ]

  -- Whatever happened to the cache, GetReadings answers what the database does, an error included, or what was
  -- last stored under the key, not longer than the TTL ago.
  pub get_readings_lem :
      (ttl max now later : ℕ) (k : String) (answer : Result R) (us : List (Use R))
      → let reply = (get_readings ttl now later k answer (run ttl max us)).0 in
        ((r : R) × (t : ℕ) × (last_stored k us ≡ some (r, t)) × (now - t ≤ ttl) × (reply ≡ ok r))
        ⊎ (reply ≡ answer)
  unfolding get_readings
  get_readings_lem ttl max now later k answer us =
      elim (Option-cases (get ttl now k (run ttl max us)).0) [
        | inl missed ↦ inr (by_answer answer missed)
        | inr (r, hit) ↦
            let last = hit_is_last ttl max now k us r hit in
            inl (r, last.0, last.1, last.2, ground arith)
      ]
    where
      by_answer :
          (a : Result R)
          → (get ttl now k (run ttl max us)).0 ≡ none
          → (get_readings ttl now later k a (run ttl max us)).0 ≡ a
      by_answer (ok r) e = ground arith
      by_answer (err m) e = ground arith
