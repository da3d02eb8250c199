-- ===== src/Backend/ReadingsCache/Cap.antt =====
-- How many results the cache of readings keeps, and that it keeps the newest.
use telemetryhub.Common.{
  ℕ, suc, ◌+◌, ◌≤◌, ◌<◌, String, List, [], ◌∷◌, some, ltb, string_eq, filter, length, ◌≡◌, ◌≢◌,
  refl, arith, ◌⊎◌, inl, inr, Bool-cases, ==_refl, Any, All,
}
use package.text.Mathlib.TextEquality.{eq_iff}
use telemetryhub.Js.Map.{put}
use telemetryhub.Js.Map.Laws.{get-put}
use telemetryhub.Backend.ReadingsCache.{
  Entry, Cache, delete, expired, get, evict_expired, oldest_from, oldest_key, set,
}
use telemetryhub.Backend.ReadingsCache.Latest.{Use, looks, stores, run}

module _ {R : Type 0} where
  length-delete : (k : String) (c : Cache R) → length (delete k c) ≤ length c
  unfolding delete filter
  length-delete k [] = ground arith
  length-delete k ((j, e) ∷ c) = ground (arith, length-delete k c)

  length-evict_expired :
      (ttl now : ℕ) (es c : Cache R) → length (evict_expired ttl now es c) ≤ length c
  unfolding evict_expired
  length-evict_expired ttl now [] c = ground arith
  length-evict_expired ttl now ((k, e) ∷ es) c = ground (
    arith,
    length-evict_expired ttl now es c,
    length-evict_expired ttl now es (delete k c),
    length-delete k c,
  )

  length-put : (k : String) (e : Entry R) (c : Cache R) → length (put k e c) ≤ suc (length c)
  unfolding put
  length-put k e [] = ground arith
  length-put k e ((j, d) ∷ c) = ground (arith, length-put k e c)

  -- The cache has an entry with a key and a time.
  abbrev Has : String → ℕ → Cache R → Type 0
  Has k t c = Any (λ (p : String × Entry R). (p.0 ≡ k) × (p.1.inserted ≡ t)) c

  -- No entry is older.
  abbrev NotBefore : ℕ → Cache R → Type 0
  NotBefore t c = All (λ (p : String × Entry R). t ≤ p.1.inserted) c

  length-delete_held :
      (k : String) (t : ℕ) (c : Cache R) → Has k t c → length (delete k c) < length c
  unfolding delete filter
  length-delete_held k t [] h = absurd h
  length-delete_held k t ((j, e) ∷ c) (inl here) = ground (arith, eq_iff j k, length-delete k c)
  length-delete_held k t ((j, e) ∷ c) (inr there) = ground (arith, length-delete_held k t c there)

  oldest_from_lem :
      (k o : String) (t : ℕ) (c : Cache R)
      → o ≡ oldest_from k t c
      → ((o ≡ k) × NotBefore t c) ⊎ ((s : ℕ) × (s < t) × Has o s c × NotBefore s c)
  unfolding oldest_from
  oldest_from_lem k o t [] h = inl (h, tt)
  oldest_from_lem k o t ((j, e) ∷ c) h = elim (Bool-cases (ltb e.inserted t)) [
    | inl older ↦ elim (oldest_from_lem j o e.inserted c (ground arith)) [
      | inl (same, rest) ↦
          inr (e.inserted, ground arith, inl (ground arith, refl), (ground arith, rest))
      | inr (s, less, found, rest) ↦ inr (s, ground arith, inr found, (ground arith, rest))
    ]
    | inr newer ↦ elim (oldest_from_lem k o t c (ground arith)) [
      | inl (same, rest) ↦ inl (same, (ground arith, rest))
      | inr (s, less, found, rest) ↦ inr (s, less, inr found, (ground arith, rest))
    ]
  ]

  -- The entry that gives way to a new one is the oldest.
  pub oldest_key_lem :
      (c : Cache R) → 0 < length c → (t : ℕ) × Has (oldest_key c) t c × NotBefore t c
  unfolding oldest_key
  oldest_key_lem [] h = absurd (ground arith)
  oldest_key_lem ((k, e) ∷ c) h =
      elim (oldest_from_lem k (oldest_from k e.inserted c) e.inserted c refl) [
        | inl (same, rest) ↦ (e.inserted, inl (ground arith, refl), (ground arith, rest))
        | inr (s, less, found, rest) ↦ (s, inr found, (ground arith, rest))
      ]

  length-delete_oldest : (c : Cache R) → 0 < length c → length (delete (oldest_key c) c) < length c
  length-delete_oldest c h =
      let old = oldest_key_lem c h in length-delete_held (oldest_key c) old.0 c old.1

  length-set :
      (ttl max now : ℕ) (k : String) (r : R) (c : Cache R)
      → 0 < max
      → length c ≤ max
      → length (set ttl max now k r c) ≤ max
  unfolding set
  length-set ttl max now k r c h fits =
      let live = evict_expired ttl now c c in
      let new : Entry R = record { results = r; inserted = now } in
      ground (
        arith,
        length-evict_expired ttl now c c,
        length-put k new live,
        length-put k new (delete (oldest_key live) live),
        length-delete_oldest live,
      )

  length-get : (ttl now : ℕ) (k : String) (c : Cache R) → length (get ttl now k c).1 ≤ length c
  unfolding get
  length-get ttl now k c = ground (arith, length-delete k c)

  -- However a cache is used that has room for a result, it never has more entries than its cap.
  pub run-bounded : (ttl max : ℕ) (us : List (Use R)) → 0 < max → length (run ttl max us) ≤ max
  unfolding run
  run-bounded ttl max [] h = ground arith
  run-bounded ttl max (looks now k ∷ us) h =
      ground (arith, length-get ttl now k (run ttl max us), run-bounded ttl max us h)
  run-bounded ttl max (stores now k r ∷ us) h =
      length-set ttl max now k r (run ttl max us) h (run-bounded ttl max us h)

  -- What is stored is found until the TTL is over, with a full cache as well; without a TTL nothing is stored.
  pub get-set :
      (ttl max now later : ℕ) (k : String) (r : R) (c : Cache R)
      → later ≤ now + ttl
      → (ttl ≢ 0 → (get ttl later k (set ttl max now k r c)).0 ≡ some r)
        × (ttl ≡ 0 → set ttl max now k r c ≡ c)
  unfolding get set expired
  get-set ttl max now later k r c h =
      let live = evict_expired ttl now c c in
      let new : Entry R = record { results = r; inserted = now } in
      (
        λ on. ground (
          arith,
          get-put k k new live,
          get-put k k new (delete (oldest_key live) live),
          ==_refl k,
        ),
        λ off. ground arith,
      )
