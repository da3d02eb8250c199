-- ===== src/Backend/ReadingsCache.antt =====
-- backend/internal/server/readings_cache.go, and GetReadings of store_adapter.go, which uses it. A map of
-- Go has no order of its entries: here it is that of the list. Times are numbers, of which a difference
-- stops at 0; a TTL below 0 is that of 0, with which nothing is stored. What the database answers to a
-- query, and how a time is written in a key, are parameters.
pub mod Latest
pub mod Cap
use telemetryhub.Common.{
  ℕ, suc, ◌-◌, String, List, [], ◌∷◌, Option, none, some, Bool, not, ◌||◌, ltb, leb, ◌==◌, nat_beq,
  string_eq, if◌then◌else◌, filter, length,
}
use telemetryhub.Js.Map.{get as entry_at, put}
use telemetryhub.Js.Text.{text, join}
use telemetryhub.Api.Replies.{Result, ok, err}

-- `readingCacheEntry`
pub record Entry (R : Type 0) : Type 0 where
  pub results : R
  pub inserted : ℕ

abbrev pub Cache : Type 0 → Type 0
Cache R = List (String × Entry R)

-- `readingsCacheMaxEntries`
abbrev pub max_entries : ℕ
max_entries = 512

-- The arguments that are times are already cut to the minute and written.
unfoldable pub key : String → List String → String → String → String
unfolding text join
key device_id fields from to =
    text (device_id ∷ "\0" ∷ join "," fields ∷ "\0" ∷ from ∷ "\0" ∷ to ∷ [])

module _ {R : Type 0} where
  -- `newReadingsCache`
  abbrev pub new_cache : Cache R
  new_cache = []

  -- `delete(c.entries, k)`
  unfoldable pub delete : String → Cache R → Cache R
  unfolding filter
  delete k = filter (λ p. not (p.0 == k))

  -- `now.Sub(e.inserted) > c.ttl`
  unfoldable pub expired : ℕ → ℕ → Entry R → Bool
  expired ttl now e = ltb ttl (now - e.inserted)

  unfoldable pub get : ℕ → ℕ → String → Cache R → Option R × Cache R
  unfolding entry_at expired delete
  get ttl now k c = elim (entry_at k c) [
    | none ↦ (none, c)
    | some e ↦ if expired ttl now e then (none, delete k c) else (some e.results, c)
  ]

  -- The loop over the entries, of which the expired ones are deleted from the cache.
  unfoldable pub evict_expired : ℕ → ℕ → List (String × Entry R) → Cache R → Cache R
  unfolding expired delete
  evict_expired ttl now [] c = c
  evict_expired ttl now ((k, e) ∷ rest) c =
      evict_expired ttl now rest (if expired ttl now e then delete k c else c)

  -- The loop that seeks the oldest entry, from the oldest so far.
  unfoldable pub oldest_from : String → ℕ → List (String × Entry R) → String
  oldest_from k t [] = k
  oldest_from k t ((j, e) ∷ rest) =
      if ltb e.inserted t then oldest_from j e.inserted rest else oldest_from k t rest

  -- The key that is deleted, empty without entries.
  unfoldable pub oldest_key : Cache R → String
  unfolding oldest_from
  oldest_key [] = ""
  oldest_key ((k, e) ∷ rest) = oldest_from k e.inserted rest

  unfoldable pub set : ℕ → ℕ → ℕ → String → R → Cache R → Cache R
  unfolding evict_expired oldest_key delete put
  set ttl max now k results c =
      if nat_beq ttl 0
      then c
      else let live = evict_expired ttl now c c in
        let room = if leb max (length live) then delete (oldest_key live) live else live in
        put k (record { results = results; inserted = now }) room

  -- `GetReadings`, with what the query would answer, and the time at which it has answered.
  unfoldable pub get_readings : ℕ → ℕ → ℕ → String → Result R → Cache R → Result R × Cache R
  unfolding get set
  get_readings ttl now later k answer c =
      let looked = get ttl now k c in
      elim looked.0 [
        | some results ↦ (ok results, looked.1)
        | none ↦ elim answer [
          | err m ↦ (err m, looked.1)
          | ok results ↦ (ok results, set ttl max_entries later k results looked.1)
        ]
      ]
