-- ===== src/Backend/Dedup.antt =====
-- backend/internal/mqtt/dedup.go. The ring of container/ring is the list of its values from `d.ring` on,
-- and `d.ring.Next()` puts the first value last. Texts and payloads are lists of bytes, times are
-- numbers of which a difference stops at 0; the hash FNV-1a is a parameter. A ring without entries, with which
-- IsDuplicate panics, does not occur: the server makes one of 500.
pub mod Window
use telemetryhub.Common.{
  ℕ, zero, suc, ◌-◌, List, [], ◌∷◌, ◌++◌, map, Bool, true, false, not, ◌&&◌, ◌||◌, ltb, nat_beq,
  take, if◌then◌else◌,
}

-- `dedupEntry`
pub record Entry : Type 0 where
  pub hash : ℕ
  pub at : ℕ

-- `dedupEntry{}`
abbrev pub blank : Entry
blank = record { hash = 0; at = 0 }

-- `NewDeduplicator`
unfoldable pub new_ring : ℕ → List Entry
new_ring zero = []
new_ring (suc n) = blank ∷ new_ring n

-- What is hashed: the name of the device and the first 100 bytes.
unfoldable pub hashed : List ℕ → List ℕ → List ℕ
hashed device_id payload = device_id ++ take 100 payload

-- The loop over the ring.
unfoldable pub is_seen : ℕ → ℕ → ℕ → List Entry → Bool
is_seen ttl now key [] = false
is_seen ttl now key (e ∷ rest) =
    not (nat_beq e.hash 0) && nat_beq e.hash key && ltb (now - e.at) ttl || is_seen ttl now key rest

-- `d.ring.Value = …; d.ring = d.ring.Next()`
unfoldable pub insert : Entry → List Entry → List Entry
insert e [] = []
insert e (old ∷ rest) = rest ++ e ∷ []

-- `IsDuplicate`, for the hash of the message.
unfoldable pub is_duplicate : ℕ → ℕ → ℕ → List Entry → Bool × List Entry
unfolding is_seen insert
is_duplicate ttl now key ring =
    if is_seen ttl now key ring
    then (true, ring)
    else (false, insert (record { hash = key; at = now }) ring)

-- `Reset`
unfoldable pub reset : List Entry → List Entry
reset ring = map (λ e. blank) ring
