-- ===== src/Backend/Message/Failed.antt =====
-- What becomes of a message that could not be stored.
use mathlib.Core.List.{append_assoc}
use telemetryhub.Common.{
  ◌≤◌, ◌⊎◌, ap, ◌∙◌, ℕ, suc, ◌-◌, ◌<◌, String, List, [], ◌∷◌, ◌++◌, Option, true, false, length,
  ◌≡◌, ◌≢◌, inl, inr, refl, arith, Bool-cases, Option-cases,
}
use telemetryhub.Js.Text.{is_empty}
use telemetryhub.Backend.Dedup.{Entry, hashed, is_seen, insert, is_duplicate}
use telemetryhub.Backend.Message.{
  Members, Client, dedup_ttl, extract_device_id, handle_message, message_handler,
}

-- An entry stands in a ring with at least some before it.
abbrev Behind : ℕ → Entry → List Entry → Type 0
Behind n e ring =
    (before : List Entry) × (after : List Entry) × (ring ≡ before ++ e ∷ after)
    × (n ≤ length before)

is_seen-within :
    (ttl now : ℕ) (e : Entry) (before after : List Entry)
    → e.hash ≢ 0
    → now - e.at < ttl
    → is_seen ttl now e.hash (before ++ e ∷ after) ≡ true
unfolding is_seen
is_seen-within ttl now e [] after n young = ground arith
is_seen-within ttl now e (x ∷ before) after n young =
    ground (arith, is_seen-within ttl now e before after n young)

Behind-insert_own :
    (n : ℕ) (e : Entry) (ring : List Entry) → n < length ring → Behind n e (insert e ring)
unfolding insert
Behind-insert_own n e [] room = absurd (ground arith)
Behind-insert_own n e (old ∷ rest) room = (rest, [], refl, ground arith)

-- Another entry takes one place of those before it.
Behind-insert :
    (n : ℕ) (e x : Entry) (ring : List Entry) → Behind (suc n) e ring → Behind n e (insert x ring)
unfolding insert
Behind-insert n e x ring ([], after, place, room) = absurd (ground arith)
Behind-insert n e x ring (old ∷ before, after, place, room) = (
  before,
  after ++ x ∷ [],
  ap (insert x) place ∙ append_assoc before (e ∷ after) (x ∷ []),
  ground arith,
)

-- A message with the error of the database, if there is one when it comes.
pub record Arrival : Type 0 where
  pub at : ℕ
  pub failure : Option String
  pub topic : String
  pub payload : List ℕ

module _ {F : Type 0} (zero_value one_value : F) (parse : List ℕ → Option (Members F))
    (utf8 : String → List ℕ) (fnv : List ℕ → ℕ) where
  abbrev pub handle : ℕ → Option String → String → List ℕ → Client F → Client F
  handle = message_handler zero_value one_value parse utf8 fnv

  -- A message that is counted as an error has a device, and was inserted into the ring.
  counted_error :
      (now : ℕ) (failure : Option String) (topic : String) (payload : List ℕ) (c : Client F)
      → let d = handle now failure topic payload c in
        d.total_errors ≡ suc c.total_errors
        → let device_id = extract_device_id (parse payload) topic in
          (is_empty device_id ≡ false)
          × (d.ring
              ≡ insert (record { hash = fnv (hashed (utf8 device_id) payload); at = now }) c.ring)
          × (d.stored ≡ c.stored)
          × (d.total_dropped ≡ c.total_dropped)
  unfolding message_handler is_duplicate
  counted_error now failure topic payload c h =
      elim (Bool-cases (is_empty (extract_device_id (parse payload) topic))) [
        | inl missing ↦ absurd (ground arith)
        | inr named ↦
            let key = fnv (hashed (utf8 (extract_device_id (parse payload) topic)) payload) in
            elim (Bool-cases (is_seen dedup_ttl now key c.ring)) [
              | inl again ↦ absurd (ground arith)
              | inr first ↦
                  elim (Option-cases
                    (handle_message zero_value one_value parse failure
                      (extract_device_id (parse payload) topic) payload).0) [
                        | inl fine ↦ absurd (ground arith)
                        | inr (e, failed) ↦ (named, ground arith, ground arith, ground arith)
                      ]
            ]
      ]

  -- The messages are handled in turn.
  abbrev pub handle_all : List Arrival → Client F → Client F
  handle_all [] c = c
  handle_all (a ∷ rest) c = handle_all rest (handle a.at a.failure a.topic a.payload c)

  ring-handle :
      (a : Arrival) (c : Client F)
      → ((handle a.at a.failure a.topic a.payload c).ring ≡ c.ring)
        ⊎ ((x : Entry) × ((handle a.at a.failure a.topic a.payload c).ring ≡ insert x c.ring))
  unfolding message_handler is_duplicate
  ring-handle a c = elim (Bool-cases (is_empty (extract_device_id (parse a.payload) a.topic))) [
    | inl missing ↦ inl (ground arith)
    | inr named ↦
        let key = fnv (hashed (utf8 (extract_device_id (parse a.payload) a.topic)) a.payload) in
        elim (Bool-cases (is_seen dedup_ttl a.at key c.ring)) [
          | inl again ↦ inl (ground arith)
          | inr first ↦
              elim (Option-cases
                (handle_message zero_value one_value parse a.failure
                  (extract_device_id (parse a.payload) a.topic) a.payload).0) [
                    | inl fine ↦ inr (record { hash = key; at = a.at }, ground arith)
                    | inr (e, failed) ↦ inr (record { hash = key; at = a.at }, ground arith)
                  ]
        ]
  ]

  Behind-handle :
      (n : ℕ) (e : Entry) (a : Arrival) (c : Client F)
      → Behind (suc n) e c.ring
      → Behind n e (handle a.at a.failure a.topic a.payload c).ring
  Behind-handle n e a c (before, after, place, room) = elim (ring-handle a c) [
    | inl same ↦ (before, after, same ∙ place, ground arith)
    | inr (x, inserted) ↦ rw inserted (Behind-insert n e x c.ring (before, after, place, room))
  ]

  -- An entry stays in the ring while fewer messages come than there are entries before it.
  Behind-handle_all :
      (e : Entry) (between : List Arrival) (c : Client F)
      → Behind (length between) e c.ring
      → Behind 0 e (handle_all between c).ring
  Behind-handle_all e [] c b = b
  Behind-handle_all e (a ∷ between) c b =
      Behind-handle_all e between (handle a.at a.failure a.topic a.payload c)
        (Behind-handle (length between) e a c b)

  seen_again :
      (later : ℕ) (again : Option String) (topic : String) (payload : List ℕ) (m : Client F)
      → is_empty (extract_device_id (parse payload) topic) ≡ false
      → is_seen dedup_ttl later
          (fnv (hashed (utf8 (extract_device_id (parse payload) topic)) payload))
          m.ring
        ≡ true
      → let e = handle later again topic payload m in
        (e.stored ≡ m.stored)
        × (e.total_dropped ≡ suc m.total_dropped)
        × (e.total_errors ≡ m.total_errors)
  unfolding message_handler is_duplicate
  seen_again later again topic payload m named found = (ground arith, ground arith, ground arith)

  -- A message is taken for seen before it is stored: if storing it fails, which stores nothing, then the same message,
  -- sent again within the five minutes, is dropped and not stored, though the database could store it now; if its hash is
  -- not 0, no new connection comes in between, and fewer other messages do than the ring has entries.
  pub failed_is_lost :
      (now later : ℕ) (failure again : Option String) (topic : String) (payload : List ℕ)
      (between : List Arrival) (c : Client F)
      → let d = handle now failure topic payload c in
        let m = handle_all between d in
        let e = handle later again topic payload m in
        d.total_errors ≡ suc c.total_errors
        → fnv (hashed (utf8 (extract_device_id (parse payload) topic)) payload) ≢ 0
        → length between < length c.ring
        → later - now < dedup_ttl
        → (d.stored ≡ c.stored)
          × (e.stored ≡ m.stored)
          × (e.total_dropped ≡ suc m.total_dropped)
          × (e.total_errors ≡ m.total_errors)
  failed_is_lost now later failure again topic payload between c error nonzero room young =
      let first = counted_error now failure topic payload c error in
      let d = handle now failure topic payload c in
      let m = handle_all between d in
      let key = fnv (hashed (utf8 (extract_device_id (parse payload) topic)) payload) in
      let entry : Entry = record { hash = key; at = now } in
      let entered : Behind (length between) entry d.ring =
        rw first.1 (Behind-insert_own (length between) entry c.ring room) in
      let record_of = Behind-handle_all entry between d entered in
      let found =
        ap (is_seen dedup_ttl later key) record_of.2
        ∙ is_seen-within dedup_ttl later entry record_of.0 record_of.1 nonzero young in
      let lost = seen_again later again topic payload m first.0 found in
      (first.2, lost.0, lost.1, lost.2)
