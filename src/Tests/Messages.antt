-- ===== src/Tests/Messages.antt =====
-- Runs of Backend.Message and Backend.Dedup.
use telemetryhub.Common.{
  ℕ, String, List, [], ◌∷◌, none, some, Option, true, ◌≡◌, ◌≢◌, refl, arith, take, length, ◌-◌, ◌<◌,
  string_eq, suc, ◌↔◌, Any,
}
use telemetryhub.Backend.Dedup.{Entry, new_ring, is_duplicate, is_seen, hashed}
use telemetryhub.Backend.Dedup.Window.{Event, message, reconnect, run}
use telemetryhub.Backend.Dedup.Window.Recent.{Repeats, Passed, is_duplicate_lem}
use telemetryhub.Backend.Message.{
  number, boolean, object, string, Members, end, member, Client, extract_device_id, message_handler,
  dedup_ttl,
}
use telemetryhub.Backend.Message.Failed.{Arrival, handle, handle_all, failed_is_lost}

-- {"ID": "dev", "em": {"temp": 21, "id": 5}, "on": true}
abbrev payload : Members ℕ
payload = member "ID" (string "dev") (
    member "em" (object (member "temp" (number 21) (member "id" (number 5) end)))
      (member "on" (boolean true) end))

abbrev parse : List ℕ → Option (Members ℕ)
parse bytes = some payload

abbrev sum : List ℕ → ℕ
sum [] = 7
sum (b ∷ bytes) = b

abbrev no_bytes : String → List ℕ
no_bytes s = []

abbrev client : Client ℕ
client = record {
  total_messages = 3;
  total_dropped = 0;
  total_errors = 0;
  last_message_at = 0;
  last_error = none;
  ring = new_ring 2;
  stored = [];
}

h_error : (handle 0 1 parse no_bytes sum 10 (some "closed") "t" (5 ∷ []) client).total_errors ≡ 1
unfolding message_handler is_duplicate is_seen new_ring
h_error = refl

h_hash : sum (hashed (no_bytes (extract_device_id (parse (5 ∷ [])) "t")) (5 ∷ [])) ≢ 0
unfolding hashed
h_hash e = absurd (ground arith)

-- Another message comes in between.
abbrev between : List Arrival
between = record { at = 15; failure = none; topic = "t"; payload = 6 ∷ [] } ∷ []

h_room : length between < length client.ring
unfolding new_ring
h_room = omega arith

h_young : 20 - 10 < dedup_ttl
h_young = omega arith

failed_is_lost_example :
    let d = handle 0 1 parse no_bytes sum 10 (some "closed") "t" (5 ∷ []) client in
    let m = handle_all 0 1 parse no_bytes sum between d in
    let e = handle 0 1 parse no_bytes sum 20 none "t" (5 ∷ []) m in
    (d.stored ≡ [])
    × (e.stored ≡ m.stored)
    × (e.total_dropped ≡ suc m.total_dropped)
    × (e.total_errors ≡ m.total_errors)
failed_is_lost_example =
    failed_is_lost 0 1 parse no_bytes sum 10 20 (some "closed") none "t" (5 ∷ []) between client
      h_error h_hash h_room h_young

abbrev events : List Event
events = message 20 7 ∷ message 10 5 ∷ reconnect ∷ message 5 7 ∷ []

is_duplicate_lem_example :
    (before : List Entry) × Passed 100 2 events before
    × (((is_duplicate 100 30 5 (run 100 2 events)).0 ≡ true)
        ↔ Any (Repeats 100 30 5) (take 2 before))
    × (length (run 100 2 events) ≡ 2)
is_duplicate_lem_example = is_duplicate_lem 100 2 30 5 events
