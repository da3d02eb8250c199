-- ===== src/Backend/Message.antt =====
-- backend/internal/mqtt/handler.go and the message handler of client.go. What encoding/json reads in
-- a payload, a map of Go whose keys differ, is a parameter, as are the bytes of a text, the hash, the numbers, and
-- whether the database stores a message. Of JSON's arrays nothing is read. Payloads are bytes, times nanoseconds.
pub mod Flat
pub mod Failed
use telemetryhub.Common.{
  ℕ, suc, ◌+◌, String, List, [], ◌∷◌, ◌++◌, Option, none, some, Bool, true, false, not, ◌&&◌, ◌||◌,
  leb, ◌==◌, string_eq, if◌then◌else◌,
}
use Prim.Native.Char.{code}
use Prim.Native.String
use telemetryhub.Js.Map.{put, includes}
use telemetryhub.Js.Text.{text, split, is_empty}
use telemetryhub.Backend.Dedup.{Entry, hashed, is_duplicate}

module _ (F : Type 0) where
  mutual
    -- `interface{}` as encoding/json fills it
    pub data Json : Type 0 where
      null array : Json
      boolean : Bool → Json
      number : F → Json
      string : String → Json
      object : Members → Json

    pub data Members : Type 0 where
      end : Members
      member : String → Json → Members → Members

-- `handlerSkipPrefixes`
abbrev pub skip_prefixes : List String
skip_prefixes = "src" ∷ "dst" ∷ "method" ∷ "id" ∷ "ts" ∷ "time" ∷ []

-- `newPrefix`
unfoldable pub below : String → String → String
unfolding text
below prefix k = if is_empty prefix then k else text (prefix ∷ "." ∷ k ∷ [])

-- `deviceIDPattern`
unfoldable pub all_hex : String → Bool
all_hex String.[] = true
all_hex (String.◌∷◌ c s) =
    (leb b'0' (code c) && leb (code c) b'9'
      || leb b'A' (code c) && leb (code c) b'F'
      || leb b'a' (code c) && leb (code c) b'f')
    && all_hex s

unfoldable pub is_device_id : String → Bool
unfolding all_hex
is_device_id s = leb 6 (String.count s) && all_hex s

-- The loop over the segments of the topic, from the last one.
unfoldable pub last_device_id : List String → String
unfolding is_device_id
last_device_id [] = ""
last_device_id (s ∷ segments) =
    let found = last_device_id segments in
    if is_empty found then if is_device_id s then s else "" else found

module _ {F : Type 0} (zero_value one_value : F) where
  unfoldable mutual
    unfolding put includes below

    -- `flattenJSONWithParent`
    pub flatten : String → String → Json F → List (String × F) → List (String × F)
    flatten prefix parent null out = out
    flatten prefix parent array out = out
    flatten prefix parent (string s) out = out
    flatten prefix parent (number v) out =
        if includes skip_prefixes parent then out else put prefix v out
    flatten prefix parent (boolean b) out =
        if includes skip_prefixes parent
        then out
        else put prefix (if b then one_value else zero_value) out
    flatten prefix parent (object ms) out = flatten_members prefix ms out

    -- The loop over the members of an object.
    pub flatten_members : String → Members F → List (String × F) → List (String × F)
    flatten_members prefix end out = out
    flatten_members prefix (member k child rest) out =
        flatten_members prefix rest (flatten (below prefix k) k child out)

  -- `extractReadings`: the fields and their values.
  unfoldable pub extract_readings : Members F → List (String × F)
  unfolding flatten_members
  extract_readings payload = flatten_members "" payload []

module _ {F : Type 0} where
  unfoldable pub only_metadata : Members F → Bool
  only_metadata end = true
  only_metadata (member k child rest) = (k == "ID" || k == "time") && only_metadata rest

  -- `isMetadataOnly`
  unfoldable pub is_metadata_only : Members F → Bool
  unfolding only_metadata
  is_metadata_only end = true
  is_metadata_only (member k child rest) = only_metadata (member k child rest)

  -- `m["ID"].(string)`
  unfoldable pub id_of : Members F → String
  id_of end = ""
  id_of (member k (string s) rest) = if k == "ID" then s else id_of rest
  id_of (member k child rest) = if k == "ID" then "" else id_of rest

  -- `extractDeviceID`
  unfoldable pub extract_device_id : Option (Members F) → String → String
  unfolding id_of last_device_id split
  extract_device_id (some m) topic =
      if is_empty (id_of m) then last_device_id (split topic "/") else id_of m
  extract_device_id none topic = last_device_id (split topic "/")

-- A message that the database stores, with its readings.
pub record Row (F : Type 0) : Type 0 where
  pub device_id : String
  pub payload : List ℕ
  pub readings : List (String × F)

-- `Client`, with what the database has stored of its messages.
pub record Client (F : Type 0) : Type 0 where
  pub total_messages : ℕ
  pub total_dropped : ℕ
  pub total_errors : ℕ
  pub last_message_at : ℕ
  pub last_error : Option String
  pub ring : List Entry
  pub stored : List (Row F)

-- `5*time.Minute`
abbrev pub dedup_ttl : ℕ
dedup_ttl = 300000000000

module _ {F : Type 0} (zero_value one_value : F) (parse : List ℕ → Option (Members F)) where
  -- `HandleMessage`, given the error of the database, if there is one: the error that it returns, and what it stores.
  unfoldable pub handle_message : Option String → String → List ℕ → Option String × List (Row F)
  unfolding is_metadata_only extract_readings text
  handle_message failure device_id payload = elim (parse payload) [
    | none ↦ (none, [])
    | some m ↦ if is_metadata_only m then (none, []) else elim failure [
      | some e ↦ (some (text ("insert message: " ∷ e ∷ [])), [])
      | none ↦ (
        none,
        record {
          device_id = device_id;
          payload = payload;
          readings = extract_readings zero_value one_value m;
        }
            ∷ [],
      )
    ]
  ]

  module _ (utf8 : String → List ℕ) (fnv : List ℕ → ℕ) where
    -- `messageHandler`, at a time, for a topic and a payload.
    unfoldable pub message_handler : ℕ → Option String → String → List ℕ → Client F → Client F
    unfolding extract_device_id is_duplicate hashed handle_message
    message_handler now failure topic payload c =
        let d = record c { total_messages = suc c.total_messages; last_message_at = now } in
        let device_id = extract_device_id (parse payload) topic in
        let looked = is_duplicate dedup_ttl now (fnv (hashed (utf8 device_id) payload)) d.ring in
        let handled = handle_message failure device_id payload in
        if is_empty device_id
        then record d { total_dropped = suc d.total_dropped }
        else if looked.0
        then record d { total_dropped = suc d.total_dropped }
        else elim handled.0 [
          | some e ↦ record d {
            total_errors = suc d.total_errors;
            last_error = some e;
            ring = looked.1;
          }
          | none ↦ record d { ring = looked.1; stored = handled.1 ++ d.stored }
        ]
