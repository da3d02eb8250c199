-- ===== src/Tests/Data.antt =====
-- Sample data of the tests.
use telemetryhub.Common.{
  ℕ, String, [], ◌∷◌, Option, none, some, true, false, ◌≡◌, ◌≢◌, ◌==◌, string_eq, arith,
}
use text.Mathlib.TextEquality.{eq_iff}
use telemetryhub.Common.Int.{pos}
use telemetryhub.Js.Sort.{Sign, nought}
use telemetryhub.Api.Types.{Decimal, Device, DeviceGroup, ReadingData, FieldRename, User}
use telemetryhub.Api.Calls.{Call, Answer}
use telemetryhub.Api.Replies.{Fetched, rejected, accepted}
use telemetryhub.Handler.{Env}

abbrev pub device : String → Option ℕ → Device
device id group_id = record {
  id = id;
  name = id;
  device_type = "meter";
  first_seen = "2024-01-01T00:00:00Z";
  last_seen = "2024-01-02T00:00:00Z";
  broker_name = "main";
  group_id = group_id;
  group_name = none;
}

abbrev pub group : ℕ → ℕ → DeviceGroup
group id order = record { id = id; name = "g"; sort_order = pos order; created_at = "" }

abbrev pub rename : String → Option String → Option String → FieldRename
rename f g s = record {
  device_id = "d1";
  raw_field = f;
  display_name = none;
  unit = none;
  chart_group = g;
  sub_group = s;
  group_description = none;
  sub_group_description = none;
  group_sort_order = some (pos 3);
  sub_group_sort_order = none;
}

abbrev pub user : User
user = record { id = 1; email = "a@b"; role = "admin" }

abbrev pub decimal : ℕ → Decimal
decimal n = record { mantissa = pos n; exponent = pos 0 }

abbrev pub reading : String → String → ReadingData
reading f t = record {
  bucket = t;
  field_name = f;
  display_name = f;
  unit = "";
  value = decimal 1;
  min_value = decimal 1;
  max_value = decimal 1;
}

-- A server with two devices and two groups, that refuses what it is told to change.
abbrev pub answers : (c : Call) → Fetched (Answer c)
answers Call.get_devices = accepted (device "d1" (some 1) ∷ device "d2" none ∷ [])
answers Call.get_device_groups = accepted (group 1 0 ∷ group 2 1 ∷ [])
answers (Call.delete_device d) = accepted tt
answers (Call.get_readings d fs from to) = accepted (reading "t" "2" ∷ [])
answers (Call.update_device d n t) = accepted tt
answers (Call.update_group_config d g desc order) = accepted tt
answers c = rejected "offline"

abbrev pub online : {S : Type 0} → Env S
online = record { reply = λ log c. answers c; meanwhile = λ log s. s; consent = λ log. true }

abbrev pub offline : {S : Type 0} → Env S
offline = record {
  reply = λ log c. rejected "offline";
  meanwhile = λ log s. s;
  consent = λ log. true;
}

-- A comparison of names that finds all equal.
abbrev pub same_name : String → String → Sign
same_name a b = nought

-- Texts that the test tells apart are different.
pub distinct_texts : (a b : String) → (a == b) ≡ false → a ≢ b
distinct_texts a b h e = ground (arith, eq_iff a b)
