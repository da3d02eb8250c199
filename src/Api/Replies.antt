-- ===== src/Api/Replies.antt =====
-- What the functions of frontend/src/lib/api.ts make of `fetch`'s reply. What they throw is an
-- `Error`, of which the callers read the message.
use telemetryhub.Common.{String, Option, none, some, ◌≡◌, refl, ◌⊎◌, inl, inr}
use telemetryhub.Js.Text.{or_else_text}
use telemetryhub.Api.Calls.{Call, Answer}

pub data Result {ℓ} (A : Type ℓ) : Type ℓ where
  ok : A → Result A
  err : String → Result A

-- The body of a reply that is not ok: not JSON, or an object whose property `error` may be missing.
pub data Complaint : Type 0 where
  unreadable : Complaint
  readable : Option String → Complaint

-- How a `fetch` ends: it rejects with a message, the status is not ok, or it is ok and the body
-- can be read or not.
pub data Fetched {ℓ} (A : Type ℓ) : Type ℓ where
  rejected : String → Fetched A
  refused : Complaint → Fetched A
  garbled : String → Fetched A
  accepted : A → Fetched A

-- `const err = await res.json().catch(() => ({ error: d })); throw new Error(err.error || d)`
abbrev complain : String → Complaint → String
complain fallback unreadable = fallback
complain fallback (readable e) = or_else_text e fallback

-- What is thrown when `res.ok` is false.
unfoldable pub failure : Call → Complaint → String
failure (Call.login email password) c = complain "Login failed" c
failure (Call.register email password confirm) c = complain "Registration failed" c
failure (Call.export_device_data device fields from to format) c = complain "Export failed" c
failure Call.get_me c = "Not authenticated"
failure Call.get_devices c = "Failed to fetch devices"
failure Call.get_device_groups c = "Failed to fetch device groups"
failure (Call.get_device device) c = "Failed to fetch device"
failure (Call.get_device_fields device) c = "Failed to fetch fields"
failure (Call.get_renames device) c = "Failed to fetch renames"
failure (Call.get_readings device fields from to) c = "Failed to fetch readings"
failure (Call.update_device device name type) c = "Failed to update device"
failure (Call.delete_device device) c = "Failed to delete device"
failure (Call.delete_device_field device field) c = "Failed to delete field data"
failure (Call.create_rename device field name unit group sub) c = "Failed to create rename"
failure (Call.update_rename device field name unit group sub) c = "Failed to update rename"
failure (Call.delete_rename device field) c = "Failed to delete rename"
failure (Call.update_group_config device group description order) c =
    "Failed to update group config"
failure (Call.update_sub_group_config device group sub description order) c =
    "Failed to update subgroup config"
failure (Call.create_device_group name) c = "Failed to create device group"
failure (Call.update_device_group id name) c = "Failed to update device group"
failure (Call.delete_device_group id) c = "Failed to delete device group"
failure (Call.reorder_device_groups order) c = "Failed to reorder device groups"
failure (Call.set_device_group device group) c = "Failed to set device group"

-- The functions that promise nothing do not read the body.
abbrev unread : (c : Call) → Option (Answer c)
unread (Call.login email password) = none
unread (Call.register email password confirm) = none
unread Call.get_me = none
unread Call.get_devices = none
unread Call.get_device_groups = none
unread (Call.get_device device) = none
unread (Call.get_device_fields device) = none
unread (Call.get_renames device) = none
unread (Call.get_readings device fields from to) = none
unread (Call.create_device_group name) = none
unread (Call.export_device_data device fields from to format) = none
unread _ = some tt

unfoldable pub settle : (c : Call) → Fetched (Answer c) → Result (Answer c)
unfolding failure
settle c (rejected m) = err m
settle c (refused complaint) = err (failure c complaint)
settle c (garbled m) = elim (unread c) [ none ↦ err m | some a ↦ ok a ]
settle c (accepted a) = ok a

-- How several calls end together.
abbrev pub both : {A B : Type 0} → Result A → Result B → Result (A × B)
both (ok a) (ok b) = ok (a, b)
both (ok a) (err e) = err e
both (err e) r = err e

abbrev pub both_ok : Result (Unit {0}) → Result (Unit {0}) → Result (Unit {0})
both_ok (ok a) r = r
both_ok (err e) r = err e

abbrev pub forget : {A : Type 0} → Result A → Result (Unit {0})
forget (ok a) = ok tt
forget (err e) = err e

pub Result-cases :
    {A : Type 0} (r : Result A) → ((a : A) × (r ≡ ok a)) ⊎ ((m : String) × (r ≡ err m))
Result-cases (ok a) = inl (a, refl)
Result-cases (err m) = inr (m, refl)
