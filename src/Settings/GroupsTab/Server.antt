-- ===== src/Settings/GroupsTab/Server.antt =====
-- What the server does with the calls of the groups tab: `UpdateGroupConfig` and
-- `UpdateSubGroupConfig` of backend/internal/server/store_adapter.go, on the configurations of one
-- device, and `UpdateRename` with its handler of backend/internal/handlers/renames.go. The columns may be
-- NULL, but for sub_group (backend/migrations/009_revert_groups.sql). That the handlers of the groups refuse an empty name
-- is left out: the names of the tab are trimmed and not empty.
pub mod Order
pub mod Removal
use telemetryhub.Common.{
  String, List, [], ◌∷◌, map, Option, none, some, Bool, false, ◌&&◌, ◌||◌, true, if◌then◌else◌,
  ◌==◌, string_eq, ◌≡◌, refl, arith, All, filter, ◌≢◌, inl, inr, Bool-cases, ap,
}
use text.Mathlib.TextEquality.{eq_iff}
use telemetryhub.Common.Int.{ℤ}
use telemetryhub.Js.Map.{get}
use telemetryhub.Js.Text.{or_undefined, trim}
use telemetryhub.Api.Types.{FieldRename}
use telemetryhub.Backend.Access.{Reply, refuse, respond}
use telemetryhub.Api.Calls.{Call}
use telemetryhub.Settings.GroupsTab.Requests.{handle_add_sub_group_lem}
use telemetryhub.Api.Replies.{settle, Result-cases}
use telemetryhub.Settings.Context.{GroupContext}
use telemetryhub.Handler.{Env, run, calls, called}
use telemetryhub.Settings.GroupsTab.{Tab, blur_description, handle_add_sub_group}

-- `column = value` of SQL, false for NULL
abbrev pub is_value : Option String → String → Bool
is_value none v = false
is_value (some u) v = u == v

unfoldable pub update_group_config :
    String → Option String → Option ℤ → List FieldRename → List FieldRename
update_group_config group description order = map (λ r.
    if is_value r.chart_group group
    then record r { group_description = description; group_sort_order = order }
    else r)

unfoldable pub update_sub_group_config :
    String → String → Option String → Option ℤ → List FieldRename → List FieldRename
update_sub_group_config group sub description order = map (λ r.
    if is_value r.chart_group group && is_value r.sub_group sub
    then record r { sub_group_description = description; sub_group_sort_order = order }
    else r)

-- Whether the statement of `UpdateRename` would put NULL into the sub-group of a configuration, so that it fails.
unfoldable pub violates : String → Option String → List FieldRename → Bool
violates field (some sub) rs = false
violates field none [] = false
violates field none (r ∷ rs) = r.raw_field == field || violates field none rs

-- `UpdateRename`; a statement that fails changes nothing.
unfoldable pub update_rename :
    String
    → Option String
    → Option String
    → Option String
    → Option String
    → List FieldRename
    → List FieldRename
unfolding violates
update_rename field name unit group sub rs =
    if violates field sub rs
    then rs
    else map
        (λ r.
          if r.raw_field == field
          then record r { display_name = name; unit = unit; chart_group = group; sub_group = sub }
          else r)
        rs

-- The handler's reply, given the database's text of the failure.
unfoldable pub update_rename_reply :
    String → String → Option String → List FieldRename → Reply (Unit {0})
unfolding violates
update_rename_reply error field sub rs =
    if violates field sub rs then refuse 500 error else respond 200 tt

-- What the calls that the groups tab makes do to the stored configurations of the device; the others are
-- left out.
unfoldable pub serve : Call → List FieldRename → List FieldRename
serve (Call.update_group_config device group description order) rs =
    update_group_config group description order rs
serve (Call.update_sub_group_config device group sub description order) rs =
    update_sub_group_config group sub description order rs
serve (Call.update_rename device field name unit group sub) rs =
    update_rename field name unit group sub rs
serve _ rs = rs

-- All calls of a handler, the newest first in the list.
unfoldable pub serve_all : List Call → List FieldRename → List FieldRename
unfolding serve
serve_all [] rs = rs
serve_all (c ∷ cs) rs = serve c (serve_all cs rs)

update_group_config_sets :
    (group : String) (description : Option String) (order : Option ℤ) (rs : List FieldRename)
    → All
        (λ r. (r.group_description ≡ description) × (r.group_sort_order ≡ order))
        (filter
          (λ r. is_value r.chart_group group)
          (update_group_config group description order rs))
unfolding update_group_config filter
update_group_config_sets group description order [] = tt
update_group_config_sets group description order (r ∷ rs) =
    elim (Bool-cases (is_value r.chart_group group)) [
      | inl hit ↦ rw (hit, hit) ((refl, refl), update_group_config_sets group description order rs)
      | inr miss ↦ rw (miss, miss) (update_group_config_sets group description order rs)
    ]

update_sub_group_config_misses :
    (group sub : String) (description : Option String) (order : Option ℤ) (rs : List FieldRename)
    → filter (λ r. is_value r.chart_group group && is_value r.sub_group sub) rs ≡ []
    → update_sub_group_config group sub description order rs ≡ rs
unfolding update_sub_group_config filter
update_sub_group_config_misses group sub description order [] h = refl
update_sub_group_config_misses group sub description order (r ∷ rs) h =
    elim (Bool-cases (is_value r.chart_group group && is_value r.sub_group sub)) [
      | inl hit ↦ absurd (ground arith)
      | inr miss ↦ rw miss (
          ap (◌∷◌ r) (update_sub_group_config_misses group sub description order rs (ground arith)))
    ]

calls-blur_description :
    (device_id : String) (c : GroupContext) (env : Env Tab) (s : Tab) (group_name val : String)
    → val ≢ (elim (get group_name c.groups) [ none ↦ "" | some e ↦ e.description ])
    → calls (run (blur_description device_id c group_name val) env s).log
      ≡ Call.update_group_config device_id group_name (or_undefined val) none ∷ []
unfolding blur_description calls
calls-blur_description device_id c env s group_name val h =
    let old : String = elim (get group_name c.groups) [ none ↦ "" | some e ↦ e.description ] in
    let asked = Call.update_group_config device_id group_name (or_undefined val) none in
    elim (Result-cases (settle asked (env.reply ((called asked, s) ∷ []) asked))) [
      | inl (a, e) ↦ ground (arith, eq_iff val old)
      | inr (m, e) ↦ ground (arith, eq_iff val old)
    ]

-- Leaving the input of a group's description with another text makes the server store the text,
-- and forget the order of the group, in every configuration stored with that group.
pub blur_description_loses_order :
    (device_id : String) (c : GroupContext) (env : Env Tab) (s : Tab) (group_name val : String)
    (rs : List FieldRename)
    → val ≢ (elim (get group_name c.groups) [ none ↦ "" | some e ↦ e.description ])
    → All
        (λ r. (r.group_description ≡ or_undefined val) × (r.group_sort_order ≡ none))
        (filter
          (λ r. is_value r.chart_group group_name)
          (serve_all (calls (run (blur_description device_id c group_name val) env s).log) rs))
unfolding serve_all serve
blur_description_loses_order device_id c env s group_name val rs h =
    rw (calls-blur_description device_id c env s group_name val h)
      (update_group_config_sets group_name (or_undefined val) none rs)

-- Adding a sub-group that no stored configuration of the group names leaves the stored
-- configurations as they were.
pub handle_add_sub_group_stores_nothing :
    (device_id : String) (c : GroupContext) (env : Env Tab) (s : Tab) (group_name name : String)
    (rs : List FieldRename)
    → filter (λ r. is_value r.chart_group group_name && is_value r.sub_group (trim name)) rs ≡ []
    → serve_all (calls (run (handle_add_sub_group device_id c group_name name) env s).log) rs ≡ rs
unfolding serve_all serve calls
handle_add_sub_group_stores_nothing device_id c env s group_name name rs h =
    elim (handle_add_sub_group_lem device_id c env s group_name name) [
      | inl (blank, e) ↦ rw e refl
      | inr (inl (named, taken, e)) ↦ rw e refl
      | inr (inr (named, free, order, above, e)) ↦
          rw e (update_sub_group_config_misses group_name (trim name) none (some order) rs h)
    ]
