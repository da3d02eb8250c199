-- ===== src/Backend/Renames.antt =====
-- `CreateRename` and `DeleteRename` of backend/internal/server/store_adapter.go, on the configurations of
-- one device, and the handler of `CreateRename` in backend/internal/handlers/renames.go; `UpdateRename` is in Settings.GroupsTab.Server. A field has one configuration at most, which is the
-- primary key of the table.
pub mod Saved
use telemetryhub.Common.{
  String, List, [], ◌∷◌, Option, none, some, Bool, not, ◌==◌, string_eq, if◌then◌else◌, filter,
}
use telemetryhub.Js.Text.{is_empty}
use telemetryhub.Api.Types.{FieldRename}

-- A new row, of which the columns of the groups are NULL.
abbrev row :
    String → String → Option String → Option String → Option String → Option String → FieldRename
row device_id field name unit group sub = record {
  device_id = device_id;
  raw_field = field;
  display_name = name;
  unit = unit;
  chart_group = group;
  sub_group = sub;
  group_description = none;
  sub_group_description = none;
  group_sort_order = none;
  sub_group_sort_order = none;
}

-- `INSERT … ON CONFLICT (device_id, raw_field) DO UPDATE`, of which the new row is the argument.
unfoldable pub upsert : FieldRename → List FieldRename → List FieldRename
upsert new [] = new ∷ []
upsert new (r ∷ rs) =
    if r.raw_field == new.raw_field
    then record r {
      display_name = new.display_name;
      unit = new.unit;
      chart_group = new.chart_group;
      sub_group = new.sub_group;
    }
      ∷ rs
    else r ∷ upsert new rs

-- `CreateRename` of the store, where the column sub_group refuses NULL.
unfoldable pub insert_rename :
    String
    → String
    → Option String
    → Option String
    → Option String
    → Option String
    → List FieldRename
    → List FieldRename
unfolding upsert
insert_rename device_id field name unit group none rs = rs
insert_rename device_id field name unit group (some sub) rs =
    upsert (row device_id field name unit group (some sub)) rs

-- `CreateRename` of the handler, which refuses an empty field.
unfoldable pub create_rename :
    String
    → String
    → Option String
    → Option String
    → Option String
    → Option String
    → List FieldRename
    → List FieldRename
unfolding insert_rename
create_rename device_id field name unit group sub rs =
    if is_empty field then rs else insert_rename device_id field name unit group sub rs

-- `DeleteRename`
unfoldable pub delete_rename : String → List FieldRename → List FieldRename
unfolding filter
delete_rename field = filter (λ r. not (r.raw_field == field))
