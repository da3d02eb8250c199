-- ===== src/Api/Types.antt =====
-- The interfaces of frontend/src/lib/api.ts. An optional property is an `Option`; `null` and
-- `undefined` are both `none`. A number that the frontend only shows is a decimal, as the JSON has it.
use telemetryhub.Common.{ℕ, String, Option, List}
use telemetryhub.Common.Int.{ℤ}

-- mantissa * 10 ^ exponent
pub record Decimal : Type 0 where
  pub mantissa : ℤ
  pub exponent : ℤ

pub record Device : Type 0 where
  pub id : String
  pub name : String
  pub device_type : String
  pub first_seen : String
  pub last_seen : String
  pub broker_name : String
  pub group_id : Option ℕ
  pub group_name : Option String

pub record DeviceGroup : Type 0 where
  pub id : ℕ
  pub name : String
  pub sort_order : ℤ
  pub created_at : String

pub record ReadingData : Type 0 where
  pub bucket : String
  pub field_name : String
  pub display_name : String
  pub unit : String
  pub value : Decimal
  pub min_value : Decimal
  pub max_value : Decimal

pub record FieldRename : Type 0 where
  pub device_id : String
  pub raw_field : String
  pub display_name : Option String
  pub unit : Option String
  pub chart_group : Option String
  pub sub_group : Option String
  pub group_description : Option String
  pub sub_group_description : Option String
  pub group_sort_order : Option ℤ
  pub sub_group_sort_order : Option ℤ

pub record User : Type 0 where
  pub id : ℕ
  pub email : String
  pub role : String

-- What `login` resolves to.
pub record Session : Type 0 where
  pub token : String
  pub user : User

-- What `createDeviceGroup` resolves to.
pub record CreatedGroup : Type 0 where
  pub id : ℕ
  pub name : String

pub data Format : Type 0 where
  csv json : Format

-- The bytes of a download.
abbrev pub Blob : Type 0
Blob = List ℕ
