-- ===== src/Settings/Card.antt =====
-- `FieldConfigCard`: the configuration of one field.
pub mod Outcomes
pub mod View
use telemetryhub.Common.{
  ℕ, String, List, [], ◌∷◌, ◌++◌, Option, none, some, Bool, true, false, not, ◌&&◌, filter, length,
  ltb, if◌then◌else◌, ◌==◌, string_eq, get_elem?, map,
}
use telemetryhub.Common.Int.{ℤ}
use telemetryhub.Js.Map.{get}
use telemetryhub.Js.Sort.{sort, sign_of}
use telemetryhub.Js.Text.{text, is_empty, split, missing_or}
use telemetryhub.Api.Types.{FieldRename}
use telemetryhub.Api.Calls.{Call}
use telemetryhub.Handler.{
  M, pure, ◌>>=◌, ◌>>◌, modify, emit, confirm, call, try_catch, finally, only_if, alerted,
  changed_renames, changed_fields,
}
use telemetryhub.DevicePage.State.{property}
use telemetryhub.Settings.Context.{GroupContext, SubInfo}

pub record Card : Type 0 where
  pub display_name : String
  pub unit : String
  pub chart_group : String
  pub sub_group : String
  pub is_saving : Bool
  pub is_deleting : Bool

unfoldable pub start : Option FieldRename → Card
start rename = record {
  display_name = property (λ r. r.display_name) rename "";
  unit = property (λ r. r.unit) rename "";
  chart_group = property (λ r. r.chart_group) rename "";
  sub_group = property (λ r. r.sub_group) rename "";
  is_saving = false;
  is_deleting = false;
}

module _ (device_id field : String) (rename : Option FieldRename) where
  -- A configuration that exists is updated, else one is created.
  abbrev pub save_call : Card → Call
  save_call seen = elim rename [
    | none ↦
        Call.create_rename device_id field (some seen.display_name) (some seen.unit)
          (some seen.chart_group) (some seen.sub_group)
    | some r ↦
        Call.update_rename device_id field (some seen.display_name) (some seen.unit)
          (some seen.chart_group) (some seen.sub_group)
  ]

  unfoldable pub handle_save : Card → M Card (Unit {0})
  handle_save seen = do
    modify (λ s. record s { is_saving = true })
    finally
        (try_catch
          (elim rename [
            | none ↦ do
              call (
                  Call.create_rename device_id field (some seen.display_name) (some seen.unit)
                    (some seen.chart_group) (some seen.sub_group))
              emit changed_renames
            | some r ↦ do
              call (
                  Call.update_rename device_id field (some seen.display_name) (some seen.unit)
                    (some seen.chart_group) (some seen.sub_group))
              emit changed_renames
          ])
          (λ e. emit (alerted "Failed to save configuration")))
        (modify (λ s. record s { is_saving = false }))

  abbrev pub delete_question : String
  delete_question =
      text ("Delete all data for field \"" ∷ field ∷ "\"? This cannot be undone." ∷ [])

  abbrev delete_rename_if : M Card (Unit {0})
  delete_rename_if = elim rename [
    | none ↦ pure tt
    | some r ↦ call (Call.delete_rename device_id field)
  ]

  unfoldable pub handle_delete : M Card (Unit {0})
  handle_delete = do
    agreed ← confirm delete_question
    only_if agreed (do
      modify (λ s. record s { is_deleting = true })
      finally
          (try_catch
            (do
              call (Call.delete_device_field device_id field)
              delete_rename_if
              emit changed_renames
              emit changed_fields)
            (λ e. emit (alerted "Failed to delete field")))
          (modify (λ s. record s { is_deleting = false })))

module _ (c : GroupContext) (card : Card) where
  unfoldable pub sibling_count : ℕ
  sibling_count =
      if is_empty card.chart_group
      then 0
      else elim (get card.chart_group c.groups) [ none ↦ 0 | some e ↦ length e.fields ]

  unfoldable pub in_group : Bool
  unfolding sibling_count
  in_group = not (is_empty card.chart_group) && ltb 1 sibling_count
