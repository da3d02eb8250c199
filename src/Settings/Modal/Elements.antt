-- ===== src/Settings/Modal/Elements.antt =====
-- Which components the settings of a device contain.
use telemetryhub.Common.{
  String, List, [], ◌∷◌, ◌++◌, Bool, true, ◌≡◌, arith, ◌↔◌, ◌⊎◌, Any, Any-append, Any-append_left,
  Any-append_right, filter,
}
use telemetryhub.Api.Types.{Device, FieldRename}
use telemetryhub.Ui.{Widget, shows, Contains, IsChild, when, child}
use telemetryhub.DevicePage.State.{find_rename}
use telemetryhub.Settings.Context.{GroupContext, group_context, all_groups_sorted, filtered_fields}
use telemetryhub.Settings.Modal.{Modal}
use telemetryhub.Settings.Modal.View.{
  Action, Element, field_config_card, groups_tab, export_tab, field_cards, sensors_tab, view,
}

cards-Contains :
    (rs : List FieldRename) (c : GroupContext) (gs fs : List String) (e : Element)
    → Contains (field_cards rs c gs fs) e
      ↔ Any (λ f. field_config_card f (find_rename f rs) c gs ≡ e) fs
unfolding field_cards
cards-Contains rs c gs [] e = (λ h. h, λ h. h)
cards-Contains rs c gs (f ∷ fs) e =
    let i = cards-Contains rs c gs fs e in (λ h. ground (arith, i.0), λ h. ground (arith, i.1))

module _ (lower : String → String) (device : Device) (device_id : String) (fields : List String)
    (renames : List FieldRename) (s : Modal) (e : Element) where
  abbrev c : GroupContext
  c = group_context renames

  abbrev gs : List String
  gs = all_groups_sorted c

  abbrev found : List String
  found = filtered_fields lower s.search_query renames fields

  sensors-Contains :
      Contains (sensors_tab lower device device_id fields renames s) e
      ↔ Any (λ f. field_config_card f (find_rename f renames) c gs ≡ e) found
  unfolding sensors_tab filtered_fields filter
  sensors-Contains =
      let i = cards-Contains renames c gs found e in
      (λ h. ground (arith, i.0), λ h. ground (arith, i.1))

  abbrev parts : List (Widget Action Element)
  parts = sensors_tab lower device device_id fields renames s

  abbrev last : Bool → List (Widget Action Element)
  last is_admin =
      child (groups_tab renames c gs) ∷ when is_admin (child (export_tab fields renames c gs) ∷ [])

  -- The settings contain the card of every field that the search finds, each with the field's
  -- configuration, the tab of the groups, and that of the export for an administrator only.
  pub settings_elements :
      (is_admin : Bool)
      → Contains (view lower device device_id fields renames is_admin s) e ↔ (
          Any (λ f. field_config_card f (find_rename f renames) c gs ≡ e) found
          ⊎ (groups_tab renames c gs ≡ e)
          ⊎ ((is_admin ≡ true) × (export_tab fields renames c gs ≡ e)))
  unfolding view when
  settings_elements is_admin =
      let q : Widget Action Element → Type 0 = IsChild e in
      let tabs : List (Widget Action Element) = when is_admin (shows "Export Data" ∷ []) in
      (
        λ h. ground (
          arith,
          Any-append q tabs parts,
          Any-append q (tabs ++ parts) (last is_admin),
          sensors-Contains.0,
        ),
        λ h. ground (
          arith,
          Any-append_right q tabs parts,
          Any-append_left q (tabs ++ parts) (last is_admin),
          Any-append_right q (tabs ++ parts) (last is_admin),
          sensors-Contains.1,
        ),
      )
