-- ===== src/Settings/ExportTab/Controls.antt =====
-- When the export tab offers a download.
use telemetryhub.Common.{
  String, List, [], ◌∷◌, ◌++◌, Option, true, not, ◌≡◌, arith, ◌↔◌, inl, inr, Any-append,
  Any-append_right,
}
use telemetryhub.Common.Int.{ℤ}
use telemetryhub.Api.Types.{FieldRename, Format, csv, json}
use telemetryhub.Ui.{Widget, button, Offers, Gives, when, each}
use telemetryhub.Settings.Context.{GroupContext}
use telemetryhub.Settings.ExportTab.{Tab, can_download, ungrouped_fields, fields_of}
use telemetryhub.Settings.ExportTab.View.{
  Action, Picker, ungrouped_part, error_text, download, field_row, group_rows, selection_tree,
  range_view, view,
}

module _ (f : Format) where
  fields-offer : (s : Tab) (fs : List String) → ¬ (Offers (each (field_row s) fs) (download f))
  unfolding each field_row
  fields-offer s [] o = o
  fields-offer s (g ∷ gs) o = ground (arith, fields-offer s gs)

  group-offer :
      (c : GroupContext) (s : Tab) (g : String) → ¬ (Offers (group_rows c s g) (download f))
  unfolding group_rows
  group-offer c s g o = ground (arith, fields-offer s (fields_of c g))

  groups-offer :
      (c : GroupContext) (s : Tab) (gs : List String)
      → ¬ (Offers (each (group_rows c s) gs) (download f))
  unfolding each
  groups-offer c s [] o = o
  groups-offer c s (g ∷ gs) o = elim (Any-append _ (group_rows c s g) _ o) [
    | inl l ↦ group-offer c s g l
    | inr r ↦ groups-offer c s gs r
  ]

  ungrouped-offer : (s : Tab) (fs : List String) → ¬ (Offers (ungrouped_part s fs) (download f))
  ungrouped-offer s [] o = o
  ungrouped-offer s (g ∷ gs) o = ground (arith, fields-offer s (g ∷ gs))

  tree-offer :
      (c : GroupContext) (gs fs : List String) (s : Tab)
      → ¬ (Offers (selection_tree c gs fs s) (download f))
  unfolding selection_tree when
  tree-offer c [] [] s o = ground arith
  tree-offer c [] (h ∷ hs) s o = ground (arith, fields-offer s (h ∷ hs))
  tree-offer c (g ∷ gs) fs s o = elim (Any-append _ (each (group_rows c s) (g ∷ gs)) _ o) [
    | inl l ↦ groups-offer c s (g ∷ gs) l
    | inr r ↦ ungrouped-offer s fs r
  ]

  error-offer : (e : Option String) → ¬ (Offers (error_text e) (download f))
  error-offer e o = ground arith

  module _ (time_of : String → Option ℤ) (to_iso : ℤ → String) (s : Tab) where
    range-offer : ¬ (Offers (range_view time_of to_iso s) (download f))
    unfolding range_view when
    range-offer o = ground arith

    abbrev buttons : List (Widget Action Picker)
    buttons =
        button "Download CSV" (not (can_download time_of to_iso s)) (download csv)
        ∷ button "Download JSON" (not (can_download time_of to_iso s)) (download json)
        ∷ error_text s.error

    buttons-offer : Offers buttons (download f) ↔ (can_download time_of to_iso s ≡ true)
    buttons-offer = (λ o. ground (arith, error-offer s.error), λ d. ground arith)

    -- The tab offers a download in a format exactly if the code says that one is possible: a field is
    -- selected, the range is valid and no download is awaited.
    pub download_offered :
        (c : GroupContext) (fields : List String) (renames : List FieldRename)
        (all_groups : List String)
        → Offers (view time_of to_iso c fields renames all_groups s) (download f)
          ↔ (can_download time_of to_iso s ≡ true)
    unfolding view
    download_offered c fields renames all_groups =
        let ungrouped = ungrouped_fields renames fields in
        let tree = selection_tree c all_groups ungrouped s in
        let range = range_view time_of to_iso s in
        (
          λ o. ground (
            arith,
            Any-append (Gives (download f)) (tree ++ range) buttons,
            Any-append (Gives (download f)) tree range,
            tree-offer c all_groups ungrouped s,
            range-offer,
            buttons-offer.0,
          ),
          λ d. inr (
              inr
                (inr (inr (inr (Any-append_right _ (tree ++ range) buttons (buttons-offer.1 d)))))),
        )
