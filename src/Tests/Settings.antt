-- ===== src/Tests/Settings.antt =====
-- Runs of Settings.
use telemetryhub.Common.{
  String, List, [], ◌∷◌, ◌++◌, length, filter, Option, none, some, Bool, true, false, ◌≡◌, refl,
  ◌⊎◌, All, ◌==◌, string_eq,
}
use telemetryhub.Common.Int.{ℤ, pos, ◌<ℤ◌}
use telemetryhub.Js.Map.{includes, get, has_key}
use telemetryhub.Js.Text.{trim, is_empty, or_undefined}
use telemetryhub.Api.Types.{FieldRename}
use telemetryhub.Api.Calls.{Call}
use telemetryhub.Api.Replies.{ok, err}
use telemetryhub.Handler.{run, calls, events, alerted, changed_fields, changed_renames}
use telemetryhub.Reorder.{up, move, find_index, target, swap}
use telemetryhub.Settings.GroupsTab.Server.Order.{move_group_stores}
use telemetryhub.Settings.Context.{GroupContext, group_context, is_sibling, sub_key}
use telemetryhub.Settings.Card.{Card, handle_delete}
use telemetryhub.Settings.Card.Outcomes.{
  log_field, log_rename, field_deleted, rename_deleted, handle_delete_lem,
}
use telemetryhub.Settings.GroupsTab.{start, move_group, handle_add_sub_group, blur_description}
use telemetryhub.Settings.GroupsTab.Requests.{handle_add_sub_group_lem}
use telemetryhub.Settings.GroupsTab.Server.{is_value, serve_all, blur_description_loses_order}
use telemetryhub.Tests.Data.{rename, online, distinct_texts}

abbrev card : Card
card = record {
  display_name = "";
  unit = "";
  chart_group = "g";
  sub_group = "";
  is_saving = false;
  is_deleting = false;
}

abbrev configured : Option FieldRename
configured = some (rename "a" (some "g") none)

handle_delete_lem_example :
    let w = run (handle_delete "d1" "a" configured) online card in
    (w.state.is_deleting ≡ false)
    × (((m : String) × (field_deleted "d1" "a" configured online card ≡ err m)
          × (events w.log
              ≡ alerted "Failed to delete field"
                ∷ events (log_field "d1" "a" configured online card)))
        ⊎ ((field_deleted "d1" "a" configured online card ≡ ok tt)
            × (configured ≡ none)
            × (events w.log
                ≡ changed_fields
                  ∷ changed_renames
                  ∷ events (log_field "d1" "a" configured online card)))
        ⊎ ((r : FieldRename) × (field_deleted "d1" "a" configured online card ≡ ok tt)
            × (configured ≡ some r)
            × (((rename_deleted "d1" "a" configured online card ≡ ok tt)
                  × (events w.log
                      ≡ changed_fields
                        ∷ changed_renames
                        ∷ events (log_rename "d1" "a" configured online card)))
                ⊎ ((m : String) × (rename_deleted "d1" "a" configured online card ≡ err m)
                    × (events w.log
                        ≡ alerted "Failed to delete field"
                          ∷ events (log_rename "d1" "a" configured online card))))))
handle_delete_lem_example = handle_delete_lem "d1" "a" configured online card refl

abbrev renames : List FieldRename
renames = rename "a" (some "g") (some "s") ∷ rename "b" (some "h") none ∷ []

abbrev context : GroupContext
context = group_context renames

handle_add_sub_group_lem_example :
    let w = run (handle_add_sub_group "d1" context "g" " new ") online start in
    let name = trim " new " in
    ((is_empty name ≡ true) × (w.log ≡ []))
    ⊎ ((is_empty name ≡ false)
        × (has_key (sub_key "g" name) context.sub_groups ≡ true)
        × (calls w.log ≡ []))
    ⊎ ((is_empty name ≡ false)
        × (has_key (sub_key "g" name) context.sub_groups ≡ false)
        × (order : ℤ) × All
            (λ e. e.1.sort_order <ℤ order)
            (filter (λ e. is_sibling "g" e.0) context.sub_groups)
        × (calls w.log ≡ Call.update_sub_group_config "d1" "g" name none (some order) ∷ []))
handle_add_sub_group_lem_example = handle_add_sub_group_lem "d1" context online start "g" " new "

abbrev is_h : String → Bool
is_h g = g == "h"

abbrev before_g : List String
before_g = "h" ∷ []

moved_up : move is_h up ("g" ∷ "h" ∷ []) ≡ some (before_g ++ "g" ∷ [])
unfolding move find_index target swap
moved_up = refl

move_group_stores_example :
    All
      (λ r. r.group_sort_order ≡ some (pos (length before_g)))
      (filter
        (λ r. is_value r.chart_group "g")
        (serve_all
          (calls (run (move_group "d1" context ("g" ∷ "h" ∷ []) "h" up) online start).log)
          renames))
unfolding includes
move_group_stores_example =
    move_group_stores "d1" context online start ("g" ∷ "h" ∷ []) "h" up before_g [] "g" renames
      moved_up refl

abbrev no_groups : GroupContext
no_groups = record { groups = []; sub_groups = [] }

blur_description_loses_order_example :
    All
      (λ r. (r.group_description ≡ or_undefined "text") × (r.group_sort_order ≡ none))
      (filter
        (λ r. is_value r.chart_group "g")
        (serve_all
          (calls (run (blur_description "d1" no_groups "g" "text") online start).log)
          renames))
unfolding get
blur_description_loses_order_example =
    blur_description_loses_order "d1" no_groups online start "g" "text" renames
      (distinct_texts "text" "" refl)
