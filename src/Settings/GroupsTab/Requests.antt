-- ===== src/Settings/GroupsTab/Requests.antt =====
-- What the groups tab asks of the server.
use mathlib.Core.List.{reverse}
use telemetryhub.Common.{
  String, List, [], ◌∷◌, none, some, true, false, ◌≡◌, ◌==◌, string_eq, arith, Bool-cases, inl, inr,
  ◌⊎◌, All, filter, ◌&&◌, if◌then◌else◌,
}
use telemetryhub.Common.Int.{ℤ, pos, negsuc, ◌+ℤ◌, ◌<ℤ◌, ◌≤ℤ◌, ltb_ℤ, +ℤ_parts}
use telemetryhub.Js.Map.{has_key}
use telemetryhub.Js.Text.{trim, is_empty}
use telemetryhub.Api.Calls.{Call}
use telemetryhub.Api.Replies.{settle, Result-cases}
use telemetryhub.Handler.{Env, run, calls, called, outcome}
use telemetryhub.Handler.Laws.{calls-issue_only}
use telemetryhub.Reorder.{Direction, move}
use telemetryhub.Settings.Context.{GroupContext, SubInfo, is_sibling, sub_key}
use telemetryhub.Settings.GroupsTab.{
  Tab, number_groups, move_group, max_order_from, handle_add_sub_group,
}

max_order_from_grows :
    (g : String) (m : ℤ) (es : List (String × SubInfo)) → m ≤ℤ max_order_from g m es
unfolding max_order_from
max_order_from_grows g m [] = ground arith
max_order_from_grows g m ((k, v) ∷ es) =
    elim (Bool-cases (is_sibling g k && ltb_ℤ m v.sort_order)) [
      | inl bigger ↦ ground (arith, max_order_from_grows g v.sort_order es)
      | inr not_bigger ↦ ground (arith, max_order_from_grows g m es)
    ]

-- A number above the maximum is above the order of every sub-group of the group.
max_order_from_bounds :
    (g : String) (m n : ℤ) (es : List (String × SubInfo))
    → max_order_from g m es <ℤ n
    → All (λ e. e.1.sort_order <ℤ n) (filter (λ e. is_sibling g e.0) es)
unfolding max_order_from filter
max_order_from_bounds g m n [] h = tt
max_order_from_bounds g m n ((k, v) ∷ es) h =
    let m' : ℤ = if is_sibling g k && ltb_ℤ m v.sort_order then v.sort_order else m in
    elim (Bool-cases (is_sibling g k)) [
      | inl own ↦
          rw own (ground (arith, max_order_from_grows g m' es), max_order_from_bounds g m' n es h)
      | inr other ↦ rw other (max_order_from_bounds g m' n es h)
    ]

next_order :
    (g : String) (es : List (String × SubInfo))
    → All
        (λ e. e.1.sort_order <ℤ (max_order_from g (negsuc 0) es +ℤ pos 1))
        (filter (λ e. is_sibling g e.0) es)
next_order g es =
    let m = max_order_from g (negsuc 0) es in
    max_order_from_bounds g (negsuc 0) (m +ℤ pos 1) es (ground (arith, +ℤ_parts m (pos 1)))

module _ (device_id : String) (c : GroupContext) (env : Env Tab) (s : Tab) where
  -- Adding a sub-group asks for nothing if the trimmed name is blank or taken; else its only call
  -- asks for the trimmed name with an order above that of every sub-group of the group, and no
  -- description.
  pub handle_add_sub_group_lem :
      (group_name sub_group_name : String)
      → let w = run (handle_add_sub_group device_id c group_name sub_group_name) env s in
        let name = trim sub_group_name in
        ((is_empty name ≡ true) × (w.log ≡ []))
        ⊎ ((is_empty name ≡ false)
            × (has_key (sub_key group_name name) c.sub_groups ≡ true)
            × (calls w.log ≡ []))
        ⊎ ((is_empty name ≡ false)
            × (has_key (sub_key group_name name) c.sub_groups ≡ false)
            × (order : ℤ) × All
                (λ e. e.1.sort_order <ℤ order)
                (filter (λ e. is_sibling group_name e.0) c.sub_groups)
            × (calls w.log
                ≡ Call.update_sub_group_config device_id group_name name none (some order) ∷ []))
  unfolding handle_add_sub_group calls
  handle_add_sub_group_lem group_name sub_group_name =
      let name = trim sub_group_name in
      let order = max_order_from group_name (negsuc 0) c.sub_groups +ℤ pos 1 in
      let asked = Call.update_sub_group_config device_id group_name name none (some order) in
      elim (Bool-cases (is_empty name)) [
        | inl blank ↦ inl (blank, ground arith)
        | inr named ↦ elim (Bool-cases (has_key (sub_key group_name name) c.sub_groups)) [
          | inl taken ↦ inr (inl (named, taken, ground arith))
          | inr free ↦ inr (
              inr (
                named,
                free,
                order,
                next_order group_name c.sub_groups,
                elim (Result-cases (settle asked (env.reply ((called asked, s) ∷ []) asked))) [
                  | inl (a, e) ↦ ground arith
                  | inr (m, e) ↦ ground arith
                ],
              ))
        ]
      ]

  -- A move of a group that does something makes the calls that number the new order, whatever they
  -- give.
  pub calls-move_group :
      (display : List String) (group_name : String) (direction : Direction) (order : List String)
      → move (λ g. g == group_name) direction display ≡ some order
      → calls (run (move_group device_id c display group_name direction) env s).log
        ≡ reverse (number_groups device_id c 0 order)
  unfolding move_group calls
  calls-move_group display group_name direction order moved =
      let batch = number_groups device_id c 0 order in
      elim (Result-cases (outcome env batch s [])) [
        | inl (a, e) ↦ ground (arith, calls-issue_only batch s)
        | inr (m, e) ↦ ground (arith, calls-issue_only batch s)
      ]
