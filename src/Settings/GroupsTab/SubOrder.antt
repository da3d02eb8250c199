-- ===== src/Settings/GroupsTab/SubOrder.antt =====
-- What moving a sub-group asks of the server.
use mathlib.Core.List.{reverse}
use telemetryhub.Common.{
  String, List, [], some, ◌≡◌, ◌==◌, string_eq, Bool, arith, Option-cases, inl, inr, ◌⊎◌,
}
use telemetryhub.Api.Replies.{Result-cases}
use telemetryhub.Handler.{Env, run, calls, outcome}
use telemetryhub.Handler.Laws.{calls-issue_only}
use telemetryhub.Reorder.{Direction, move}
use telemetryhub.Reorder.Laws.{Exchange, move_exchanges}
use telemetryhub.Settings.Context.{GroupContext, Sibling, siblings, sub_key}
use telemetryhub.Settings.GroupsTab.{Tab, number_sub_groups, move_sub_group}

module _ (device_id : String) (c : GroupContext) (env : Env Tab) (s : Tab) (g name : String) where
  abbrev pub is_moved : Sibling → Bool
  is_moved x = x.key == sub_key g name

  calls-move_sub_group :
      (direction : Direction) (order : List Sibling)
      → move is_moved direction (siblings c g) ≡ some order
      → calls (run (move_sub_group device_id c g name direction) env s).log
        ≡ reverse (number_sub_groups device_id c g 0 order)
  unfolding move_sub_group calls
  calls-move_sub_group direction order moved =
      let batch = number_sub_groups device_id c g 0 order in
      elim (Result-cases (outcome env batch s [])) [
        | inl (a, e) ↦ ground (arith, calls-issue_only batch s)
        | inr (m, e) ↦ ground (arith, calls-issue_only batch s)
      ]

  -- A move of a sub-group makes no call, or it exchanges the sub-group with a neighbour among those of
  -- the group and makes one call for each of them, that number them from 0 in their new order.
  pub move_sub_group_lem :
      (direction : Direction)
      → let w = run (move_sub_group device_id c g name direction) env s in
        ((w.log ≡ []) × (w.state ≡ s))
        ⊎ ((order : List Sibling) × Exchange is_moved direction (siblings c g) order
            × (calls w.log ≡ reverse (number_sub_groups device_id c g 0 order)))
  unfolding move_sub_group
  move_sub_group_lem direction = elim (Option-cases (move is_moved direction (siblings c g))) [
    | inl stays ↦ inl (ground arith, ground arith)
    | inr (order, moved) ↦ inr (
      order,
      move_exchanges is_moved direction (siblings c g) order moved,
      calls-move_sub_group direction order moved,
    )
  ]
