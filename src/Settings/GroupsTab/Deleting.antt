-- ===== src/Settings/GroupsTab/Deleting.antt =====
-- What deleting a group does.
use telemetryhub.Common.{
  String, List, [], ◌∷◌, none, some, true, false, ◌≡◌, arith, Bool-cases, inl, inr, ◌⊎◌, string_eq,
}
use telemetryhub.Common.Int.{ℤ}
use telemetryhub.Api.Types.{FieldRename}
use telemetryhub.Api.Calls.{Call}
use telemetryhub.Api.Replies.{Result, ok, err, Result-cases}
use telemetryhub.Handler.{Env, Log, run, asked, alerted, changed_renames, events, issue, outcome}
use telemetryhub.Js.Map.{get, remove}
use telemetryhub.Ui.{Offers}
use telemetryhub.Settings.Context.{GroupContext}
use telemetryhub.Settings.GroupsTab.{Tab, handle_delete_group, ungroup, delete_question}
use telemetryhub.Settings.GroupsTab.View.{delete, group_card}

module _ (device_id : String) (c : GroupContext) (renames : List FieldRename) (env : Env Tab)
    (s : Tab) (g : String) where
  -- The button to delete a group of which no field is, which was only created in the tab, is offered
  -- while no deletion is awaited, and does nothing.
  pub delete_empty_group :
      (display : List String)
      → get g c.groups ≡ none
      → s.is_deleting_group ≡ none
      → Offers (group_card c display s g) (delete g)
        × (run (handle_delete_group device_id c renames g) env s ≡ record { state = s; log = [] })
  unfolding group_card handle_delete_group
  delete_empty_group display missing idle = (ground arith, ground arith)

  module _ (description : String) (order : ℤ) (f : String) (fs : List String) where
    -- The logs when the user is asked, and when the calls are made.
    abbrev pub asking : Log Tab
    asking = (asked (delete_question g (f ∷ fs)), s) ∷ []

    abbrev pub batch : List Call
    batch = ungroup device_id c renames (f ∷ fs)

    abbrev pub deleting : Tab
    deleting = record s { is_deleting_group = some g }

    abbrev pub all_done : Result (Unit {0})
    all_done = outcome env batch deleting asking

    -- Deleting a group with fields does nothing unless the user agrees. Then it makes one call for each
    -- field of the group, in order. If all of them
    -- succeed, the configurations are fetched again and the group is gone from those created in the
    -- tab, else the user is told. In the end no deletion is awaited.
    pub handle_delete_group_lem :
        get g c.groups
          ≡ some (record { description = description; sort_order = order; fields = f ∷ fs })
        → let w = run (handle_delete_group device_id c renames g) env s in
          let made = issue batch deleting asking in
          ((env.consent asking ≡ false) × (w ≡ record { state = s; log = asking }))
          ⊎ ((env.consent asking ≡ true)
              × (w.state.is_deleting_group ≡ none)
              × (((all_done ≡ ok tt)
                    × (events w.log ≡ changed_renames ∷ events made)
                    × (w.state.extra_groups ≡ remove g (env.meanwhile made deleting).extra_groups))
                  ⊎ ((m : String) × (all_done ≡ err m)
                      × (events w.log ≡ alerted "Failed to delete group" ∷ events made))))
    unfolding handle_delete_group events
    handle_delete_group_lem found = elim (Bool-cases (env.consent asking)) [
      | inr refused ↦ inl (refused, ground arith)
      | inl agreed ↦ elim (Result-cases all_done) [
        | inl (a, e) ↦ inr (agreed, ground arith, inl (ground arith, ground arith, ground arith))
        | inr (m, e) ↦ inr (agreed, ground arith, inr (m, e, ground arith))
      ]
    ]
