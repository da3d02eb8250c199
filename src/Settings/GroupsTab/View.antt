-- ===== src/Settings/GroupsTab/View.antt =====
-- What `GroupsTab` renders, and what its controls do. `newSubGroupInputs` is an object of the language; a
-- group that has the name of a property of `Object.prototype` is left out.
use telemetryhub.Common.{
  ℕ, suc, String, List, [], ◌∷◌, ◌++◌, Option, none, some, Bool, true, false, length, leb, ◌==◌,
  string_eq, nat_eq, if◌then◌else◌,
}
use telemetryhub.Js.Map.{get}
use telemetryhub.Js.Text.{text, trim, is_empty, decimal}
use telemetryhub.Api.Types.{FieldRename}
use telemetryhub.Handler.{M, modify}
use telemetryhub.Reorder.{Direction, up, down, find_index}
use telemetryhub.Js.Map.{put}
use telemetryhub.Ui.{Widget, shows, button, input, change, blur, key_down, NoChild, each}
use telemetryhub.Settings.Context.{GroupContext, GroupInfo, Sibling, siblings}
use telemetryhub.Settings.GroupsTab.{
  Tab, display_groups, handle_create_group, move_group, move_sub_group, handle_add_sub_group,
  blur_description, blur_sub_description, handle_delete_group,
}

pub data Action : Type 0 where
  set_group_name : String → Action
  create : String → Action
  move_to : String → Direction → Action
  delete : String → Action
  describe : String → String → Action
  move_sub : String → String → Direction → Action
  describe_sub : String → Sibling → String → Action
  set_sub_group add_sub : String → String → Action

-- `xs.indexOf(x) <= 0` and `xs.indexOf(x) >= xs.length - 1`, with none for -1
abbrev pub at_start : Option ℕ → Bool
at_start none = true
at_start (some i) = leb i 0

abbrev pub at_end : Option ℕ → ℕ → Bool
at_end none n = leb n 0
at_end (some i) n = leb n (suc i)

abbrev pub sensors : ℕ → String
sensors n = text (decimal n ∷ " sensor" ∷ (if n == 1 then "" else "s") ∷ [])

abbrev count_of : Option GroupInfo → String
count_of none = "empty"
count_of (some e) = sensors (length e.fields)

abbrev description : Option GroupInfo → String
description none = ""
description (some e) = e.description

abbrev deletes? : Option String → String → Bool
deletes? none g = false
deletes? (some h) g = h == g

abbrev pub typed : Tab → String → String
typed s g = elim (get g s.new_sub_group_inputs) [ none ↦ "" | some t ↦ t ]

-- The rows of the sub-groups, of which the first has the index i among n.
unfoldable pub sub_rows : String → ℕ → ℕ → List Sibling → List (Widget Action NoChild)
sub_rows g n i [] = []
sub_rows g n i (sg ∷ ss) =
    button "Move subgroup up" (leb i 0) (move_sub g sg.name up)
    ∷ button "Move subgroup down" (leb n (suc i)) (move_sub g sg.name down)
    ∷ shows sg.name
    ∷ input "Description" sg.description (blur (describe_sub g sg) ∷ [])
    ∷ sub_rows g n (suc i) ss

-- The input for another sub-group.
abbrev pub add_row : Tab → String → List (Widget Action NoChild)
add_row s g =
    input "New subgroup name" (typed s g) (
      change (set_sub_group g)
      ∷ key_down (λ key. if key == "Enter" then some (add_sub g (typed s g)) else none)
      ∷ [])
    ∷ button "Add" (is_empty (trim (typed s g))) (add_sub g (typed s g))
    ∷ []

abbrev pub sub_part : String → List Sibling → List (Widget Action NoChild)
sub_part g [] = []
sub_part g (r ∷ rs) = shows "Subgroups" ∷ sub_rows g (length (r ∷ rs)) 0 (r ∷ rs)

unfoldable pub group_card : GroupContext → List String → Tab → String → List (Widget Action NoChild)
unfolding sub_rows
group_card c display s g =
    let data' = get g c.groups in
    shows g
      ∷ shows (count_of data')
      ∷ button "Move group up" (at_start (find_index (λ h. h == g) display)) (move_to g up)
      ∷ button "Move group down" (at_end (find_index (λ h. h == g) display) (length display))
          (move_to g down)
      ∷ button "Delete group" (deletes? s.is_deleting_group g) (delete g)
      ∷ shows "Group Description"
      ∷ input "Optional — shown above charts" (description data') (blur (describe g) ∷ [])
      ∷ sub_part g (siblings c g)
    ++ add_row s g

abbrev create_row : Tab → List (Widget Action NoChild)
create_row s =
    input "New group name" s.new_group_name (
      change set_group_name
      ∷ key_down (λ key. if key == "Enter" then some (create s.new_group_name) else none)
      ∷ [])
    ∷ button "Add" (is_empty (trim s.new_group_name)) (create s.new_group_name)
    ∷ []

-- The tab, for the groups that it displays.
unfoldable pub tab : GroupContext → List String → Tab → List (Widget Action NoChild)
unfolding each group_card
tab c [] s = shows "No groups configured. Assign sensors to groups in the Sensors tab." ∷ []
tab c (g ∷ gs) s =
    shows "Group Configuration"
      ∷ shows "Configure group descriptions and order. Changes apply to all sensors in the group."
      ∷ create_row s
    ++ each (group_card c (g ∷ gs) s) (g ∷ gs)

unfoldable pub view : GroupContext → List String → Tab → List (Widget Action NoChild)
unfolding tab display_groups
view c all_groups s = tab c (display_groups all_groups s.extra_groups) s

module _ (device_id : String) (c : GroupContext) (all_groups : List String)
    (renames : List FieldRename) where
  unfoldable pub perform : Tab → Action → M Tab (Unit {0})
  unfolding display_groups put
  perform seen (set_group_name t) = modify (λ s. record s { new_group_name = t })
  perform seen (create name) = handle_create_group all_groups seen name
  perform seen (move_to g d) =
      move_group device_id c (display_groups all_groups seen.extra_groups) g d
  perform seen (delete g) = handle_delete_group device_id c renames g
  perform seen (describe g val) = blur_description device_id c g val
  perform seen (move_sub g name d) = move_sub_group device_id c g name d
  perform seen (describe_sub g sg val) = blur_sub_description device_id c g sg val
  perform seen (set_sub_group g t) =
      modify (λ s. record s { new_sub_group_inputs = put g t s.new_sub_group_inputs })
  perform seen (add_sub g name) = handle_add_sub_group device_id c g name
