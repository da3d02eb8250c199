-- ===== src/Settings/GroupsTab/Controls.antt =====
-- What the groups tab offers: the buttons that move a group, and nothing when there is no group.
use telemetryhub.Common.{
  ℕ, zero, suc, String, List, [], ◌∷◌, ◌++◌, some, Bool, false, ◌≡◌, arith, ◌↔◌, inl, inr,
  Option-cases, filter, Any-append, ◌==◌, string_eq, length,
}
use telemetryhub.Api.Types.{FieldRename}
use telemetryhub.Handler.{Env, run}
use telemetryhub.Js.Sort.{sort}
use telemetryhub.Reorder.{Direction, up, down, move, target, find_index, swap}
use telemetryhub.Reorder.Laws.{find_index_lt}
use telemetryhub.Ui.{Offers}
use telemetryhub.Settings.Context.{GroupContext, Sibling, siblings}
use telemetryhub.Settings.GroupsTab.{Tab, start, display_groups}
use telemetryhub.Settings.GroupsTab.View.{
  Action, move_to, group_card, sub_rows, sub_part, add_row, at_start, at_end, tab, view, perform,
}

module _ (device_id : String) (c : GroupContext) (renames : List FieldRename) (env : Env Tab) where
  -- The states that the tab can reach by its controls, on a device whose fields have no group.
  pub data Reach : Tab → Type 0 where
    first : Reach start
    next :
        {s : Tab} (a : Action)
        → Reach s
        → Offers (view c [] s) a
        → Reach (run (perform device_id c [] renames s a) env s).state

  -- On a device whose fields have no group the tab never offers a control, so that no group can be
  -- created in it.
  pub no_groups_no_controls : {s : Tab} → Reach s → (a : Action) → ¬ (Offers (view c [] s) a)
  unfolding view tab display_groups sort filter
  no_groups_no_controls first a h = ground arith
  no_groups_no_controls (next b r o) a h = absurd (no_groups_no_controls r b o)

sub_rows-offer :
    (g : String) (n i : ℕ) (ss : List Sibling) (h : String) (d : Direction)
    → ¬ (Offers (sub_rows g n i ss) (move_to h d))
unfolding sub_rows
sub_rows-offer g n i [] h d o = o
sub_rows-offer g n i (s ∷ ss) h d o = ground (arith, sub_rows-offer g n (suc i) ss h d)

rest-offer :
    (s : Tab) (g : String) (rows : List Sibling) (h : String) (d : Direction)
    → ¬ (Offers (sub_part g rows ++ add_row s g) (move_to h d))
rest-offer s g [] h d o = ground arith
rest-offer s g (r ∷ rs) h d (inl o) = o
rest-offer s g (r ∷ rs) h d (inr o) =
    elim (Any-append _ (sub_rows g (length (r ∷ rs)) 0 (r ∷ rs)) (add_row s g) o) [
      | inl l ↦ sub_rows-offer g (length (r ∷ rs)) 0 (r ∷ rs) h d l
      | inr l ↦ ground arith
    ]

move_up_iff :
    (p : String → Bool) (xs : List String)
    → (at_start (find_index p xs) ≡ false) ↔ ((ys : List String) × (move p up xs ≡ some ys))
unfolding move target
move_up_iff p xs = elim (Option-cases (find_index p xs)) [
  | inl missing ↦ (λ h. ground arith, λ h. ground arith)
  | inr (zero, found) ↦ (λ h. ground arith, λ h. ground arith)
  | inr (suc i, found) ↦
      let lt = find_index_lt p xs (suc i) found in
      (λ h. (swap (suc i) i xs, ground arith), λ h. ground arith)
]

move_down_iff :
    (p : String → Bool) (xs : List String) (i : ℕ)
    → find_index p xs ≡ some i
    → (at_end (find_index p xs) (length xs) ≡ false)
      ↔ ((ys : List String) × (move p down xs ≡ some ys))
unfolding move target
move_down_iff p xs i found = (λ h. (swap i (suc i) xs, ground arith), λ h. ground arith)

-- On the card of a displayed group the button to move it in a direction is offered exactly if moving it
-- changes the list of the groups.
pub group_card_moves :
    (c : GroupContext) (display : List String) (s : Tab) (g : String) (i : ℕ) (d : Direction)
    → find_index (λ h. h == g) display ≡ some i
    → Offers (group_card c display s g) (move_to g d)
      ↔ ((reordered : List String) × (move (λ h. h == g) d display ≡ some reordered))
unfolding group_card
group_card_moves c display s g i up found = (
  λ o. ground (arith, move_up_iff (λ h. h == g) display, rest-offer s g (siblings c g) g up),
  λ m. ground (arith, move_up_iff (λ h. h == g) display),
)
group_card_moves c display s g i down found = (
  λ o.
      ground
        (arith, move_down_iff (λ h. h == g) display i found, rest-offer s g (siblings c g) g down),
  λ m. ground (arith, move_down_iff (λ h. h == g) display i found),
)
