-- ===== src/Settings/GroupsTab/Server/Order.antt =====
-- The order of the groups that the server holds after a move.
use mathlib.Core.List.{reverse, reverse-cons}
use telemetryhub.Common.{
  ℕ, suc, ◌+◌, String, List, [], ◌∷◌, ◌++◌, Option, none, some, true, false, ◌≡◌, refl, arith, All,
  filter, length, ◌==◌, string_eq, Bool-cases, inl, inr, ◌∙◌, ap,
}
use text.Mathlib.TextEquality.{eq_iff}
use telemetryhub.Common.Int.{ℤ, pos}
use telemetryhub.Js.Map.{includes, get}
use telemetryhub.Api.Types.{FieldRename}
use telemetryhub.Api.Calls.{Call}
use telemetryhub.Handler.{Env, run, calls}
use telemetryhub.Reorder.{Direction, move}
use telemetryhub.Settings.Context.{GroupContext}
use telemetryhub.Settings.GroupsTab.{Tab, description_of, number_groups, move_group}
use telemetryhub.Settings.GroupsTab.Requests.{calls-move_group}
use telemetryhub.Settings.GroupsTab.Server.{
  is_value, update_group_config, serve, serve_all, update_group_config_sets,
}

-- The configurations of a group.
abbrev of_group : String → List FieldRename → List FieldRename
of_group name = filter (λ r. is_value r.chart_group name)

pub serve_all-append :
    (cs ds : List Call) (rs : List FieldRename)
    → serve_all (cs ++ ds) rs ≡ serve_all cs (serve_all ds rs)
unfolding serve_all
serve_all-append [] ds rs = refl
serve_all-append (c ∷ cs) ds rs = ap (serve c) (serve_all-append cs ds rs)

-- The first of some calls is served first.
pub serve_all-reverse_cons :
    (c : Call) (cs : List Call) (rs : List FieldRename)
    → serve_all (reverse (c ∷ cs)) rs ≡ serve_all (reverse cs) (serve c rs)
unfolding serve_all
serve_all-reverse_cons c cs rs = rw (reverse-cons c cs) (serve_all-append (reverse cs) (c ∷ []) rs)

is_value_only :
    (o : Option String) (group name : String)
    → is_value o group ≡ true
    → (group == name) ≡ false
    → is_value o name ≡ false
is_value_only none group name h k = refl
is_value_only (some t) group name h k =
    ground (arith, eq_iff t group, eq_iff t name, eq_iff group name)

-- Configuring one group leaves the others alone.
update_group_config_other :
    (name group : String) (description : Option String) (order : Option ℤ) (rs : List FieldRename)
    → (group == name) ≡ false
    → of_group name (update_group_config group description order rs) ≡ of_group name rs
unfolding update_group_config filter
update_group_config_other name group description order [] h = refl
update_group_config_other name group description order (r ∷ rs) h =
    let others = update_group_config_other name group description order rs h in
    elim (Bool-cases (is_value r.chart_group group)) [
      | inl own ↦ rw (own, is_value_only r.chart_group group name own h) others
      | inr other ↦ elim (Bool-cases (is_value r.chart_group name)) [
        | inl hit ↦ rw (other, hit) (ap (◌∷◌ r) others)
        | inr miss ↦ rw (other, miss) others
      ]
    ]

orders_of :
    (d : Option String) (o : Option ℤ) (rs : List FieldRename)
    → All (λ r. (r.group_description ≡ d) × (r.group_sort_order ≡ o)) rs
    → All (λ r. r.group_sort_order ≡ o) rs
orders_of d o [] a = tt
orders_of d o (r ∷ rs) (p, a) = (p.1, orders_of d o rs a)

module _ (device_id : String) (c : GroupContext) where
  -- Numbering other groups leaves a group alone.
  number_groups_other :
      (name : String) (i : ℕ) (names : List String) (rs : List FieldRename)
      → includes names name ≡ false
      → of_group name (serve_all (reverse (number_groups device_id c i names)) rs)
        ≡ of_group name rs
  unfolding number_groups includes serve serve_all
  number_groups_other name i [] rs h = refl
  number_groups_other name i (n ∷ names) rs h =
      let asked =
        Call.update_group_config device_id n (description_of (get n c.groups)) (some (pos i)) in
      ap (of_group name) (serve_all-reverse_cons asked (number_groups device_id c (suc i) names) rs)
      ∙ number_groups_other name (suc i) names (serve asked rs) (ground arith)
      ∙ update_group_config_other name n (description_of (get n c.groups)) (some (pos i)) rs
          (ground arith)

  -- The number that a group gets is its place.
  number_groups_at :
      (i j : ℕ) (before after : List String) (name : String) (rs : List FieldRename)
      → j ≡ i + length before
      → includes after name ≡ false
      → All
          (λ r. r.group_sort_order ≡ some (pos j))
          (of_group name
            (serve_all (reverse (number_groups device_id c i (before ++ name ∷ after))) rs))
  unfolding number_groups serve
  number_groups_at i j [] after name rs e h =
      let here : j ≡ i = omega arith in
      let asked =
        Call.update_group_config device_id name (description_of (get name c.groups))
          (some (pos i)) in
      let rest = number_groups device_id c (suc i) after in
      let same : of_group name (serve_all (reverse (asked ∷ rest)) rs)
          ≡ of_group name (serve asked rs) =
        ap (of_group name) (serve_all-reverse_cons asked rest rs)
        ∙ number_groups_other name (suc i) after (serve asked rs) h in
      rw (same, here)
        (orders_of (description_of (get name c.groups)) (some (pos i))
          (of_group name (serve asked rs))
          (update_group_config_sets name (description_of (get name c.groups)) (some (pos i)) rs))
  number_groups_at i j (b ∷ before) after name rs e h =
      let asked =
        Call.update_group_config device_id b (description_of (get b c.groups)) (some (pos i)) in
      rw
        (serve_all-reverse_cons asked (number_groups device_id c (suc i) (before ++ name ∷ after))
          rs)
        (number_groups_at (suc i) j before after name (serve asked rs) (omega arith) h)

  -- After a move of a group a server that serves its calls in turn holds, as the order of every configuration of a group that the
  -- new list has and does not have again further on, the group's place in the new list.
  pub move_group_stores :
      (env : Env Tab) (s : Tab) (display : List String) (group_name : String)
      (direction : Direction) (before after : List String) (name : String) (rs : List FieldRename)
      → move (λ g. g == group_name) direction display ≡ some (before ++ name ∷ after)
      → includes after name ≡ false
      → All
          (λ r. r.group_sort_order ≡ some (pos (length before)))
          (filter
            (λ r. is_value r.chart_group name)
            (serve_all
              (calls (run (move_group device_id c display group_name direction) env s).log)
              rs))
  move_group_stores env s display group_name direction before after name rs moved once =
      rw
        (calls-move_group device_id c env s display group_name direction (before ++ name ∷ after)
          moved)
        (number_groups_at 0 (length before) before after name rs (omega arith) once)
