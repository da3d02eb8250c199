-- ===== src/Settings/Context/Members.antt =====
-- `groupContext` against a description of it.
use telemetryhub.Common.{
  String, List, [], ◌∷◌, ◌++◌, map, Option, none, some, Bool, false, ◌≡◌, refl, arith, filter, ◌==◌,
  string_eq, ◌∙◌, Bool-cases, Option-cases, inl, inr, if◌then◌else◌, ap, sym,
}
use mathlib.Core.List.{append_assoc, append-nil}
use text.Mathlib.TextEquality.{eq_iff}
use telemetryhub.Js.Map.{get}
use telemetryhub.Js.Map.Laws.{get-put}
use telemetryhub.Common.Int.{ℤ, pos}
use telemetryhub.Js.Text.{trimmed, missing_or, or_else_text}
use telemetryhub.Api.Types.{FieldRename}
use telemetryhub.Settings.Context.{
  GroupInfo, GroupContext, new_group, push_field, add_group, add_rename, context_from,
  group_context,
}

-- Whether a configuration names a group, but for blanks around it.
abbrev pub names : String → FieldRename → Bool
names g r = elim (trimmed r.chart_group) [ none ↦ false | some h ↦ h == g ]

abbrev extended : Option GroupInfo → List FieldRename → Option GroupInfo
extended o [] = o
extended o (r ∷ rs) = extended (some (push_field (missing_or o (new_group r)) r.raw_field)) rs

get-add_rename :
    (g : String) (c : GroupContext) (r : FieldRename)
    → get g (add_rename c r).groups ≡ (
        if names g r
        then some (push_field (missing_or (get g c.groups) (new_group r)) r.raw_field)
        else get g c.groups)
unfolding add_rename add_group
get-add_rename g c r = elim (Option-cases (trimmed r.chart_group)) [
  | inl bare ↦ ground arith
  | inr (h, named) ↦ ground (
    arith,
    eq_iff h g,
    get-put h g (push_field (missing_or (get h c.groups) (new_group r)) r.raw_field) c.groups,
  )
]

get-context_from :
    (g : String) (c : GroupContext) (rs : List FieldRename)
    → get g (context_from c rs).groups ≡ extended (get g c.groups) (filter (names g) rs)
unfolding context_from filter
get-context_from g c [] = refl
get-context_from g c (r ∷ rs) = elim (Bool-cases (names g r)) [
  | inl here ↦ get-context_from g (add_rename c r) rs ∙ rw (get-add_rename g c r, here) refl
  | inr away ↦ get-context_from g (add_rename c r) rs ∙ rw (get-add_rename g c r, away) refl
]

extended_fields :
    (e : GroupInfo) (rs : List FieldRename)
    → extended (some e) rs ≡ some (record e { fields = e.fields ++ map (λ r. r.raw_field) rs })
extended_fields e [] = ap (λ fs. some (record e { fields = fs })) (sym (append-nil e.fields))
extended_fields e (r ∷ rs) =
    extended_fields (push_field e r.raw_field) rs
    ∙ rw (append_assoc e.fields (r.raw_field ∷ []) (map (λ r. r.raw_field) rs)) refl

-- What the configurations that name a group say of it: its description and order are those of the first one,
-- the empty text and 0 if it has none, and its fields those of all of them, in order.
abbrev pub described : List FieldRename → Option GroupInfo
described [] = none
described (r ∷ rs) = some (record {
  description = elim r.group_description [ none ↦ "" | some d ↦ d ];
  sort_order = elim r.group_sort_order [ none ↦ pos 0 | some n ↦ n ];
  fields = map (λ r. r.raw_field) (r ∷ rs);
})

described_or : (o : Option String) → or_else_text o "" ≡ (elim o [ none ↦ "" | some d ↦ d ])
unfolding or_else_text
described_or none = refl
described_or (some String.[]) = refl
described_or (some (String.◌∷◌ c s)) = refl

ordered_or : (o : Option ℤ) → missing_or o (pos 0) ≡ (elim o [ none ↦ pos 0 | some n ↦ n ])
ordered_or none = refl
ordered_or (some n) = refl

-- `groupContext` has under a name the description of the first configuration that names the group, or the empty
-- text, the order of the first one, or 0, and the fields of all of them, in order; and nothing if there is none.
pub group_context_lem :
    (g : String) (rs : List FieldRename)
    → get g (group_context rs).groups ≡ described (filter (names g) rs)
unfolding group_context get
group_context_lem g rs = get-context_from g _ rs ∙ by_members (filter (names g) rs)
  where
    spelled_out :
        (m : FieldRename) (fs : List String)
        → some (record (new_group m) { fields = fs })
          ≡ some (record {
            description = elim m.group_description [ none ↦ "" | some d ↦ d ];
            sort_order = elim m.group_sort_order [ none ↦ pos 0 | some n ↦ n ];
            fields = fs;
          })
    spelled_out m fs =
        ap (λ d. some (record (new_group m) { description = d; fields = fs }))
          (described_or m.group_description)
        ∙ ap
            (λ n. some (record {
              description = elim m.group_description [ none ↦ "" | some d ↦ d ];
              sort_order = n;
              fields = fs;
            }))
            (ordered_or m.group_sort_order)

    by_members : (ms : List FieldRename) → extended none ms ≡ described ms
    by_members [] = refl
    by_members (m ∷ ms) =
        extended_fields (push_field (new_group m) m.raw_field) ms
        ∙ spelled_out m (map (λ r. r.raw_field) (m ∷ ms))
