-- ===== src/Backend/Renames/Saved.antt =====
-- What saving the card of a field stores.
use telemetryhub.Common.{String, List, [], ◌∷◌, Option, some, string_eq, ◌≡◌}
use telemetryhub.Api.Types.{FieldRename}
use telemetryhub.Api.Calls.{Call}
use telemetryhub.Settings.Card.{Card}
use telemetryhub.Settings.GroupsTab.Server.{update_rename}
use telemetryhub.Backend.Renames.{create_rename}

-- What the server does with the calls of a handler, the newest first, that save a configuration.
unfoldable pub save_all : List Call → List FieldRename → List FieldRename
unfolding create_rename update_rename
save_all [] rs = rs
save_all (Call.create_rename device field name unit group sub ∷ cs) rs =
    create_rename device field name unit group sub (save_all cs rs)
save_all (Call.update_rename device field name unit group sub ∷ cs) rs =
    update_rename field name unit group sub (save_all cs rs)
save_all (c ∷ cs) rs = save_all cs rs

-- A configuration has what a card shows.
abbrev pub Shows : Card → Option FieldRename → Type 0
Shows card found =
    (r : FieldRename) × (found ≡ some r)
    × (r.display_name ≡ some card.display_name)
    × (r.unit ≡ some card.unit)
    × (r.chart_group ≡ some card.chart_group)
    × (r.sub_group ≡ some card.sub_group)

module _ (field : String) (card : Card) where
  abbrev updated : List FieldRename → List FieldRename
  updated =
      update_rename field (some card.display_name) (some card.unit) (some card.chart_group)
        (some card.sub_group)
