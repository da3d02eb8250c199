-- ===== src/Tests/Groups.antt =====
-- Runs of Settings.GroupsTab: the context and the deletion of a group.
use telemetryhub.Common.{List, [], ◌∷◌, some, true, ◌≡◌, string_eq, filter}
use telemetryhub.Js.Map.{get}
use telemetryhub.Api.Types.{FieldRename}
use telemetryhub.Api.Calls.{Call, Answer}
use telemetryhub.Api.Replies.{Fetched, rejected}
use telemetryhub.Api.Requests.Served.{arrives}
use telemetryhub.Handler.{Env}
use telemetryhub.Settings.Context.{group_context}
use telemetryhub.Settings.Context.Members.{names, described, group_context_lem}
use telemetryhub.Settings.GroupsTab.{Tab}
use telemetryhub.Settings.GroupsTab.Server.{update_rename_reply}
use telemetryhub.Tests.Data.{rename}

abbrev renames : List FieldRename
renames =
    rename "a" (some " g ") (some "")
    ∷ rename "b" (some "h") (some "")
    ∷ rename "c" (some "g") (some "")
    ∷ []

group_context_lem_example :
    get "g" (group_context renames).groups ≡ described (filter (names "g") renames)
group_context_lem_example = group_context_lem "g" renames

abbrev in_g : List FieldRename
in_g = rename "c" (some "g") (some "") ∷ []

-- A server that stores these configurations, and answers no other call.
abbrev stored_answers : (c : Call) → Fetched (Answer c)
stored_answers (Call.update_rename device field name unit group sub) =
    arrives (update_rename_reply "null value in column sub_group" field sub renames)
stored_answers c = rejected "offline"

abbrev stored : Env Tab
stored = record { reply = λ log c. stored_answers c; meanwhile = λ log s. s; consent = λ log. true }
