-- ===== src/DevicePage/Handlers/Viewer.antt =====
-- The device page of a user who is no administrator.
use telemetryhub.Common.{
  String, List, [], ◌∷◌, ◌++◌, Option, some, string_eq, true, false, ◌≡◌, ◌≢◌, refl, arith, ap, ◌∙◌,
  sym,
}
use mathlib.Core.List.{append_assoc, append-nil}
use telemetryhub.Js.Map.{get}
use telemetryhub.Js.Sort.{Sign, sort}
use telemetryhub.Js.Text.{is_empty}
use telemetryhub.Api.Types.{FieldRename}
use telemetryhub.Api.Calls.{Call}
use telemetryhub.Api.Replies.{refused, readable, settle, failure, err}
use telemetryhub.Api.Requests.Served.{served, arrives, endpoint}
use telemetryhub.Backend.Access.{Claims, Reply}
use telemetryhub.Backend.Routes.{route}
use telemetryhub.Backend.Access.Laws.{guarded_other}
use telemetryhub.Handler.{Env, Log, run, called}
use telemetryhub.DevicePage.State.{Page, selected_fields}
use telemetryhub.DevicePage.ChartGroups.{
  Split, no_split, add_to, split_from, maps_from, chart_groups,
}
use telemetryhub.DevicePage.Handlers.{fetch_renames}

-- Without configurations no field is in a group.
split_from-nothing :
    (p : Split) (fs : List String)
    → split_from (λ f. get f []) p fs ≡ record p { others = p.others ++ fs }
unfolding split_from add_to get
split_from-nothing p [] = ap (λ r. record p { others = r }) (sym (append-nil p.others))
split_from-nothing p (f ∷ fs) =
    split_from-nothing (record p { others = p.others ++ f ∷ [] }) fs
    ∙ ap (λ r. record p { others = r }) (append_assoc p.others (f ∷ []) fs)

chart_groups-nothing :
    (locale_compare : String → String → Sign) (selected : List String)
    → chart_groups locale_compare true selected [] ≡ record { groups = []; ungrouped = selected }
unfolding chart_groups maps_from sort
chart_groups-nothing locale_compare selected = rw (split_from-nothing no_split selected) refl

-- The server refuses the configurations to whoever is no administrator.
served-get_renames :
    (parse_token : String → Option Claims) (token device_id : String) (c : Claims)
    (next : Option Claims → Reply (List FieldRename))
    → token ≢ ""
    → parse_token token ≡ some c
    → c.role ≢ "admin"
    → served parse_token (some token) (Call.get_renames device_id) next
      ≡ refused (readable (some "Insufficient permissions"))
unfolding served route endpoint
served-get_renames parse_token token device_id c next given valid other =
    ap arrives (guarded_other parse_token next token c given valid other).0

module _ (parse_token : String → Option Claims) (token device_id : String) (c : Claims)
    (env : Env Page) (p : Page) where
  -- If the server answers, with a valid token of someone who is no administrator, then the device page
  -- of that user keeps no configuration of a field: once the stored selection is read it shows no group, but
  -- each selected field apart, whatever the configurations are.
  pub viewer_sees_no_group :
      (next : Option Claims → Reply (List FieldRename))
      → ((log : Log Page)
          → env.reply log (Call.get_renames device_id)
            ≡ served parse_token (some token) (Call.get_renames device_id) next)
      → token ≢ ""
      → parse_token token ≡ some c
      → c.role ≢ "admin"
      → is_empty device_id ≡ false
      → let s = (run (fetch_renames true device_id) env p).state in
        (s.renames ≡ [])
        × ((locale_compare : String → String → Sign)
            → chart_groups locale_compare true (selected_fields s) s.renames
              ≡ record { groups = []; ungrouped = selected_fields s })
  unfolding fetch_renames settle failure
  viewer_sees_no_group next answers given valid other filled =
      let refused' =
        answers ((called (Call.get_renames device_id), p) ∷ [])
        ∙ served-get_renames parse_token token device_id c next given valid other in
      let e : settle (Call.get_renames device_id)
            (env.reply ((called (Call.get_renames device_id), p) ∷ []) (Call.get_renames device_id))
          ≡ err "Failed to fetch renames" =
        rw refused' refl in
      let none_left : (run (fetch_renames true device_id) env p).state.renames ≡ [] =
        ground (arith, e, filled) in
      (none_left, λ locale_compare. rw none_left (chart_groups-nothing locale_compare _))
