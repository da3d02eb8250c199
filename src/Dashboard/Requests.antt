-- ===== src/Dashboard/Requests.antt =====
-- What the dashboard's handlers ask of the server, and the state that they leave.
use telemetryhub.Common.{
  ℕ, String, List, [], ◌∷◌, ◌++◌, map, true, false, ◌≡◌, ◌==◌, nat_eq, string_eq, arith,
  Option-cases, inl, inr, ◌⊎◌,
}
use telemetryhub.Js.Sort.{sort}
use telemetryhub.Api.Types.{Device, DeviceGroup}
use telemetryhub.Api.Calls.{Call}
use telemetryhub.Api.Replies.{Result, ok, err, settle, both, Result-cases}
use telemetryhub.Handler.{Env, Log, run, calls, called, asked}
use telemetryhub.Reorder.{Direction, move}
use telemetryhub.Reorder.Laws.{Exchange, move_exchanges}
use telemetryhub.Dashboard.{Page, by_sort_order}
use telemetryhub.Dashboard.Handlers.{load_data, handle_move_group, delete_question}

module _ (env : Env Page) (s : Page) where
  -- The log when both lists have been asked for.
  abbrev pub log_devices : Log Page
  log_devices = (called Call.get_devices, s) ∷ []

  abbrev pub log_groups : Log Page
  log_groups = (called Call.get_device_groups, s) ∷ log_devices

  abbrev pub loaded : Result (List Device × List DeviceGroup)
  loaded =
      both (settle Call.get_devices (env.reply log_devices Call.get_devices))
        (settle Call.get_device_groups (env.reply log_groups Call.get_device_groups))

  -- Loading ends with the page no longer loading, and with both lists of the server or with neither.
  pub load_data_lem :
      let w = run (load_data true) env s in
      (w.state.is_loading ≡ false)
      × (((d : List Device) × (g : List DeviceGroup) × (loaded ≡ ok (d, g))
            × (w.state.devices ≡ d)
            × (w.state.groups ≡ g))
          ⊎ ((m : String) × (loaded ≡ err m) × (w.state.devices ≡ []) × (w.state.groups ≡ [])))
  unfolding load_data
  load_data_lem = elim (Result-cases loaded) [
    | inl ((d, g), e) ↦ (ground arith, inl (d, g, e, ground arith, ground arith))
    | inr (m, e) ↦ (ground arith, inr (m, e, ground arith, ground arith))
  ]

  module _ (seen : Page) where
    -- A move of a group either changes nothing and asks for nothing, or its first request is to store
    -- the identifiers of the sorted groups with that group and a neighbour exchanged.
    pub handle_move_group_lem :
        (id : ℕ) (direction : Direction)
        → let w = run (handle_move_group seen id direction) env s in
          ((w.state ≡ s) × (w.log ≡ []))
          ⊎ ((order : List DeviceGroup) × (later : List Call) × Exchange
                (λ g. g.id == id)
                direction
                (sort by_sort_order seen.groups)
                order
              × (calls w.log ≡ later ++ Call.reorder_device_groups (map (λ g. g.id) order) ∷ []))
    unfolding handle_move_group calls
    handle_move_group_lem id direction =
        elim (Option-cases (move (λ g. g.id == id) direction (sort by_sort_order seen.groups))) [
          | inl stays ↦ inl (ground arith, ground arith)
          | inr (order, moved) ↦
              let c = Call.reorder_device_groups (map (λ g. g.id) order) in
              let exchange =
                move_exchanges (λ g. g.id == id) direction (sort by_sort_order seen.groups) order
                  moved in
              elim (Result-cases (settle c (env.reply ((called c, s) ∷ []) c))) [
                | inl (a, e) ↦
                    inr (
                      order,
                      Call.get_device_groups ∷ Call.get_devices ∷ [],
                      exchange,
                      ground arith,
                    )
                | inr (m, e) ↦ inr (order, [], exchange, ground arith)
              ]
        ]

    abbrev pub asking : String → Log Page
    asking id = (asked (delete_question id), s) ∷ []

    abbrev pub deleting : String → Log Page
    deleting id = (called (Call.delete_device id), s) ∷ asking id
