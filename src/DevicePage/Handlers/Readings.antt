-- ===== src/DevicePage/Handlers/Readings.antt =====
-- What fetching readings asks for, and what it leaves.
use telemetryhub.Common.{
  String, List, [], ◌∷◌, true, false, ◌≡◌, arith, ◌⊎◌, inl, inr, ◌||◌, Bool-cases,
}
use telemetryhub.Common.Int.{ℤ, pos, ◌-ℤ◌}
use telemetryhub.Js.Text.{is_empty}
use telemetryhub.Api.Types.{ReadingData}
use telemetryhub.Api.Calls.{Call}
use telemetryhub.Api.Replies.{ok, err, settle, Result-cases}
use telemetryhub.Handler.{Env, Log, run, called}
use telemetryhub.DevicePage.State.{Page, selected_fields, range_ms, is_nil}
use telemetryhub.DevicePage.Handlers.{fetch_readings}

module _ (to_iso : ℤ → String) (env : Env Page) (seen s : Page) (device_id time_range : String)
    (now : ℤ) where
  abbrev pub asked_for : Call
  asked_for =
      Call.get_readings device_id (selected_fields seen) (to_iso (now -ℤ pos (range_ms time_range)))
        (to_iso now)

  -- Without a device or a selected field nothing is asked for and nothing changes. Otherwise one call
  -- asks for the selected fields from one range before now until now, and in the end the page shows
  -- what that call gave, or nothing if it failed, whatever other fetches left meanwhile.
  pub fetch_readings_lem :
      let w = run (fetch_readings to_iso seen device_id time_range now) env s in
      let log : Log Page = (called asked_for, s) ∷ [] in
      ((is_empty device_id || is_nil (selected_fields seen) ≡ true)
        × (w ≡ record { state = s; log = [] }))
      ⊎ ((is_empty device_id || is_nil (selected_fields seen) ≡ false)
          × (w.log ≡ log)
          × (((rs : List ReadingData) × (settle asked_for (env.reply log asked_for) ≡ ok rs)
                × (w.state.readings ≡ rs))
              ⊎ ((m : String) × (settle asked_for (env.reply log asked_for) ≡ err m)
                  × (w.state.readings ≡ []))))
  unfolding fetch_readings
  fetch_readings_lem = elim (Bool-cases (is_empty device_id || is_nil (selected_fields seen))) [
    | inl idle ↦ inl (idle, ground arith)
    | inr busy ↦
        elim (Result-cases (settle asked_for (env.reply ((called asked_for, s) ∷ []) asked_for))) [
          | inl (rs, e) ↦ inr (busy, ground arith, inl (rs, e, ground arith))
          | inr (m, e) ↦ inr (busy, ground arith, inr (m, e, ground arith))
        ]
  ]
