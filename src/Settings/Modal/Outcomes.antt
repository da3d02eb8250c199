-- ===== src/Settings/Modal/Outcomes.antt =====
-- How saving and deleting the device end.
use telemetryhub.Common.{String, [], ◌∷◌, true, false, ◌≡◌, arith, ◌⊎◌, inl, inr, none, some}
use telemetryhub.Api.Types.{Device}
use telemetryhub.Api.Calls.{Call}
use telemetryhub.Api.Replies.{Result, ok, err, settle, Result-cases}
use telemetryhub.Handler.{Env, Log, run, called, alerted, updated_device}
use telemetryhub.Settings.Modal.{Modal, handle_save_device}

module _ (device : Device) (device_id : String) (env : Env Modal) (seen s : Modal) where
  abbrev pub saving : Log Modal
  saving =
      (
        called (Call.update_device device_id (some seen.device_name) none),
        record s { is_saving_device = true },
      )
      ∷ []

  abbrev pub saved? : Result (Unit {0})
  saved? =
      settle (Call.update_device device_id (some seen.device_name) none)
        (env.reply saving (Call.update_device device_id (some seen.device_name) none))

  -- Saving makes one call, while the button is disabled, and tells the parent of the new name if it
  -- succeeds or the user if it fails; however it ends the button is enabled again.
  pub handle_save_device_lem :
      let w = run (handle_save_device device device_id seen) env s in
      (w.state.is_saving_device ≡ false)
      × (((saved? ≡ ok tt)
            × (w.log
                ≡ (
                  updated_device (record device { name = seen.device_name }),
                  env.meanwhile saving (record s { is_saving_device = true }),
                )
                  ∷ saving))
          ⊎ ((m : String) × (saved? ≡ err m)
              × (w.log
                  ≡ (
                    alerted "Failed to update device name",
                    env.meanwhile saving (record s { is_saving_device = true }),
                  )
                    ∷ saving)))
  unfolding handle_save_device
  handle_save_device_lem = elim (Result-cases saved?) [
    | inl (a, e) ↦ (ground arith, inl (ground arith, ground arith))
    | inr (m, e) ↦ (ground arith, inr (m, e, ground arith))
  ]
