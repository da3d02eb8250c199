-- ===== src/DevicePage/Handlers.antt =====
-- What the device page fetches. `to_iso` writes a time in milliseconds as `toISOString` does.
pub mod Readings
pub mod Viewer
use telemetryhub.Common.{
  ℕ, String, List, [], ◌∷◌, Option, none, some, Bool, true, false, not, ◌&&◌, ◌||◌, if◌then◌else◌,
}
use telemetryhub.Common.Int.{ℤ, pos, ◌-ℤ◌}
use telemetryhub.Js.Text.{is_empty}
use telemetryhub.Api.Types.{Device}
use telemetryhub.Api.Calls.{Call}
use telemetryhub.Handler.{
  M, pure, ◌>>=◌, ◌>>◌, modify, emit, call, try_catch, finally, only_if, pushed,
}
use telemetryhub.DevicePage.State.{Page, selected_fields, range_ms, is_nil}

unfoldable pub guard_user : Bool → Bool → M Page (Unit {0})
guard_user auth_loading has_user =
    only_if (not auth_loading) (only_if (not has_user) (emit (pushed "/login")))

module _ (has_user : Bool) (device_id : String) where
  unfoldable pub load_device : M Page (Unit {0})
  load_device = only_if (has_user && not (is_empty device_id)) (
      finally
        (try_catch
          (do d ← call (Call.get_device device_id); modify (λ s. record s { device = some d }))
          (λ e. modify (λ s. record s { device = none })))
        (modify (λ s. record s { device_loading = false })))

  unfoldable pub fetch_fields : M Page (Unit {0})
  fetch_fields = only_if (has_user && not (is_empty device_id)) (
      finally
        (try_catch
          (do f ← call (Call.get_device_fields device_id); modify (λ s. record s { fields = f }))
          (λ e. modify (λ s. record s { fields = [] })))
        (modify (λ s. record s { is_loading = false })))

  -- The effect that stands beside that of `fetchFields` and does the same.
  unfoldable pub load_fields : M Page (Unit {0})
  load_fields = only_if (has_user && not (is_empty device_id)) (
      finally
        (try_catch
          (do f ← call (Call.get_device_fields device_id); modify (λ s. record s { fields = f }))
          (λ e. modify (λ s. record s { fields = [] })))
        (modify (λ s. record s { is_loading = false })))

  -- The same for the configurations.
  unfoldable pub load_renames : M Page (Unit {0})
  load_renames = only_if (has_user && not (is_empty device_id)) (
      try_catch (do r ← call (Call.get_renames device_id); modify (λ s. record s { renames = r }))
        (λ e. modify (λ s. record s { renames = [] })))

  unfoldable pub fetch_renames : M Page (Unit {0})
  fetch_renames = only_if (has_user && not (is_empty device_id)) (
      try_catch (do r ← call (Call.get_renames device_id); modify (λ s. record s { renames = r }))
        (λ e. modify (λ s. record s { renames = [] })))

-- `seen` is the page when the handler was made, `now` the time of the call.
unfoldable pub fetch_readings : (ℤ → String) → Page → String → String → ℤ → M Page (Unit {0})
fetch_readings to_iso seen device_id time_range now =
    let selected = selected_fields seen in
    let from = now -ℤ pos (range_ms time_range) in
    only_if (not (is_empty device_id || is_nil selected)) (
      try_catch
        (do
          data' ← call (Call.get_readings device_id selected (to_iso from) (to_iso now))
          modify (λ s. record s { readings = data' }))
        (λ e. modify (λ s. record s { readings = [] })))

unfoldable pub handle_device_update : Device → Page → Page
handle_device_update updated p = record p { device = some updated }
