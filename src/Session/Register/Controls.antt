-- ===== src/Session/Register/Controls.antt =====
-- What the registration form offers while it is loading and while it is not.
use telemetryhub.Common.{[], true, false, ◌≡◌, arith, ◌≢◌, refl}
use telemetryhub.Handler.{Env, run}
use telemetryhub.Ui.{Offers, when}
use telemetryhub.Session.Register.{Form}
use telemetryhub.Session.Register.View.{
  Action, create_account, set_email, set_password, set_confirm_password, focus_on, focus_off,
  toggle_password, toggle_confirm_password, view, form_view, perform,
}

other_controls :
    (s : Form) (a : Action) (env : Env Form)
    → a ≢ create_account
    → (run (perform s a) env s).log ≡ []
unfolding perform
other_controls s create_account env h = absurd (h refl)
other_controls s (set_email t) env h = refl
other_controls s (set_password t) env h = refl
other_controls s (set_confirm_password t) env h = refl
other_controls s (focus_on t) env h = refl
other_controls s focus_off env h = refl
other_controls s toggle_password env h = refl
other_controls s toggle_confirm_password env h = refl

-- While the form is loading, no control that it offers has an effect outside of the form or ends
-- the loading. Else it offers to register, and no other control has an effect.
pub register_controls :
    (s : Form)
    → (s.is_loading ≡ true
        → (a : Action) (env : Env Form) → Offers (view s) a
        → ((run (perform s a) env s).log ≡ [])
          × ((run (perform s a) env s).state.is_loading ≡ true))
      × (s.is_loading ≡ false → Offers (view s) create_account)
      × ((a : Action) (env : Env Form) → a ≢ create_account → ((run (perform s a) env s).log ≡ []))
unfolding view form_view when perform
register_controls s =
    (λ busy a env h. ground arith, λ idle. ground arith, λ a env h. other_controls s a env h)
