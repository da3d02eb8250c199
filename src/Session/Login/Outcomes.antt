-- ===== src/Session/Login/Outcomes.antt =====
-- How logging in ends, and when it can be tried.
use telemetryhub.Common.{String, [], ◌∷◌, true, false, ◌≡◌, arith, ◌⊎◌, inl, inr}
use telemetryhub.Api.Types.{Session}
use telemetryhub.Api.Calls.{Call}
use telemetryhub.Api.Replies.{Result, ok, err, settle, Result-cases}
use telemetryhub.Handler.{Env, Log, run, called, logged_in, pushed}
use telemetryhub.Ui.{Offers, when}
use telemetryhub.Session.Login.{Form, handle_submit}
use telemetryhub.Session.Login.View.{Action, sign_in, view, form_view, perform}

module _ (env : Env Form) (seen s : Form) where
  abbrev pub sending : Log Form
  sending =
      (called (Call.login seen.email seen.password), record s { error = ""; is_loading = true })
      ∷ []

  abbrev pub session? : Result Session
  session? =
      settle (Call.login seen.email seen.password)
        (env.reply sending (Call.login seen.email seen.password))

  -- Signing in makes one call, with the data of the form, while the form is loading. A success
  -- starts the session that the server gave and leads to the dashboard; a failure does neither and
  -- shows its message. However it ends the form is not loading.
  pub handle_submit_login :
      let w = run (handle_submit seen) env s in
      let now = env.meanwhile sending (record s { error = ""; is_loading = true }) in
      (w.state.is_loading ≡ false)
      × (((r : Session) × (session? ≡ ok r)
            × (w.log ≡ (pushed "/dashboard", now) ∷ (logged_in r.token r.user, now) ∷ sending))
          ⊎ ((m : String) × (session? ≡ err m) × (w.log ≡ sending) × (w.state.error ≡ m)))
  unfolding handle_submit
  handle_submit_login = elim (Result-cases session?) [
    | inl (r, e) ↦ (ground arith, inl (r, e, ground arith))
    | inr (m, e) ↦ (ground arith, inr (m, e, ground arith, ground arith))
  ]

-- While the form is loading, no control that it offers has an effect outside of the form or ends
-- the loading; else it offers to sign in.
pub login_controls :
    (s : Form)
    → (s.is_loading ≡ true
        → (a : Action) (env : Env Form) → Offers (view s) a
        → ((run (perform s a) env s).log ≡ [])
          × ((run (perform s a) env s).state.is_loading ≡ true))
      × (s.is_loading ≡ false → Offers (view s) sign_in)
unfolding view form_view when perform
login_controls s = (λ busy a env h. ground arith, λ idle. ground arith)
