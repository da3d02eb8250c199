-- ===== src/Session/Register/Password.antt =====
-- Which passwords the registration accepts, and what it does then.
use telemetryhub.Common.{
  String, [], ◌∷◌, none, some, true, false, ◌≡◌, ◌≢◌, ◌≤◌, arith, ◌==◌, string_eq, Option-cases,
  Bool-cases, inl, inr, ◌⊎◌, ◌↔◌,
}
use text.Mathlib.TextEquality.{eq_iff}
use telemetryhub.Js.Text.{size, some_char}
use telemetryhub.Api.Calls.{Call, Answer}
use telemetryhub.Api.Replies.{ok, err, settle, Result-cases}
use telemetryhub.Handler.{Env, run, events, called, pushed}
use telemetryhub.Session.Register.{
  Form, validate_password, handle_submit, is_upper, is_digit, is_symbol,
}

-- A password is accepted exactly if it has at least 8 units of UTF-16, a capital of A to Z, a
-- digit and a character that is neither letter nor digit.
pub validate_password_lem :
    (pwd : String)
    → (validate_password pwd ≡ none) ↔ (
        (8 ≤ size pwd)
        × (some_char is_upper pwd ≡ true)
        × (some_char is_digit pwd ≡ true)
        × (some_char is_symbol pwd ≡ true))
unfolding validate_password
validate_password_lem pwd = (λ h. ground arith, λ h. ground arith)

module _ (env : Env Form) (s : Form) where
  -- Submitting a form that is not loading calls the server exactly if the password is accepted
  -- and was typed twice the same, with the data of the form; then either the server accepts them and the user is
  -- sent to the login page, or it does not, and its error is shown and nobody is sent anywhere. Else there is no effect but an error shown: what is
  -- wrong with the password, or that the two differ. Either way the form is not loading in the
  -- end.
  pub handle_submit_register :
      (seen : Form)
      → s.is_loading ≡ false
      → let w = run (handle_submit seen) env s in
        let c = Call.register seen.email seen.password seen.confirm_password in
        let answer =
          settle c (env.reply ((called c, record s { error = ""; is_loading = true }) ∷ []) c) in
        (w.state.is_loading ≡ false)
        × (((validate_password seen.password ≡ none)
              × (seen.password ≡ seen.confirm_password)
              × (((a : Answer c) × (answer ≡ ok a)
                    × (events w.log ≡ pushed "/login?registered=true" ∷ called c ∷ []))
                  ⊎ ((m : String) × (answer ≡ err m)
                      × (events w.log ≡ called c ∷ [])
                      × (w.state.error ≡ m))))
            ⊎ ((m : String) × (validate_password seen.password ≡ some m)
                × (w.log ≡ [])
                × (w.state.error ≡ m))
            ⊎ ((validate_password seen.password ≡ none)
                × (seen.password ≢ seen.confirm_password)
                × (w.log ≡ [])
                × (w.state.error ≡ "Passwords do not match")))
  unfolding handle_submit events
  handle_submit_register seen h = elim (Option-cases (validate_password seen.password)) [
    | inr (m, bad) ↦ (ground arith, inr (inl (m, bad, ground arith, ground arith)))
    | inl good ↦ elim (Bool-cases (seen.password == seen.confirm_password)) [
      | inr differ ↦ (
        ground arith,
        inr (
            inr (
              good,
              ground (arith, eq_iff seen.password seen.confirm_password),
              ground arith,
              ground arith,
            )),
      )
      | inl same ↦
          let c = Call.register seen.email seen.password seen.confirm_password in
          let sent : Form = record s { error = ""; is_loading = true } in
          let again : seen.password ≡ seen.confirm_password =
            ground (arith, eq_iff seen.password seen.confirm_password) in
          elim (Result-cases (settle c (env.reply ((called c, sent) ∷ []) c))) [
            | inl (a, e) ↦ (ground arith, inl (good, again, inl (a, e, ground arith)))
            | inr (m, e) ↦ (ground arith, inl (good, again, inr (m, e, ground arith, ground arith)))
          ]
    ]
  ]
