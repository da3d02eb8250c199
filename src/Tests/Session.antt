-- ===== src/Tests/Session.antt =====
-- Runs of Session and LocalStorage.
use mathlib.Core.Option.{none, some}
use telemetryhub.Common.{String, [], ◌∷◌, Bool, true, false, ◌≡◌, ◌≢◌, refl, ◌⊎◌, arith, string_eq}
use telemetryhub.Js.Map.{get, put}
use telemetryhub.Api.Calls.{Call, Answer}
use telemetryhub.Api.Replies.{ok, err, settle}
use telemetryhub.Handler.{run, events, called, pushed}
use telemetryhub.Session.Auth.{Auth, mount as first_state, checked, login}
use telemetryhub.Session.Auth.Reachable.{
  Reach, first, next, replies, user_has_token, rejected_after_login,
}
use telemetryhub.Session.Register.{Form, start, validate_password, handle_submit}
use telemetryhub.Session.Register.Password.{handle_submit_register}
use telemetryhub.LocalStorage.{Hook, mount, fire, set_value}
use telemetryhub.LocalStorage.Reachable as Reachable
use telemetryhub.LocalStorage.Reachable.{hear, Agrees, Reach-Agrees, overwritten}
use telemetryhub.LocalStorage.Debounce.{set_values, debounce_lem}
use telemetryhub.Tests.Data.{user, offline}

abbrev reloaded : Auth
reloaded = first_state (some "old")

shows_user : (checked (ok user) reloaded).user ≢ none
unfolding checked
shows_user e = ground arith

user_has_token_example : (checked (ok user) reloaded).token ≢ none
unfolding first_state
user_has_token_example =
    user_has_token (next (first (some "old")) (replies (ok user) refl)) shows_user

rejected_after_login_example :
    Reach false (checked (err "expired") (login "new" user reloaded))
    × ((checked (err "expired") (login "new" user reloaded)).user ≡ some user)
    × ((checked (err "expired") (login "new" user reloaded)).token ≡ none)
    × ((checked (err "expired") (login "new" user reloaded)).is_loading ≡ false)
unfolding first_state
rejected_after_login_example = rejected_after_login "new" user "expired" (first (some "old")) refl

abbrev filled : Form
filled = record start { email = "a@b"; password = "Passw0rd!"; confirm_password = "Passw0rd!" }

abbrev asked : Call
asked = Call.register filled.email filled.password filled.confirm_password

handle_submit_register_example :
    let w = run (handle_submit filled) offline filled in
    let answer = settle asked (
      (offline {S = Form}).reply
        ((called asked, record filled { error = ""; is_loading = true }) ∷ [])
        asked) in
    (w.state.is_loading ≡ false)
    × (((validate_password filled.password ≡ none)
          × (filled.password ≡ filled.confirm_password)
          × (((a : Answer asked) × (answer ≡ ok a)
                × (events w.log ≡ pushed "/login?registered=true" ∷ called asked ∷ []))
              ⊎ ((m : String) × (answer ≡ err m)
                  × (events w.log ≡ called asked ∷ [])
                  × (w.state.error ≡ m))))
        ⊎ ((m : String) × (validate_password filled.password ≡ some m)
            × (w.log ≡ [])
            × (w.state.error ≡ m))
        ⊎ ((validate_password filled.password ≡ none)
            × (filled.password ≢ filled.confirm_password)
            × (w.log ≡ [])
            × (w.state.error ≡ "Passwords do not match")))
handle_submit_register_example = handle_submit_register offline filled filled refl

-- A hook of texts, stored as they are.
abbrev fresh : Hook String
fresh = mount some [] "k" "initial"

abbrev takes_all : String → Bool
takes_all raw = true

abbrev same_text : String → String
same_text s = s

debounce_lem_example :
    let written = fire same_text takes_all (set_values ("a" ∷ "b" ∷ "c" ∷ []) fresh) in
    (written.store ≡ put fresh.key "c" fresh.store)
    × (written.write_timer ≡ none)
    × ((mount some written.store fresh.key "other").value ≡ "c")
debounce_lem_example =
    debounce_lem some same_text takes_all ("a" ∷ "b" ∷ []) "c" "other" fresh refl refl

-- A value was set and written; then another window stored one.
abbrev told : Hook String
told = hear some (some "b") (fire same_text takes_all (set_value "a" fresh))

told_reached : Reachable.Reach some same_text takes_all true told
unfolding set_value fire
told_reached =
    Reachable.hears (some "b") refl
      (Reachable.fires (Reachable.sets "a" (Reachable.first [] "k" "initial")))

Reach-Agrees_example :
    (told.write_timer ≡ some (told.key, told.value))
    ⊎ ((told.write_timer ≡ none) × Agrees some (get told.key told.store) told)
Reach-Agrees_example = Reach-Agrees some same_text takes_all (λ x. refl) (λ x. refl) told_reached

overwritten_example :
    let t = fire same_text takes_all (hear some (some "b") (set_value "a" fresh)) in
    Reachable.Reach some same_text takes_all false t
    × (t.value ≡ "b")
    × (get t.key t.store ≡ some "a")
    × (t.write_timer ≡ none)
overwritten_example =
    overwritten some same_text takes_all "a" "b" "b" (Reachable.first [] "k" "initial") refl refl
