-- ===== src/Session/Auth/Reachable.antt =====
-- The states of the session that can be reached, one step at a time.
use telemetryhub.Common.{String, Option, none, some, Bool, true, false, ◌&&◌, ◌≡◌, refl, arith, ◌≢◌}
use telemetryhub.Api.Types.{User}
use telemetryhub.Api.Replies.{Result, ok, err}
use telemetryhub.Session.Auth.{Auth, mount, checked, login, logout}

-- Another window, which has the same storage, stores a token or removes it.
abbrev pub other_window : Option String → Auth → Auth
other_window stored s = record s { token = stored }

-- The reply can come only while it is awaited. The user can log in and out at any time, or, if
-- patient, only when no reply is awaited; and then no other window changes the storage.
pub data Step (patient : Bool) : Auth → Auth → Type 0 where
  replies : {s : Auth} (r : Result User) → s.checking ≡ true → Step patient s (checked r s)
  logs_in :
      {s : Auth} (t : String) (u : User)
      → (patient && s.checking) ≡ false
      → Step patient s (login t u s)
  logs_out : {s : Auth} → (patient && s.checking) ≡ false → Step patient s (logout s)
  elsewhere :
      {s : Auth} (stored : Option String) → patient ≡ false → Step patient s (other_window stored s)

pub data Reach (patient : Bool) : Auth → Type 0 where
  first : (stored : Option String) → Reach patient (mount stored)
  next : {s t : Auth} → Reach patient s → Step patient s t → Reach patient t

-- In every state that can be reached the session is loading exactly while getMe is awaited.
pub loading_while_checking : {s : Auth} → Reach false s → s.is_loading ≡ s.checking
unfolding mount checked login logout
loading_while_checking (first none) = refl
loading_while_checking (first (some t)) = ground arith
loading_while_checking (next r (replies (ok u) c)) = refl
loading_while_checking (next r (replies (err m) c)) = refl
loading_while_checking (next r (logs_in t u c)) = loading_while_checking r
loading_while_checking (next r (logs_out c)) = loading_while_checking r
loading_while_checking (next r (elsewhere t c)) = loading_while_checking r

-- While a reply is awaited there is a token and no user yet; afterwards a user has a token.
record Coherent (s : Auth) : Type 0 where
  waiting : s.checking ≡ true → (s.token ≢ none) × (s.user ≡ none)
  kept : s.user ≢ none → s.token ≢ none

Reach-Coherent : {s : Auth} → Reach true s → Coherent s
unfolding mount checked login logout
Reach-Coherent (first none) = record {
  waiting = λ c. absurd (ground arith);
  kept = λ u. absurd (ground arith);
}
Reach-Coherent (first (some t)) = record { waiting = λ c. ground arith; kept = λ u. ground arith }
Reach-Coherent (next r (replies (ok u) c)) =
    let i = Reach-Coherent r in
    record { waiting = λ c'. absurd (ground arith); kept = λ v. (i.waiting c).0 }
Reach-Coherent (next r (replies (err m) c)) =
    let i = Reach-Coherent r in
    record { waiting = λ c'. absurd (ground arith); kept = λ v. absurd (v (i.waiting c).1) }
Reach-Coherent (next r (logs_in t u c)) = record {
  waiting = λ c'. absurd (ground arith);
  kept = λ v. ground arith;
}
Reach-Coherent (next r (logs_out c)) = record {
  waiting = λ c'. absurd (ground arith);
  kept = λ v. absurd (v refl);
}
Reach-Coherent (next r (elsewhere t c)) = absurd (ground arith)

-- When users log in and out only while no reply of getMe is awaited, and no other window changes the token in the
-- storage, a session that shows a user has a token there.
pub user_has_token : {s : Auth} → Reach true s → s.user ≢ none → s.token ≢ none
user_has_token r = (Reach-Coherent r).kept

-- A login while getMe is awaited with an old token is half undone when that token is rejected: the
-- state can be reached, shows the user and has no token.
pub rejected_after_login :
    {s : Auth} (t : String) (u : User) (m : String)
    → Reach false s
    → s.checking ≡ true
    → let late = checked (err m) (login t u s) in
      Reach false late × (late.user ≡ some u) × (late.token ≡ none) × (late.is_loading ≡ false)
unfolding checked login
rejected_after_login t u m r c =
    (next (next r (logs_in t u refl)) (replies (err m) c), refl, refl, refl)
