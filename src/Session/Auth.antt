-- ===== src/Session/Auth.antt =====
-- `AuthProvider` of frontend/src/lib/auth-context.tsx: the user, and the token in the local storage.
-- `checking` says that the call of getMe of the first render has not ended yet.
pub mod Reachable
pub mod Settles
use telemetryhub.Common.{
  String, Option, none, some, Bool, true, false, ◌==◌, string_eq, if◌then◌else◌,
}
use telemetryhub.Js.Text.{is_empty}
use telemetryhub.Api.Types.{User}
use telemetryhub.Api.Replies.{Result, ok, err}

pub record Auth : Type 0 where
  pub token : Option String
  pub user : Option User
  pub is_loading : Bool
  pub checking : Bool

-- `useEffect(…, [])` on the first render, with the token that the storage holds. An empty token
-- counts as none.
unfoldable pub mount : Option String → Auth
mount none = record { token = none; user = none; is_loading = false; checking = false }
mount (some t) =
    if is_empty t
    then record { token = some t; user = none; is_loading = false; checking = false }
    else record { token = some t; user = none; is_loading = true; checking = true }

-- `getMe().then(…).catch(…).finally(…)`
unfoldable pub checked : Result User → Auth → Auth
checked (ok u) s = record s { user = some u; is_loading = false; checking = false }
checked (err m) s = record s { token = none; is_loading = false; checking = false }

unfoldable pub login : String → User → Auth → Auth
login t u s = record s { token = some t; user = some u }

unfoldable pub logout : Auth → Auth
logout s = record s { token = none; user = none }

-- `user?.role === 'admin'`
unfoldable pub is_admin : Auth → Bool
is_admin s = elim s.user [ none ↦ false | some u ↦ u.role == "admin" ]
