-- ===== src/Backend/Accounts.antt =====
-- backend/internal/auth/handler.go: the accounts and the handlers that use them. The database is its
-- tables `users` and `sessions`, of which the emails and the tokens are unique; whether it executes a
-- statement, the hashes of bcrypt and the signing of the JWT library are parameters. Passwords and tokens
-- are texts, the times are hours.
pub mod Invariant
pub mod Registered
use Prim.Native.Char.{code}
use Prim.Native.String
use telemetryhub.Common.{
  ℕ, suc, ◌+◌, String, List, [], ◌∷◌, ◌++◌, Option, none, some, Bool, true, false, not, ◌&&◌, ◌||◌,
  map, filter, ltb, ◌==◌, string_eq, nat_eq, if◌then◌else◌,
}
use telemetryhub.Js.Text.{is_empty}
use telemetryhub.Backend.Access.{Claims, Reply, refuse, respond, extract_token}

pub record UserRow : Type 0 where
  pub id : ℕ
  pub email : String
  pub password_hash : String
  pub role : String

pub record SessionRow : Type 0 where
  pub token : String
  pub user_id : ℕ
  pub expires_at : ℕ

-- `next_id` is the sequence that numbers the users, of which a failed insertion takes no number here.
pub record Db : Type 0 where
  pub users : List UserRow
  pub sessions : List SessionRow
  pub next_id : ℕ

pub data Statement : Type 0 where
  insert_user select_user insert_session delete_session : Statement
  select_hash update_hash delete_sessions : Statement

pub record RegisterRequest : Type 0 where
  pub email : String
  pub password : String
  pub confirm_password : String

pub record LoginRequest : Type 0 where
  pub email : String
  pub password : String

pub record PasswordRequest : Type 0 where
  pub current_password : String
  pub new_password : String

-- `UserResponse` and `RegisterResponse`
pub record UserResponse : Type 0 where
  pub id : ℕ
  pub email : String
  pub role : String

pub record LoginResponse : Type 0 where
  pub token : String
  pub email : String
  pub role : String

-- `len(s)`: the bytes of UTF-8
unfoldable pub bytes : String → ℕ
bytes String.[] = 0
bytes (String.◌∷◌ c s) =
    (if ltb (code c) 0x80
      then 1
      else if ltb (code c) 0x800
      then 2
      else if ltb (code c) 0x10000
      then 3
      else 4)
    + bytes s

-- `SELECT … FROM users WHERE email = $1`
unfoldable pub find_user : String → List UserRow → Option UserRow
find_user email [] = none
find_user email (u ∷ us) = if u.email == email then some u else find_user email us

unfoldable pub find_by_id : ℕ → List UserRow → Option UserRow
find_by_id id [] = none
find_by_id id (u ∷ us) = if u.id == id then some u else find_by_id id us

unfoldable pub has_session : String → List SessionRow → Bool
has_session token [] = false
has_session token (r ∷ rs) = r.token == token || has_session token rs

module _ (works : Statement → Bool) (verify_password : String → String → Bool) where
  -- The response is also given if the session cannot be stored.
  unfoldable pub login :
      (Claims → ℕ → Option String) → ℕ → ℕ → Option LoginRequest → Db → Reply LoginResponse × Db
  unfolding find_user has_session
  login generate_token expiry now none db = (refuse 400 "Invalid request body", db)
  login generate_token expiry now (some req) db =
      if not (works select_user)
      then (refuse 401 "Invalid credentials", db)
      else elim (find_user req.email db.users) [
        | none ↦ (refuse 401 "Invalid credentials", db)
        | some u ↦
            if not (verify_password req.password u.password_hash)
            then (refuse 401 "Invalid credentials", db)
            else elim (generate_token (record { user_id = u.id; email = u.email; role = u.role })
                (now + expiry)) [
                  | none ↦ (refuse 500 "Failed to generate token", db)
                  | some t ↦ (
                    respond 200 (record { token = t; email = u.email; role = u.role }),
                    if works insert_session && not (has_session t db.sessions)
                        then record db {
                          sessions =
                              record { token = t; user_id = u.id; expires_at = now + expiry }
                              ∷ db.sessions;
                        }
                        else db,
                  )
                ]
      ]

module _ (works : Statement → Bool) (hash_password : String → Option String) where
  unfoldable pub register_public : Option RegisterRequest → Db → Reply UserResponse × Db
  unfolding bytes find_user
  register_public none db = (refuse 400 "Invalid request body", db)
  register_public (some req) db =
      if is_empty req.email || is_empty req.password
      then (refuse 400 "Email and password are required", db)
      else if ltb (bytes req.password) 8
      then (refuse 400 "Password must be at least 8 characters", db)
      else if not (req.password == req.confirm_password)
      then (refuse 400 "Passwords do not match", db)
      else elim (hash_password req.password) [
        | none ↦ (refuse 500 "Internal error", db)
        | some hash ↦
            if not (works insert_user)
            then (refuse 500 "Failed to create user", db)
            else elim (find_user req.email db.users) [
              | some u ↦ (refuse 409 "Email already exists", db)
              | none ↦ (
                respond 201 (record { id = db.next_id; email = req.email; role = "viewer" }),
                record db {
                  users =
                      db.users
                      ++ record {
                        id = db.next_id;
                        email = req.email;
                        password_hash = hash;
                        role = "viewer";
                      }
                        ∷ [];
                  next_id = suc db.next_id;
                },
              )
            ]
      ]

  module _ (verify_password : String → String → Bool) where
    unfoldable pub change_password : ℕ → Option PasswordRequest → Db → Reply String × Db
    unfolding find_by_id filter
    change_password user_id none db = (refuse 400 "Invalid request body", db)
    change_password user_id (some req) db =
        if not (works select_hash)
        then (refuse 500 "Failed to verify password", db)
        else elim (find_by_id user_id db.users) [
          | none ↦ (refuse 500 "Failed to verify password", db)
          | some u ↦
              if not (verify_password req.current_password u.password_hash)
              then (refuse 401 "Current password is incorrect", db)
              else elim (hash_password req.new_password) [
                | none ↦ (refuse 500 "Failed to hash password", db)
                | some hash ↦
                    if not (works update_hash)
                    then (refuse 500 "Failed to update password", db)
                    else (
                      respond 200 "Password changed",
                      record db {
                        users =
                            map
                              (λ v.
                                if v.id == user_id then record v { password_hash = hash } else v)
                              db.users;
                        sessions =
                            if works delete_sessions
                            then filter (λ r. not (r.user_id == user_id)) db.sessions
                            else db.sessions;
                      },
                    )
              ]
        ]

-- The argument is the Authorization header.
unfoldable pub logout : (Statement → Bool) → String → Db → Reply String × Db
unfolding extract_token filter
logout works auth db =
    let token = extract_token auth in
    if is_empty token
    then (refuse 400 "No token provided", db)
    else if not (works delete_session)
    then (refuse 500 "Failed to logout", db)
    else (
      respond 200 "Logged out",
      record db { sessions = filter (λ r. not (r.token == token)) db.sessions },
    )

unfoldable pub me : Claims → Reply UserResponse
me c = respond 200 (record { id = c.user_id; email = c.email; role = c.role })
