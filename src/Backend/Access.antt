-- ===== src/Backend/Access.antt =====
-- backend/internal/middleware/auth.go: `JWTAuth` and `RequireRole`, and what of them stands before a
-- route. What the JWT library makes of a token, `auth.ParseToken`, is a parameter.
pub mod Laws
use telemetryhub.Common.{
  ℕ, String, Option, none, some, Bool, true, false, ◌&&◌, ◌==◌, string_eq, nat_beq, if◌then◌else◌,
}
use Prim.Native.Char.{code}
use telemetryhub.Js.Text.{is_empty, begins}
use telemetryhub.Backend.Routes.{Access, public, authorized, admin}

-- `Claims`
pub record Claims : Type 0 where
  pub user_id : ℕ
  pub email : String
  pub role : String

-- `c.JSON(status, …)`: an error with its text, or a body.
pub data Reply {ℓ} (B : Type ℓ) : Type ℓ where
  refuse : ℕ → String → Reply B
  respond : ℕ → B → Reply B

-- What follows a prefix.
unfoldable pub after : String → String → String
after s String.[] = s
after String.[] (String.◌∷◌ d q) = ""
after (String.◌∷◌ c s) (String.◌∷◌ d q) = after s q

-- `strings.TrimPrefix(s, prefix)`
unfoldable pub trim_prefix : String → String → String
unfolding begins after
trim_prefix s prefix = if begins s prefix then after s prefix else s

-- `extractToken`; the argument is the header, empty if it is missing.
unfoldable pub extract_token : String → String
unfolding begins trim_prefix
extract_token auth = if begins auth "Bearer " then trim_prefix auth "Bearer " else ""

module _ {ℓ} {B : Type ℓ} where
  -- `JWTAuth`: the next handler gets the claims that are set in the context.
  unfoldable pub jwt_auth : (String → Option Claims) → String → (Claims → Reply B) → Reply B
  unfolding extract_token
  jwt_auth parse_token auth next =
      let token = extract_token auth in
      if is_empty token
      then refuse 401 "Missing authentication token"
      else elim (parse_token token) [
        | none ↦ refuse 401 "Invalid or expired token"
        | some claims ↦ next claims
      ]

  -- `RequireRole`; after JWTAuth there always is a role.
  unfoldable pub require_role : String → String → Reply B → Reply B
  require_role required role next =
      if role == "admin"
      then next
      else if required == "viewer" && role == "viewer"
      then next
      else refuse 403 "Insufficient permissions"

  -- The middleware of a route.
  unfoldable pub guarded :
      (String → Option Claims) → Access → String → (Option Claims → Reply B) → Reply B
  unfolding jwt_auth require_role
  guarded parse_token public auth next = next none
  guarded parse_token authorized auth next = jwt_auth parse_token auth (λ c. next (some c))
  guarded parse_token admin auth next =
      jwt_auth parse_token auth (λ c. require_role "admin" c.role (next (some c)))
