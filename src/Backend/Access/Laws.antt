-- ===== src/Backend/Access/Laws.antt =====
-- Who passes the middleware.
use Prim.Native.String
use package.text.Mathlib.TextLemmas.{cons-append, nil-append, append-nil}
use package.text.Mathlib.TextEquality.{eq_iff}
use telemetryhub.Common.{
  String, Option, none, some, true, false, ◌≡◌, ◌≢◌, refl, ◌⊎◌, inl, inr, arith, Option-cases,
  Bool-cases, ◌==◌, string_eq,
}
use telemetryhub.Js.Map.{get}
use telemetryhub.Js.Text.{text, is_empty, begins, missing_or}
use telemetryhub.Api.Requests.{get_headers}
use telemetryhub.Backend.Routes.{Access, public, authorized, admin}
use telemetryhub.Backend.Access.{
  Claims, Reply, refuse, after, trim_prefix, extract_token, jwt_auth, require_role, guarded,
}

-- The Authorization header that a request of api.ts has, empty if it has none.
abbrev pub authorization : Option String → String
authorization token = missing_or (get "Authorization" (get_headers token)) ""

begins-append : (p s : String) → begins (String.◌++◌ p s) p ≡ true
unfolding begins
begins-append String.[] s = refl
begins-append (String.◌∷◌ c p) s = rw (cons-append c p s) (ground (arith, begins-append p s))

after-append : (p s : String) → after (String.◌++◌ p s) p ≡ s
unfolding after
after-append String.[] s = nil-append s
after-append (String.◌∷◌ c p) s = rw (cons-append c p s) (after-append p s)

-- The server takes out of the header the token that the frontend put in.
pub extract_token-authorization :
    (token : String) → token ≢ "" → extract_token (authorization (some token)) ≡ token
unfolding extract_token trim_prefix get get_headers text
extract_token-authorization String.[] h = absurd (h refl)
extract_token-authorization (String.◌∷◌ c s) h =
    let sent = String.◌++◌ (String.◌∷◌ c s) "" in
    ground (
      arith,
      begins-append "Bearer " sent,
      after-append "Bearer " sent,
      append-nil (String.◌∷◌ c s),
    )

jwt_auth_lem :
    {B : Type 0} (parse_token : String → Option Claims) (auth : String) (next : Claims → Reply B)
    → let reply = jwt_auth parse_token auth next in
      (((is_empty (extract_token auth) ≡ true) ⊎ (parse_token (extract_token auth) ≡ none))
        × ((m : String) × (reply ≡ refuse 401 m)))
      ⊎ ((c : Claims) × (parse_token (extract_token auth) ≡ some c) × (reply ≡ next c))
unfolding jwt_auth
jwt_auth_lem parse_token auth next = elim (Bool-cases (is_empty (extract_token auth))) [
  | inl missing ↦ inl (inl missing, ("Missing authentication token", ground arith))
  | inr held ↦ elim (Option-cases (parse_token (extract_token auth))) [
    | inl bad ↦ inl (inr bad, ("Invalid or expired token", ground arith))
    | inr (c, valid) ↦ inr (c, valid, ground arith)
  ]
]

module _ {B : Type 0} (parse_token : String → Option Claims) (next : Option Claims → Reply B) where
  -- A request gets to the handler of its route in these cases only: the route is public; or the token is
  -- valid and the route is not the administrators'; or it is, and so is the token. Else it is refused: 401
  -- without a valid token, 403 with the token of another role.
  pub guarded_lem :
      (a : Access) (auth : String)
      → let reply = guarded parse_token a auth next in
        ((a ≡ public) × (reply ≡ next none))
        ⊎ ((a ≢ public)
            × ((is_empty (extract_token auth) ≡ true) ⊎ (parse_token (extract_token auth) ≡ none))
            × ((m : String) × (reply ≡ refuse 401 m)))
        ⊎ ((c : Claims) × (parse_token (extract_token auth) ≡ some c)
            × (((a ≡ admin) × (c.role ≢ "admin") × (reply ≡ refuse 403 "Insufficient permissions"))
                ⊎ ((a ≢ public) × ((a ≡ admin) → c.role ≡ "admin") × (reply ≡ next (some c)))))
  unfolding guarded jwt_auth require_role
  guarded_lem public auth = inl (refl, refl)
  guarded_lem authorized auth = elim (jwt_auth_lem parse_token auth (λ c. next (some c))) [
    | inl (bad, why) ↦ inr (inl (λ e. absurd (ground arith), bad, why))
    | inr (c, valid, e) ↦
        inr (inr (c, valid, inr (λ e. absurd (ground arith), λ e. absurd (ground arith), e)))
  ]
  guarded_lem admin auth =
      elim (jwt_auth_lem parse_token auth (λ c. require_role "admin" c.role (next (some c)))) [
        | inl (bad, why) ↦ inr (inl (λ e. absurd (ground arith), bad, why))
        | inr (c, valid, e) ↦ elim (Bool-cases (c.role == "admin")) [
          | inl is_admin ↦ inr (
              inr (
                c,
                valid,
                inr (
                  λ e. absurd (ground arith),
                  λ e. (eq_iff c.role "admin").0 is_admin,
                  ground arith,
                ),
              ))
          | inr other ↦ inr (
              inr (
                c,
                valid,
                inl (refl, λ e. absurd (ground (arith, eq_iff c.role "admin")), ground arith),
              ))
        ]
      ]

  -- With a valid token of another role the administrators' routes are refused, the others are not.
  pub guarded_other :
      (token : String) (c : Claims)
      → token ≢ ""
      → parse_token token ≡ some c
      → c.role ≢ "admin"
      → (guarded parse_token admin (authorization (some token)) next
          ≡ refuse 403 "Insufficient permissions")
        × (guarded parse_token authorized (authorization (some token)) next ≡ next (some c))
  unfolding guarded jwt_auth require_role
  guarded_other token c given valid other =
      by_token (authorization (some token)) (extract_token-authorization token given)
        (filled token given)
    where
      filled : (t : String) → t ≢ "" → is_empty t ≡ false
      filled String.[] h = absurd (h refl)
      filled (String.◌∷◌ d s) h = refl

      by_token :
          (auth : String)
          → extract_token auth ≡ token
          → is_empty token ≡ false
          → (guarded parse_token admin auth next ≡ refuse 403 "Insufficient permissions")
            × (guarded parse_token authorized auth next ≡ next (some c))
      by_token auth e f = (ground (arith, eq_iff c.role "admin"), ground arith)
