-- ===== src/Backend/Accounts/Invariant.antt =====
-- What no sequence of requests changes in the accounts.
use package.text.Mathlib.TextEquality.{eq_iff}
use telemetryhub.Common.{
  ℕ, String, List, [], ◌∷◌, ◌++◌, map, filter, Option, none, some, Bool, ◌||◌, ◌&&◌, ltb, ◌==◌,
  string_eq, nat_eq, if◌then◌else◌, ◌≡◌, ◌≢◌, ◌⊎◌, refl, arith, ap, ◌∙◌, All, Option-cases,
  Bool-cases, inl, inr,
}
use telemetryhub.Js.Text.{is_empty}
use telemetryhub.Backend.Access.{Claims}
use telemetryhub.Backend.Accounts.{
  UserRow, Db, Statement, RegisterRequest, LoginRequest, PasswordRequest, find_user, find_by_id,
  bytes, register_public, login, change_password, logout, insert_user, select_hash, update_hash,
}

-- No text is there twice.
abbrev pub Distinct : List String → Type 0
Distinct [] = Unit
Distinct (x ∷ xs) = All (λ y. x ≢ y) xs × Distinct xs

abbrev pub emails : List UserRow → List String
emails us = map (λ (u : UserRow). u.email) us

abbrev is_admin : UserRow → Bool
is_admin u = u.role == "admin"

-- The emails of the administrators.
abbrev pub admins : List UserRow → List String
admins us = map (λ (u : UserRow). u.email) (filter is_admin us)

-- The users after a new hash is stored for one.
abbrev rehash : ℕ → String → List UserRow → List UserRow
rehash user_id hash =
    map (λ (v : UserRow). if v.id == user_id then record v { password_hash = hash } else v)

emails-append :
    (us : List UserRow) (u : UserRow) → emails (us ++ u ∷ []) ≡ emails us ++ u.email ∷ []
emails-append [] u = refl
emails-append (v ∷ us) u = ap (λ r. v.email ∷ r) (emails-append us u)

admins-append :
    (us : List UserRow) (u : UserRow) → u.role ≡ "viewer" → admins (us ++ u ∷ []) ≡ admins us
unfolding filter
admins-append [] u h = rw h refl
admins-append (v ∷ us) u h = ground (arith, admins-append us u h)

All-append :
    (x y : String) (xs : List String)
    → All (λ z. x ≢ z) xs
    → x ≢ y
    → All (λ z. x ≢ z) (xs ++ y ∷ [])
All-append x y [] h n = (n, tt)
All-append x y (z ∷ zs) h n = (h.0, All-append x y zs h.1 n)

Distinct-append :
    (us : List UserRow) (u : UserRow)
    → Distinct (emails us)
    → find_user u.email us ≡ none
    → Distinct (emails (us ++ u ∷ []))
unfolding find_user
Distinct-append [] u d free = (tt, tt)
Distinct-append (v ∷ us) u d free = elim (Bool-cases (v.email == u.email)) [
  | inl same ↦ absurd (ground arith)
  | inr other ↦ (
    rw (emails-append us u) (
        All-append v.email u.email (emails us) d.0
          (λ e. absurd (ground (arith, eq_iff v.email u.email)))),
    Distinct-append us u d.1 (ground arith),
  )
]

admins-rehash :
    (user_id : ℕ) (hash : String) (us : List UserRow) → admins (rehash user_id hash us) ≡ admins us
unfolding filter
admins-rehash user_id hash [] = refl
admins-rehash user_id hash (v ∷ us) = ground (arith, admins-rehash user_id hash us)

emails-rehash :
    (user_id : ℕ) (hash : String) (us : List UserRow) → emails (rehash user_id hash us) ≡ emails us
emails-rehash user_id hash [] = refl
emails-rehash user_id hash (v ∷ us) = ground (arith, emails-rehash user_id hash us)

module _ (works : Statement → Bool) (hash_password : String → Option String)
    (verify_password : String → String → Bool) (generate_token : Claims → ℕ → Option String)
    (expiry : ℕ) where
  -- A request to one of the handlers.
  pub data Step : Db → Db → Type 0 where
    registers :
        (db : Db) (req : Option RegisterRequest)
        → Step db (register_public works hash_password req db).1
    logs_in :
        (db : Db) (now : ℕ) (req : Option LoginRequest)
        → Step db (login works verify_password generate_token expiry now req db).1
    changes :
        (db : Db) (user_id : ℕ) (req : Option PasswordRequest)
        → Step db (change_password works hash_password verify_password user_id req db).1
    logs_out : (db : Db) (auth : String) → Step db (logout works auth db).1

  pub data Steps : Db → Db → Type 0 where
    stay : {db : Db} → Steps db db
    step : {a b c : Db} → Steps a b → Step b c → Steps a c

  register-users :
      (req : Option RegisterRequest) (db : Db)
      → let after = (register_public works hash_password req db).1 in
        (after.users ≡ db.users)
        ⊎ ((u : UserRow) × (u.role ≡ "viewer")
            × (find_user u.email db.users ≡ none)
            × (after.users ≡ db.users ++ u ∷ []))
  unfolding register_public
  register-users none db = inl refl
  register-users (some req) db =
      elim (Bool-cases
        (is_empty req.email || is_empty req.password || ltb (bytes req.password) 8)) [
          | inl short ↦ inl (ground arith)
          | inr long ↦
              elim (Bool-cases (req.password == req.confirm_password && works insert_user)) [
                | inr stopped ↦ inl (ground arith)
                | inl repeated ↦ elim (Option-cases (hash_password req.password)) [
                  | inl failed ↦ inl (ground arith)
                  | inr (hash, made) ↦ elim (Option-cases (find_user req.email db.users)) [
                    | inr (u, taken) ↦ inl (ground arith)
                    | inl free ↦ inr (
                      record {
                        id = db.next_id;
                        email = req.email;
                        password_hash = hash;
                        role = "viewer";
                      },
                      refl,
                      free,
                      ground arith,
                    )
                  ]
                ]
              ]
        ]

  login-users :
      (now : ℕ) (req : Option LoginRequest) (db : Db)
      → (login works verify_password generate_token expiry now req db).1.users ≡ db.users
  unfolding login
  login-users now none db = refl
  login-users now (some req) db = ground arith

  logout-users : (auth : String) (db : Db) → (logout works auth db).1.users ≡ db.users
  unfolding logout
  logout-users auth db = ground arith

  change_password-users :
      (user_id : ℕ) (req : Option PasswordRequest) (db : Db)
      → let after = (change_password works hash_password verify_password user_id req db).1 in
        (after.users ≡ db.users) ⊎ ((hash : String) × (after.users ≡ rehash user_id hash db.users))
  unfolding change_password
  change_password-users user_id none db = inl refl
  change_password-users user_id (some req) db = elim (Option-cases (find_by_id user_id db.users)) [
    | inl missing ↦ inl (ground arith)
    | inr (u, found) ↦ elim (Option-cases (hash_password req.new_password)) [
      | inl failed ↦ inl (ground arith)
      | inr (hash, made) ↦
          elim (Bool-cases (
            works select_hash
            && verify_password req.current_password u.password_hash
            && works update_hash)) [
              | inr stopped ↦ inl (ground arith)
              | inl passed ↦ inr (hash, ground arith)
            ]
    ]
  ]

  Step-keeps :
      {a b : Db}
      → Step a b
      → Distinct (emails a.users)
      → Distinct (emails b.users) × (admins b.users ≡ admins a.users)
  Step-keeps (registers db req) d = elim (register-users req db) [
    | inl e ↦ rw e (d, refl)
    | inr (u, viewer, free, e) ↦
        rw e (Distinct-append db.users u d free, admins-append db.users u viewer)
  ]
  Step-keeps (logs_in db now req) d = rw (login-users now req db) (d, refl)
  Step-keeps (changes db user_id req) d = elim (change_password-users user_id req db) [
    | inl e ↦ rw e (d, refl)
    | inr (hash, e) ↦
        rw (e, emails-rehash user_id hash db.users) (d, admins-rehash user_id hash db.users)
  ]
  Step-keeps (logs_out db auth) d = rw (logout-users auth db) (d, refl)

  -- Whatever requests come to these handlers, and whatever of the database fails, the emails of the users
  -- stay distinct and the administrators stay the same: nobody becomes one.
  pub nobody_becomes_admin :
      {a b : Db}
      → Steps a b
      → Distinct (emails a.users)
      → Distinct (emails b.users) × (admins b.users ≡ admins a.users)
  nobody_becomes_admin stay d = (d, refl)
  nobody_becomes_admin (step r s) d =
      let before = nobody_becomes_admin r d in
      let here = Step-keeps s before.0 in (here.0, here.1 ∙ before.1)
