-- ===== src/Backend/Message/Flat.antt =====
-- Which readings a payload gives.
pub mod Names
use telemetryhub.Common.{
  ◌≢◌, ap, refl, String, List, [], ◌∷◌, some, Bool, true, false, ◌==◌, string_eq, if◌then◌else◌,
  ◌≡◌, ◌⊎◌, inl, inr, sym, arith, Bool-cases,
}
use package.text.Mathlib.TextEquality.{eq_iff}
use telemetryhub.Js.Map.{get, put, includes, is_some}
use telemetryhub.Backend.Message.Flat.Names.{dotted, last_key, path_name, IsRead}
use telemetryhub.Js.Map.Laws.{get-put}
use telemetryhub.Backend.Message.{
  Json, null, array, boolean, number, string, object, Members, end, member, skip_prefixes, below,
  flatten, flatten_members,
}

-- The members of an object have one with a key.
pub data Has {F : Type 0} : String → Json F → Members F → Type 0 where
  here : {k : String} {j : Json F} {ms : Members F} → Has k j (member k j ms)
  there : {k l : String} {i j : Json F} {ms : Members F} → Has k j ms → Has k j (member l i ms)

module _ {F : Type 0} (zero_value one_value : F) where
  -- A number or a Boolean value, at the end of a path of keys.
  pub data Leaf : List String → F → Json F → Type 0 where
    number_at : {v : F} → Leaf [] v (number v)
    boolean_at : {b : Bool} → Leaf [] (if b then one_value else zero_value) (boolean b)
    inside :
        {path : List String} {v : F} {k : String} {j : Json F} {ms : Members F}
        → Has k j ms
        → Leaf path v j
        → Leaf (k ∷ path) v (object ms)

  abbrev flat : String → String → Json F → List (String × F) → List (String × F)
  flat = flatten zero_value one_value

  abbrev flat_members : String → Members F → List (String × F) → List (String × F)
  flat_members = flatten_members zero_value one_value

  -- A value stands under a name: it is that of a leaf with this name, of which the last key is not skipped.
  abbrev Named : String → String → Json F → String → F → Type 0
  Named prefix parent j n v =
      (path : List String) × Leaf path v j
      × (dotted prefix path ≡ n)
      × (includes skip_prefixes (last_key parent path) ≡ false)

  -- The same for the members of an object.
  abbrev NamedIn : String → Members F → String → F → Type 0
  NamedIn prefix ms n v = (k : String) × (j : Json F) × Has k j ms × Named (below prefix k) k j n v

  get-put-some :
      (k n : String) (v w : F) (out : List (String × F))
      → get n (put k v out) ≡ some w
      → ((k ≡ n) × (v ≡ w)) ⊎ (get n out ≡ some w)
  get-put-some k n v w out h = elim (Bool-cases (k == n)) [
    | inl same ↦ inl ((eq_iff k n).0 same, ground (arith, get-put k n v out))
    | inr other ↦ inr (ground (arith, get-put k n v out))
  ]

  mutual
    unfolding flatten dotted last_key

    flatten_sound :
        (prefix parent : String) (j : Json F) (out : List (String × F)) (n : String) (v : F)
        → get n (flat prefix parent j out) ≡ some v
        → Named prefix parent j n v ⊎ (get n out ≡ some v)
    flatten_sound prefix parent null out n v h = inr h
    flatten_sound prefix parent array out n v h = inr h
    flatten_sound prefix parent (string s) out n v h = inr h
    flatten_sound prefix parent (number w) out n v h =
        elim (Bool-cases (includes skip_prefixes parent)) [
          | inl skipped ↦ inr (ground arith)
          | inr kept ↦ elim (get-put-some prefix n w v out (ground arith)) [
            | inl (same, value) ↦ inl ([], rw (sym value) number_at, same, kept)
            | inr before ↦ inr before
          ]
        ]
    flatten_sound prefix parent (boolean b) out n v h =
        elim (Bool-cases (includes skip_prefixes parent)) [
          | inl skipped ↦ inr (ground arith)
          | inr kept ↦
              elim (get-put-some prefix n (if b then one_value else zero_value) v out
                (ground arith)) [
                  | inl (same, value) ↦ inl ([], rw (sym value) boolean_at, same, kept)
                  | inr before ↦ inr before
                ]
        ]
    flatten_sound prefix parent (object ms) out n v h =
        elim (flatten_members_sound prefix ms out n v h) [
          | inl (k, j, at, (path, leaf, name, kept)) ↦ inl (k ∷ path, inside at leaf, name, kept)
          | inr before ↦ inr before
        ]

    flatten_members_sound :
        (prefix : String) (ms : Members F) (out : List (String × F)) (n : String) (v : F)
        → get n (flat_members prefix ms out) ≡ some v
        → NamedIn prefix ms n v ⊎ (get n out ≡ some v)
    flatten_members_sound prefix end out n v h = inr h
    flatten_members_sound prefix (member k child rest) out n v h =
        elim (flatten_members_sound prefix rest (flat (below prefix k) k child out) n v h) [
          | inl (l, j, at, named) ↦ inl (l, j, there at, named)
          | inr before ↦ elim (flatten_sound (below prefix k) k child out n v before) [
            | inl named ↦ inl (k, child, here, named)
            | inr earlier ↦ inr earlier
          ]
        ]

  mutual
    unfolding flatten

    -- A name stays.
    flatten_keeps :
        (prefix parent : String) (j : Json F) (out : List (String × F)) (n : String)
        → is_some (get n out) ≡ true
        → is_some (get n (flat prefix parent j out)) ≡ true
    flatten_keeps prefix parent null out n h = h
    flatten_keeps prefix parent array out n h = h
    flatten_keeps prefix parent (string s) out n h = h
    flatten_keeps prefix parent (number v) out n h = ground (arith, get-put prefix n v out)
    flatten_keeps prefix parent (boolean b) out n h =
        ground (arith, get-put prefix n one_value out, get-put prefix n zero_value out)
    flatten_keeps prefix parent (object ms) out n h = flatten_members_keeps prefix ms out n h

    flatten_members_keeps :
        (prefix : String) (ms : Members F) (out : List (String × F)) (n : String)
        → is_some (get n out) ≡ true
        → is_some (get n (flat_members prefix ms out)) ≡ true
    flatten_members_keeps prefix end out n h = h
    flatten_members_keeps prefix (member k child rest) out n h =
        flatten_members_keeps prefix rest (flat (below prefix k) k child out) n
          (flatten_keeps (below prefix k) k child out n h)

  -- A payload has a value for a name: a number or a Boolean value at the end of a path of this name, of which the
  -- last key is one that is read.
  abbrev pub HasReading : Members F → String → F → Type 0
  HasReading payload n v =
      (path : List String) × Leaf path v (object payload)
      × (path_name path ≡ n)
      × IsRead (last_key "" path)
