-- ===== src/LocalStorage/Reachable.antt =====
-- The hook of a component with a fixed key, and another window that stores under that key.
use telemetryhub.Common.{
  String, Option, none, some, Bool, true, false, ◌&&◌, not, filter, [], ◌∷◌, ◌≡◌, refl, arith, ◌⊎◌,
  inl, inr, string_eq, Option-cases, ◌==◌,
}
use text.Mathlib.TextEquality.{eq_iff}
use telemetryhub.Js.Map.{get, put}
use telemetryhub.Js.Map.Laws.{get-put}
use telemetryhub.LocalStorage.{Store, Hook, parsed, hydrate, mount, on_storage, set_value, fire}

-- The storage after another window stored a text under a key, or removed what is under it.
unfoldable pub stored_elsewhere : String → Option String → Store → Store
unfolding filter
stored_elsewhere key none m = filter (λ p. not (p.0 == key)) m
stored_elsewhere key (some raw) m = put key raw m

abbrev pub waits {ℓ} : {A : Type ℓ} → Option A → Bool
waits none = false
waits (some a) = true

module _ {T : Type 0} (parse : String → Option T) where
  -- Another window changes what is stored, of which the hook is told.
  unfoldable pub hear : Option String → Hook T → Hook T
  unfolding on_storage stored_elsewhere
  hear new_value s =
      on_storage parse true (some s.key) new_value
        (record s { store = stored_elsewhere s.key new_value s.store })

  -- What the storage holds under the key is the value, if it can be parsed; if it holds nothing the value
  -- is the initial one.
  abbrev pub Agrees : Option String → Hook T → Type 0
  Agrees none s = s.value ≡ s.initial
  Agrees (some raw) s = (parse raw ≡ none) ⊎ (parse raw ≡ some s.value)

module _ {T : Type 0} (parse : String → Option T) (stringify : T → String)
    (fits : String → Bool) where
  -- The states that can be reached. Another window stores at any time or, if it is patient, only while
  -- no write is delayed.
  pub data Reach (patient : Bool) : Hook T → Type 0 where
    first :
        (store : Store) (key : String) (initial : T) → Reach patient (mount parse store key initial)
    sets : {s : Hook T} (next : T) → Reach patient s → Reach patient (set_value next s)
    fires : {s : Hook T} → Reach patient s → Reach patient (fire stringify fits s)
    hears :
        {s : Hook T} (new_value : Option String)
        → (patient && waits s.write_timer) ≡ false
        → Reach patient s
        → Reach patient (hear parse new_value s)

  stored : (key raw : String) (m : Store) → get key (put key raw m) ≡ some raw
  stored key raw m = ground (arith, eq_iff key key, get-put key key raw m)

  get-removed : (key : String) (m : Store) → get key (stored_elsewhere key none m) ≡ none
  unfolding get stored_elsewhere filter
  get-removed key [] = refl
  get-removed key ((k, raw) ∷ m) = ground (arith, eq_iff k key, get-removed key m)

  -- The value after a change of what is stored.
  abbrev heard : Option String → Hook T → T
  heard none s = s.initial
  heard (some raw) s = parsed parse raw s.value

  hear_lem :
      (o : Option String) (s : Hook T)
      → hear parse o s ≡ record s { store = stored_elsewhere s.key o s.store; value = heard o s }
  unfolding hear on_storage
  hear_lem none s = ground (arith, eq_iff s.key s.key)
  hear_lem (some raw) s = ground (arith, eq_iff s.key s.key)

  parsed-Agrees :
      (raw : String) (old : T) → (parse raw ≡ none) ⊎ (parse raw ≡ some (parsed parse raw old))
  parsed-Agrees raw old = elim (Option-cases (parse raw)) [
    | inl e ↦ inl e
    | inr (v, e) ↦ inr (ground arith)
  ]

  hear-Agrees :
      (o : Option String) (s : Hook T)
      → let t : Hook T = record s { store = stored_elsewhere s.key o s.store; value = heard o s } in
        Agrees parse (get t.key t.store) t
  unfolding stored_elsewhere
  hear-Agrees none s = rw (get-removed s.key s.store) refl
  hear-Agrees (some raw) s = rw (stored s.key raw s.store) (parsed-Agrees raw s.value)

  first-Agrees :
      (store : Store) (key : String) (initial : T)
      → Agrees parse (get key store) (mount parse store key initial)
  unfolding mount hydrate
  first-Agrees store key initial =
      elim (get key store)
        as (λ o. Agrees parse o (record {
          store = store;
          key = key;
          initial = initial;
          value = elim o [ none ↦ initial | some raw ↦ parsed parse raw initial ];
          hydrated = true;
          write_timer = none;
        })) [ none ↦ refl | some raw ↦ parsed-Agrees raw initial ]

  fire_idle : (s : Hook T) → s.write_timer ≡ none → fire stringify fits s ≡ s
  unfolding fire
  fire_idle s idle = ground arith

  fire_waiting :
      (k : String) (v : T) (s : Hook T)
      → s.write_timer ≡ some (k, v)
      → fits (stringify v) ≡ true
      → fire stringify fits s ≡ record s { store = put k (stringify v) s.store; write_timer = none }
  unfolding fire
  fire_waiting k v s waiting fit = ground arith

  module _ (fitting : (x : T) → fits (stringify x) ≡ true)
      (read_back : (x : T) → parse (stringify x) ≡ some x) where
    -- With a patient other window, and a storage that takes the text of every value, which parses to the
    -- value: in every reachable state the write that is delayed is of the value, and if none is, the
    -- storage agrees with the value.
    pub Reach-Agrees :
        {s : Hook T}
        → Reach true s
        → (s.write_timer ≡ some (s.key, s.value))
          ⊎ ((s.write_timer ≡ none) × Agrees parse (get s.key s.store) s)
    unfolding mount hydrate set_value fire
    Reach-Agrees (first store key initial) = inr (refl, first-Agrees store key initial)
    Reach-Agrees (sets next r) = inl refl
    Reach-Agrees (fires {s} r) = elim (Reach-Agrees r) [
      | inl waiting ↦ inr (
          rw
            (
              fire_waiting s.key s.value s waiting (fitting s.value),
              stored s.key (stringify s.value) s.store,
            )
            (refl, inr (read_back s.value)))
      | inr (idle, agrees) ↦ inr (rw (fire_idle s idle) (idle, agrees))
    ]
    Reach-Agrees (hears {s} o quiet r) = inr (rw (hear_lem o s) (ground arith, hear-Agrees o s))

  -- A value of another window that comes while a write is delayed is shown, but when the timer runs out
  -- the storage holds the delayed one.
  pub overwritten :
      {s : Hook T} (x y : T) (raw : String)
      → Reach false s
      → fits (stringify x) ≡ true
      → parse raw ≡ some y
      → let t = fire stringify fits (hear parse (some raw) (set_value x s)) in
        Reach false t
        × (t.value ≡ y)
        × (get t.key t.store ≡ some (stringify x))
        × (t.write_timer ≡ none)
  unfolding fire hear on_storage set_value
  overwritten {s} x y raw r fit e =
      let heard' = hear_lem (some raw) (set_value x s) in
      (
        fires (hears (some raw) refl (sets x r)),
        rw heard' (ground arith),
        rw (heard', fit) (stored s.key (stringify x) _),
        rw heard' refl,
      )
