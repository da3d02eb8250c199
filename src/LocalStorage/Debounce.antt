-- ===== src/LocalStorage/Debounce.antt =====
-- Writes are delayed: what reaches the storage, and what does not.
use telemetryhub.Common.{
  String, List, [], ◌∷◌, ◌++◌, Option, none, some, Bool, true, ◌≡◌, refl, arith, string_eq,
}
use text.Mathlib.TextEquality.{eq_iff}
use telemetryhub.Js.Map.{get, put}
use telemetryhub.Js.Map.Laws.{get-put}
use telemetryhub.LocalStorage.{Hook, hydrate, mount, set_value, unmount, fire}

module _ {T : Type 0} where
  -- Several values set in a row.
  unfoldable pub set_values : List T → Hook T → Hook T
  set_values [] s = s
  set_values (x ∷ xs) s = set_values xs (set_value x s)

  set_values_last :
      (xs : List T) (x : T) (s : Hook T)
      → (hook : Hook T) × (set_values (xs ++ x ∷ []) s ≡ hook)
        × (hook.store ≡ s.store)
        × (hook.key ≡ s.key)
        × (hook.value ≡ x)
        × (hook.write_timer ≡ some (s.key, x))
  unfolding set_values set_value
  set_values_last [] x s = (set_values (x ∷ []) s, refl, refl, refl, refl, refl)
  set_values_last (y ∷ xs) x s = set_values_last xs x (set_value y s)

  module _ (parse : String → Option T) (stringify : T → String) (fits : String → Bool) where
    -- If the storage takes the text of the last of some values set in a row, and that text parses
    -- to the value, then of all these values only that one is written when the timer runs out,
    -- and a component that comes later and uses the same key starts with it, whatever its own
    -- initial value is.
    pub debounce_lem :
        (xs : List T) (x initial : T) (s : Hook T)
        → fits (stringify x) ≡ true
        → parse (stringify x) ≡ some x
        → let written = fire stringify fits (set_values (xs ++ x ∷ []) s) in
          (written.store ≡ put s.key (stringify x) s.store)
          × (written.write_timer ≡ none)
          × ((mount parse written.store s.key initial).value ≡ x)
    unfolding fire mount hydrate
    debounce_lem xs x initial s fit back =
        let (hook, e, st, k, v, timer) = set_values_last xs x s in
        rw e (
          ground arith,
          ground arith,
          ground (arith, eq_iff s.key s.key, get-put s.key s.key (stringify x) s.store),
        )

    -- Values set just before the component goes away are never written.
    pub unmount_loses :
        (xs : List T) (s : Hook T)
        → (fire stringify fits (unmount (set_values xs s))).store ≡ s.store
    unfolding fire unmount set_values set_value
    unmount_loses [] s = refl
    unmount_loses (x ∷ xs) s = unmount_loses xs (set_value x s)

    -- When the key changes to one under which nothing is stored, the value of the old key stays, and
    -- counts as hydrated.
    pub hydrate_keeps :
        (key : String) (s : Hook T)
        → get key s.store ≡ none
        → ((hydrate parse key s).value ≡ s.value) × ((hydrate parse key s).hydrated ≡ true)
    unfolding hydrate
    hydrate_keeps key s missing = (ground arith, refl)
