-- ===== src/LocalStorage.antt =====
-- `useLocalStorage` of frontend/src/lib/use-local-storage.ts, in a browser. `JSON.parse`,
-- `JSON.stringify` and whether the storage takes a write (its quota) are the engine's.
pub mod Debounce
pub mod Reachable
use telemetryhub.Common.{
  String, List, [], ◌∷◌, Option, none, some, Bool, true, false, not, ◌&&◌, ◌==◌, string_eq,
  if◌then◌else◌,
}
use telemetryhub.Js.Map.{get, put}

abbrev pub Store : Type 0
Store = List (String × String)

-- The hook of a component with the storage behind it. `write_timer` holds the write that a timer
-- will do: its key and value.
pub record Hook {ℓ} (T : Type ℓ) : Type ℓ where
  pub store : Store
  pub key : String
  pub initial : T
  pub value : T
  pub hydrated : Bool
  pub write_timer : Option (String × T)

module _ {ℓ} {T : Type ℓ} (parse : String → Option T) where
  -- The value that a text gives: `JSON.parse`, or the old value if it throws.
  abbrev pub parsed : String → T → T
  parsed raw old = elim (parse raw) [ none ↦ old | some v ↦ v ]

  -- The effect on `key`, at the first render and whenever the key is another.
  unfoldable pub hydrate : String → Hook T → Hook T
  hydrate key s = record s {
    key = key;
    value = elim (get key s.store) [ none ↦ s.value | some raw ↦ parsed raw s.value ];
    hydrated = true;
  }

  -- The first render, with the effect after it.
  unfoldable pub mount : Store → String → T → Hook T
  unfolding hydrate
  mount store key initial = hydrate key (record {
    store = store;
    key = key;
    initial = initial;
    value = initial;
    hydrated = false;
    write_timer = none;
  })

  -- `onStorage`: an event of another window. A missing key means that all was cleared.
  unfoldable pub on_storage : Bool → Option String → Option String → Hook T → Hook T
  on_storage same_area event_key new_value s =
      let ours : Bool = elim event_key [ none ↦ false | some k ↦ k == s.key ] in
      if not same_area
      then s
      else if not ours
      then s
      else record s { value = elim new_value [ none ↦ s.initial | some raw ↦ parsed raw s.value ] }

module _ {ℓ} {T : Type ℓ} where
  -- `setValue(next)`: the timer that runs is cleared, another one is started.
  unfoldable pub set_value : T → Hook T → Hook T
  set_value next s = record s { value = next; write_timer = some (s.key, next) }

  -- The clean-up when the component goes away.
  unfoldable pub unmount : Hook T → Hook T
  unmount s = record s { write_timer = none }

  -- The timer runs out.
  unfoldable pub fire : (T → String) → (String → Bool) → Hook T → Hook T
  fire stringify fits s = elim s.write_timer [
    | none ↦ s
    | some (k, v) ↦ record s {
      store = if fits (stringify v) then put k (stringify v) s.store else s.store;
      write_timer = none;
    }
  ]
