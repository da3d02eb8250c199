-- ===== src/Ui.antt =====
-- What a component renders: the texts and controls of its JSX in the order of the document. Classes,
-- styles, icons and the elements that only lay out are left out; an element that encloses others stands
-- before them. A control carries the action of its handlers, of the component's type A; an element of
-- another component is its props, of type P. The name of a button is its text, or its `title` or
-- `aria-label` if it has only an icon, or empty.
pub mod Laws
use telemetryhub.Common.{
  String, List, [], ◌∷◌, ◌++◌, Option, none, some, Bool, true, false, ◌≡◌, Any, if◌then◌else◌,
}

-- The handlers of an input; `key_down` gets the key.
pub data On (A : Type 0) : Type 0 where
  change blur : (String → A) → On A
  key_down : (String → Option A) → On A
  focus leave : A → On A

pub data Widget (A P : Type 0) : Type 0 where
  -- a text, and an icon that turns while something is awaited
  shows : String → Widget A P
  spinner : Widget A P
  -- `<button disabled={…} onClick={…}>`
  button : String → Bool → A → Widget A P
  -- an element that is no button, with its `onClick`
  clickable : String → A → Widget A P
  -- `<input placeholder={…} value={…}>`
  input : String → String → List (On A) → Widget A P
  -- `<input type="checkbox" checked={…} onChange={…}>`
  checkbox : Bool → A → Widget A P
  -- `<form onSubmit={…}>` with the text of its button, which may be disabled
  submit : String → Bool → A → Widget A P
  -- `<Link href={…}>`, with its `onClick`
  link : String → Option A → Widget A P
  child : P → Widget A P

-- No element of another component.
pub data NoChild : Type 0 where

module _ {A : Type 0} where
  -- Whether a handler can lead to an action, for some text or key.
  abbrev pub Handles : A → On A → Type 0
  Handles a (change f) = (t : String) × (f t ≡ a)
  Handles a (blur f) = (t : String) × (f t ≡ a)
  Handles a (key_down f) = (key : String) × (f key ≡ some a)
  Handles a (focus b) = b ≡ a
  Handles a (leave b) = b ≡ a

module _ {A P : Type 0} where
  -- Whether the user can cause an action at a widget.
  abbrev pub Gives : A → Widget A P → Type 0
  Gives a (button name disabled b) = (disabled ≡ false) × (b ≡ a)
  Gives a (submit name disabled b) = (disabled ≡ false) × (b ≡ a)
  Gives a (clickable t b) = b ≡ a
  Gives a (input placeholder value hs) = Any (Handles a) hs
  Gives a (checkbox on b) = b ≡ a
  Gives a (link href b) = b ≡ some a
  Gives a _ = ⊥

  -- Whether the user can cause it somewhere.
  abbrev pub Offers : List (Widget A P) → A → Type 0
  Offers ws a = Any (Gives a) ws

  -- Whether the props of an element are among the children.
  abbrev pub IsChild : P → Widget A P → Type 0
  IsChild p (child q) = q ≡ p
  IsChild p _ = ⊥

  abbrev pub Contains : List (Widget A P) → P → Type 0
  Contains ws p = Any (IsChild p) ws

  -- `{condition && …}`
  unfoldable pub when : Bool → List (Widget A P) → List (Widget A P)
  when true ws = ws
  when false ws = []

  -- One part for each entry of a list, `xs.map(…)`.
  unfoldable pub each {ℓ} : {B : Type ℓ} → (B → List (Widget A P)) → List B → List (Widget A P)
  each f [] = []
  each f (x ∷ xs) = f x ++ each f xs
