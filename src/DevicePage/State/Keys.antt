-- ===== src/DevicePage/State/Keys.antt =====
-- The keys of the storage do not clash.
use Prim.Native.String
use package.text.Mathlib.TextLemmas.{append_cancel_left, append_cancel_right}
use telemetryhub.Common.{String, [], ◌∷◌, ◌≡◌, false}
use telemetryhub.Js.Text.{text, is_empty}
use telemetryhub.DevicePage.State.{fields_key}

-- A key is the device's identifier between two fixed texts.
framed-injective :
    (front back a b : String) → text (front ∷ a ∷ back ∷ []) ≡ text (front ∷ b ∷ back ∷ []) → a ≡ b
unfolding text
framed-injective front back a b e = append_cancel_right a b (String.◌++◌ back "") (
    append_cancel_left front (String.◌++◌ a (String.◌++◌ back ""))
      (String.◌++◌ b (String.◌++◌ back "")) e)

-- Two devices, both with an identifier, keep their selections under one key only if they are one.
pub fields_key-injective :
    (a b : String) → is_empty a ≡ false → is_empty b ≡ false → fields_key a ≡ fields_key b → a ≡ b
unfolding fields_key
fields_key-injective a b ha hb e =
    framed-injective "telemetryhub:device:" ":fields" a b (rw (ha, hb) at e)
