-- ===== src/Js/Text.antt =====
-- `String.prototype` as the frontend uses it. A string is its list of code points; lengths count
-- UTF-16 units, as `length` does. (Lone surrogates have no counterpart here.)
pub mod Percent
pub mod Split
pub mod Digits
use Prim.Native.Char.{Char, code}
use Prim.Native.String
use telemetryhub.Common.{
  ℕ, zero, suc, ◌+◌, ◌-◌, ◌/◌, ◌%◌, ◌<◌, ◌≤◌, String, Bool, true, false, not, ◌&&◌, ◌||◌, List, [],
  ◌∷◌, ◌++◌, map, Option, none, some, ltb, leb, nat_beq, length, if◌then◌else◌,
}

-- The parts of a template literal, joined.
unfoldable pub text : List String → String
text [] = ""
text (s ∷ rest) = String.◌++◌ s (text rest)

abbrev pub is_empty : String → Bool
is_empty String.[] = true
is_empty (String.◌∷◌ c s) = false

-- `a || b` on strings
abbrev pub or_text : String → String → String
or_text String.[] b = b
or_text (String.◌∷◌ c s) b = String.◌∷◌ c s

-- `a || undefined`
abbrev pub or_undefined : String → Option String
or_undefined String.[] = none
or_undefined (String.◌∷◌ c s) = some (String.◌∷◌ c s)

-- `a ?? b`, and `a || b` where `a` may be missing
abbrev pub or_else_text : Option String → String → String
or_else_text none b = b
or_else_text (some s) b = or_text s b

abbrev pub missing_or {ℓ} : {A : Type ℓ} → Option A → A → A
missing_or none b = b
missing_or (some a) b = a

-- White space and line ends of ECMAScript.
unfoldable pub is_space : ℕ → Bool
is_space c =
    leb 9 c && leb c 13
    || nat_beq c 32
    || nat_beq c 0xa0
    || nat_beq c 0x1680
    || leb 0x2000 c && leb c 0x200a
    || nat_beq c 0x2028
    || nat_beq c 0x2029
    || nat_beq c 0x202f
    || nat_beq c 0x205f
    || nat_beq c 0x3000
    || nat_beq c 0xfeff

unfoldable pub trim_start : String → String
trim_start String.[] = ""
trim_start (String.◌∷◌ c s) = if is_space (code c) then trim_start s else String.◌∷◌ c s

unfoldable pub trim_end : String → String
trim_end String.[] = ""
trim_end (String.◌∷◌ c s) = elim (trim_end s) [
  | String.[] ↦ if is_space (code c) then "" else String.◌∷◌ c ""
  | String.◌∷◌ d r ↦ String.◌∷◌ c (String.◌∷◌ d r)
]

-- `s.trim()`
unfoldable pub trim : String → String
unfolding trim_start trim_end is_space
trim s = trim_end (trim_start s)

-- `s?.trim()`, read as a condition: the text, if there is one that is not blank
unfoldable pub trimmed : Option String → Option String
unfolding trim
trimmed none = none
trimmed (some s) = or_undefined (trim s)

-- `s.startsWith(q)`
unfoldable pub begins : String → String → Bool
begins s String.[] = true
begins String.[] (String.◌∷◌ d q) = false
begins (String.◌∷◌ c s) (String.◌∷◌ d q) = nat_beq (code c) (code d) && begins s q

-- `s.includes(q)`
unfoldable pub contains : String → String → Bool
unfolding begins
contains String.[] q = begins "" q
contains (String.◌∷◌ c s) q = begins (String.◌∷◌ c s) q || contains s q

-- The units of UTF-16.
unfoldable pub units : String → List ℕ
units String.[] = []
units (String.◌∷◌ c s) =
    if ltb (code c) 0x10000
    then code c ∷ units s
    else (0xd800 + (code c - 0x10000) / 0x400) ∷ (0xdc00 + (code c - 0x10000) % 0x400) ∷ units s

-- `s.length`
unfoldable pub size : String → ℕ
unfolding units
size s = length (units s)

-- `/[…]/.test(s)` for a class of code points
unfoldable pub some_char : (ℕ → Bool) → String → Bool
some_char p String.[] = false
some_char p (String.◌∷◌ c s) = p (code c) || some_char p s

-- Puts a character in front of the first piece.
abbrev pub extend : Char → List String → List String
extend c [] = String.◌∷◌ c "" ∷ []
extend c (p ∷ ps) = String.◌∷◌ c p ∷ ps

-- `skip` characters still belong to the separator that was found.
unfoldable pub pieces : String → ℕ → String → List String
unfolding begins
pieces sep skip String.[] = "" ∷ []
pieces sep skip (String.◌∷◌ c s) =
    let hit = nat_beq skip 0 && begins (String.◌∷◌ c s) sep in
    let rest = pieces sep (if hit then String.count sep - 1 else skip - 1) s in
    if hit then "" ∷ rest else if nat_beq skip 0 then extend c rest else rest

-- `s.split(sep)`, for a separator that is not empty
unfoldable pub split : String → String → List String
unfolding pieces
split s sep = pieces sep 0 s

-- `parts.join(sep)`
unfoldable pub join : String → List String → String
join sep [] = ""
join sep (p ∷ []) = p
join sep (p ∷ q ∷ ps) = String.◌++◌ p (String.◌++◌ sep (join sep (q ∷ ps)))

abbrev pub digit : ℕ → String
digit zero = "0"
digit (suc zero) = "1"
digit (suc (suc zero)) = "2"
digit (suc (suc (suc zero))) = "3"
digit (suc (suc (suc (suc zero)))) = "4"
digit (suc (suc (suc (suc (suc zero))))) = "5"
digit (suc (suc (suc (suc (suc (suc zero)))))) = "6"
digit (suc (suc (suc (suc (suc (suc (suc zero))))))) = "7"
digit (suc (suc (suc (suc (suc (suc (suc (suc zero)))))))) = "8"
digit other = "9"

-- The digits of a number that is below 10 ^ fuel.
unfoldable pub decimal_from : ℕ → ℕ → String
decimal_from zero n = ""
decimal_from (suc fuel) n =
    let front = decimal_from fuel (n / 10) in
    if ltb n 10 then digit n else String.◌++◌ front (digit (n % 10))

-- `${n}` for a count or an identifier: integers below 2 ^ 53 have at most 16 digits.
unfoldable pub decimal : ℕ → String
unfolding decimal_from
decimal n = decimal_from 16 n
