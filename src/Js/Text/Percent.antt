-- ===== src/Js/Text/Percent.antt =====
-- `encodeURIComponent` and `URLSearchParams`.
pub mod Laws
use Prim.Native.Char.{code}
use Prim.Native.String
use telemetryhub.Common.{
  ℕ, ◌+◌, ◌/◌, ◌%◌, String, Bool, ◌&&◌, ◌||◌, List, [], ◌∷◌, ltb, leb, nat_beq, get_elem?,
  if◌then◌else◌,
}
use telemetryhub.Js.Text.{text, missing_or, join}

abbrev hex_digits : List String
hex_digits =
    "0" ∷ "1" ∷ "2" ∷ "3" ∷ "4" ∷ "5" ∷ "6" ∷ "7" ∷ "8" ∷ "9" ∷ "A" ∷ "B" ∷ "C" ∷ "D" ∷ "E" ∷ "F"
    ∷ []

hex : ℕ → String
hex n = missing_or (get_elem? hex_digits n) "0"

percent : ℕ → String
unfolding hex
percent b = text ("%" ∷ hex (b / 16) ∷ hex (b % 16) ∷ [])

-- A code point as percent-encoded bytes of UTF-8.
pub percent_char : ℕ → String
unfolding percent text
percent_char c =
    if ltb c 0x80
    then percent c
    else if ltb c 0x800
    then text (percent (0xc0 + c / 0x40) ∷ percent (0x80 + c % 0x40) ∷ [])
    else if ltb c 0x10000
    then text (
        percent (0xe0 + c / 0x1000)
        ∷ percent (0x80 + c / 0x40 % 0x40)
        ∷ percent (0x80 + c % 0x40)
        ∷ [])
    else text (
        percent (0xf0 + c / 0x40000)
        ∷ percent (0x80 + c / 0x1000 % 0x40)
        ∷ percent (0x80 + c / 0x40 % 0x40)
        ∷ percent (0x80 + c % 0x40)
        ∷ [])

unfoldable pub is_alnum : ℕ → Bool
is_alnum c = leb b'0' c && leb c b'9' || leb b'A' c && leb c b'Z' || leb b'a' c && leb c b'z'

-- What `encodeURIComponent` leaves alone: letters, digits and - _ . ! ~ * ' ( )
unfoldable pub is_unreserved : ℕ → Bool
unfolding is_alnum
is_unreserved c =
    is_alnum c
    || nat_beq c b'-'
    || nat_beq c b'_'
    || nat_beq c b'.'
    || nat_beq c b'!'
    || nat_beq c b'~'
    || nat_beq c b'*'
    || nat_beq c 39
    || nat_beq c b'('
    || nat_beq c b')'

unfoldable pub encode_uri_component : String → String
unfolding percent_char is_unreserved
encode_uri_component String.[] = ""
encode_uri_component (String.◌∷◌ c s) =
    String.◌++◌ (if is_unreserved (code c) then String.◌∷◌ c "" else percent_char (code c))
      (encode_uri_component s)

-- What a form leaves alone: letters, digits and * - . _
is_form_safe : ℕ → Bool
unfolding is_alnum
is_form_safe c = is_alnum c || nat_beq c b'*' || nat_beq c b'-' || nat_beq c b'.' || nat_beq c b'_'

form_encode : String → String
unfolding percent_char is_form_safe
form_encode String.[] = ""
form_encode (String.◌∷◌ c s) =
    String.◌++◌
      (if is_form_safe (code c)
        then String.◌∷◌ c ""
        else if nat_beq (code c) 32
        then "+"
        else percent_char (code c))
      (form_encode s)

search_pairs : List (String × String) → List String
unfolding form_encode text
search_pairs [] = []
search_pairs ((k, v) ∷ rest) = text (form_encode k ∷ "=" ∷ form_encode v ∷ []) ∷ search_pairs rest

-- `${new URLSearchParams({ … })}`
unfoldable pub search_params : List (String × String) → String
unfolding search_pairs join
search_params fields = join "&" (search_pairs fields)
