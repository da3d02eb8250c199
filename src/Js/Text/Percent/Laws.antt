-- ===== src/Js/Text/Percent/Laws.antt =====
-- What `encodeURIComponent` leaves in a text.
use Prim.Native.Char.{code}
use Prim.Native.String
use package.text.Mathlib.TextLemmas.{nil-append, cons-append}
use telemetryhub.Common.{
  ℕ, zero, suc, ◌+◌, ◌/◌, ◌%◌, String, Bool, true, ◌&&◌, ◌||◌, List, [], ◌∷◌, ltb, nat_beq,
  get_elem?, ◌≡◌, refl, arith, Bool-cases, inl, inr, All,
}
use telemetryhub.Js.Text.{text, missing_or}
use telemetryhub.Js.Text.Percent.{
  encode_uri_component, is_unreserved, is_alnum, hex, hex_digits, percent, percent_char,
}

-- All characters pass a test.
unfoldable pub every_char : (ℕ → Bool) → String → Bool
every_char p String.[] = true
every_char p (String.◌∷◌ c s) = p (code c) && every_char p s

-- Letters, digits, - _ . ! ~ * ' ( ) and the percent sign.
abbrev pub is_safe : ℕ → Bool
is_safe c = is_unreserved c || nat_beq c b'%'

every_char-append :
    (p : ℕ → Bool) (s t : String)
    → every_char p (String.◌++◌ s t) ≡ (every_char p s && every_char p t)
unfolding every_char
every_char-append p String.[] t = rw (nil-append t) refl
every_char-append p (String.◌∷◌ c s) t =
    rw (cons-append c s t) (ground (arith, every_char-append p s t))

one_of :
    (ds : List String) (n : ℕ)
    → All (λ d. every_char is_safe d ≡ true) ds
    → every_char is_safe (missing_or (get_elem? ds n) "0") ≡ true
unfolding every_char is_unreserved is_alnum
one_of [] n a = refl
one_of (d ∷ ds) zero (p, a) = p
one_of (d ∷ ds) (suc n) (p, a) = one_of ds n a

hex_safe : (n : ℕ) → every_char is_safe (hex n) ≡ true
unfolding hex every_char is_unreserved is_alnum
hex_safe n = one_of hex_digits n (
  refl,
  (
    refl,
    (
      refl,
      (
        refl,
        (
          refl,
          (
            refl,
            (refl, (refl, (refl, (refl, (refl, (refl, (refl, (refl, (refl, (refl, tt)))))))))),
          ),
        ),
      ),
    ),
  ),
)

text_safe :
    (parts : List String)
    → All (λ s. every_char is_safe s ≡ true) parts
    → every_char is_safe (text parts) ≡ true
unfolding text every_char
text_safe [] a = refl
text_safe (s ∷ parts) (p, a) =
    ground (arith, every_char-append is_safe s (text parts), text_safe parts a)

percent_safe : (b : ℕ) → every_char is_safe (percent b) ≡ true
unfolding percent every_char is_unreserved is_alnum
percent_safe b =
    text_safe ("%" ∷ hex (b / 16) ∷ hex (b % 16) ∷ [])
      (refl, (hex_safe (b / 16), (hex_safe (b % 16), tt)))

percent_char_safe : (c : ℕ) → every_char is_safe (percent_char c) ≡ true
unfolding percent_char
percent_char_safe c = elim (Bool-cases (ltb c 0x80)) [
  | inl one ↦ rw one (percent_safe c)
  | inr more ↦ elim (Bool-cases (ltb c 0x800)) [
    | inl two ↦
        rw (more, two)
          (text_safe (percent (0xc0 + c / 0x40) ∷ percent (0x80 + c % 0x40) ∷ [])
            (percent_safe _, (percent_safe _, tt)))
    | inr above ↦ elim (Bool-cases (ltb c 0x10000)) [
      | inl three ↦
          rw (more, above, three)
            (text_safe
              (percent (0xe0 + c / 0x1000)
                ∷ percent (0x80 + c / 0x40 % 0x40)
                ∷ percent (0x80 + c % 0x40)
                ∷ [])
              (percent_safe _, (percent_safe _, (percent_safe _, tt))))
      | inr four ↦
          rw (more, above, four)
            (text_safe
              (percent (0xf0 + c / 0x40000)
                ∷ percent (0x80 + c / 0x1000 % 0x40)
                ∷ percent (0x80 + c / 0x40 % 0x40)
                ∷ percent (0x80 + c % 0x40)
                ∷ [])
              (percent_safe _, (percent_safe _, (percent_safe _, (percent_safe _, tt)))))
    ]
  ]
]

-- An encoded text has no character but letters, digits, - _ . ! ~ * ' ( ) and the percent sign: no
-- slash, question mark or number sign.
pub encode_uri_component_safe : (s : String) → every_char is_safe (encode_uri_component s) ≡ true
unfolding encode_uri_component every_char
encode_uri_component_safe String.[] = refl
encode_uri_component_safe (String.◌∷◌ c s) = elim (Bool-cases (is_unreserved (code c))) [
  | inl plain ↦ rw plain (
      ground (
        arith,
        every_char-append is_safe (String.◌∷◌ c "") (encode_uri_component s),
        encode_uri_component_safe s,
      ))
  | inr other ↦ rw other (
      ground (
        arith,
        every_char-append is_safe (percent_char (code c)) (encode_uri_component s),
        percent_char_safe (code c),
        encode_uri_component_safe s,
      ))
]
