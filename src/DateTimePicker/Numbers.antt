-- ===== src/DateTimePicker/Numbers.antt =====
-- The numbers in the text of the picker.
use package.text.Mathlib.TextLemmas.{append-nil}
use Prim.Native.String
use telemetryhub.Common.{
  Option, some, arith, ℕ, ◌<◌, String, ◌≡◌, refl, ltb, ap, ◌∙◌, Bool-cases, inl, inr, ◌∷◌, [],
}
use telemetryhub.Common.Int.{ℤ, pos}
use telemetryhub.Js.Text.{decimal, size, text}
use telemetryhub.Js.Text.Digits.{
  value_from, value_from-append, decimal_value, Digits, IsDecimal, append-IsDecimal,
  decimal-IsDecimal,
}
use telemetryhub.DateTimePicker.{pad, shown}

-- Zeros in front change nothing.
value_from_zeros :
    (zeros s : String)
    → value_from 0 zeros ≡ 0
    → value_from 0 (text (zeros ∷ s ∷ [])) ≡ value_from 0 s
unfolding text
value_from_zeros zeros s h =
    ap (λ t. value_from 0 (String.◌++◌ zeros t)) (append-nil s)
    ∙ value_from-append 0 zeros s
    ∙ ap (λ a. value_from a s) h

-- A number of at most 16 digits that the picker pads is denoted by the padded text.
pub pad_value : (n : ℕ) → n < 10000000000000000 → value_from 0 (pad (pos n)) ≡ n
unfolding pad shown value_from
pad_value n h =
    let read = decimal_value n h in
    elim (Bool-cases (ltb (size (decimal n)) 1)) [
      | inl blank ↦ rw blank (value_from_zeros "00" (decimal n) refl ∙ read)
      | inr some_ ↦ elim (Bool-cases (ltb (size (decimal n)) 2)) [
        | inl short ↦ rw (some_, short) (value_from_zeros "0" (decimal n) refl ∙ read)
        | inr long ↦ rw (some_, long) read
      ]
    ]

pub pad-IsDecimal : (n : ℕ) → IsDecimal (pad (pos n))
unfolding pad shown text
pad-IsDecimal n =
    let d = decimal-IsDecimal n in
    let after : (zeros : String) → Digits zeros → IsDecimal (text (zeros ∷ decimal n ∷ [])) =
      λ zeros h. append-IsDecimal zeros _ h (rw (append-nil (decimal n)) d) in
    elim (Bool-cases (ltb (size (decimal n)) 1)) [
      | inl blank ↦ rw blank (after "00" (refl, (refl, tt)))
      | inr some_ ↦ elim (Bool-cases (ltb (size (decimal n)) 2)) [
        | inl short ↦ rw (some_, short) (after "0" (refl, tt))
        | inr long ↦ rw (some_, long) d
      ]
    ]

-- Integers from here on are not all exact in JavaScript.
abbrev pub max_safe : ℕ
max_safe = 9007199254740992

-- `Number` reads digits as the number that they denote, if it is small enough.
abbrev pub ReadsDigits : (String → Option ℤ) → Type 0
ReadsDigits number =
    (s : String) (n : ℕ) → IsDecimal s → value_from 0 s ≡ n → n < max_safe → number s ≡ some (pos n)

module _ (number : String → Option ℤ) (reads : ReadsDigits number) where
  pub decimal_read : (n : ℕ) → n < max_safe → number (decimal n) ≡ some (pos n)
  decimal_read n h = reads (decimal n) n (decimal-IsDecimal n) (decimal_value n (omega arith)) h

  pub pad_read : (n : ℕ) → n < max_safe → number (pad (pos n)) ≡ some (pos n)
  pad_read n h = reads (pad (pos n)) n (pad-IsDecimal n) (pad_value n (omega arith)) h
