-- ===== src/Js/Text/Digits.antt =====
-- Decimals denote the number that they were made from: the fuel of `decimal` is enough.
use Prim.Native.Char.{code}
use Prim.Native.String
use package.text.Mathlib.TextLemmas.{nil-append, cons-append}
use telemetryhub.Common.{
  ℕ, zero, suc, ◌+◌, ◌-◌, ◌*◌, ◌/◌, ◌%◌, ◌<◌, String, ◌≡◌, arith, ltb, ap, ◌∙◌, Bool-cases, inl,
  inr, leb, ◌&&◌, true, false, refl,
}
use telemetryhub.Js.Text.{decimal, decimal_from, digit, is_empty}

-- The number that digits denote, after some that denote `acc`.
unfoldable pub value_from : ℕ → String → ℕ
value_from acc String.[] = acc
value_from acc (String.◌∷◌ c s) = value_from (acc * 10 + (code c - b'0')) s

pub value_from-append :
    (acc : ℕ) (s t : String) → value_from acc (String.◌++◌ s t) ≡ value_from (value_from acc s) t
unfolding value_from
value_from-append acc String.[] t = ap (value_from acc) (nil-append t)
value_from-append acc (String.◌∷◌ c s) t =
    rw (cons-append c s t) (value_from-append (acc * 10 + (code c - b'0')) s t)

value_from-digit : (acc n : ℕ) → n < 10 → value_from acc (digit n) ≡ acc * 10 + n
unfolding value_from
value_from-digit acc zero h = omega arith
value_from-digit acc (suc zero) h = omega arith
value_from-digit acc (suc (suc zero)) h = omega arith
value_from-digit acc (suc (suc (suc zero))) h = omega arith
value_from-digit acc (suc (suc (suc (suc zero)))) h = omega arith
value_from-digit acc (suc (suc (suc (suc (suc zero))))) h = omega arith
value_from-digit acc (suc (suc (suc (suc (suc (suc zero)))))) h = omega arith
value_from-digit acc (suc (suc (suc (suc (suc (suc (suc zero))))))) h = omega arith
value_from-digit acc (suc (suc (suc (suc (suc (suc (suc (suc zero)))))))) h = omega arith
value_from-digit acc (suc (suc (suc (suc (suc (suc (suc (suc (suc zero))))))))) h = omega arith
value_from-digit acc (suc (suc (suc (suc (suc (suc (suc (suc (suc (suc n)))))))))) h =
    absurd (omega arith)

-- 10 ^ fuel
abbrev pub bound : ℕ → ℕ
bound zero = 1
bound (suc fuel) = 10 * bound fuel

decimal_from_value : (fuel n : ℕ) → n < bound fuel → value_from 0 (decimal_from fuel n) ≡ n
unfolding decimal_from value_from
decimal_from_value zero n h = omega arith
decimal_from_value (suc fuel) n h = elim (Bool-cases (ltb n 10)) [
  | inl last ↦ rw last (value_from-digit 0 n (ground arith) ∙ omega arith)
  | inr more ↦
      let front = decimal_from fuel (n / 10) in
      rw more (
        value_from-append 0 front (digit (n % 10))
        ∙ ap (λ a. value_from a (digit (n % 10))) (decimal_from_value fuel (n / 10) (omega arith))
        ∙ value_from-digit (n / 10) (n % 10) (omega arith)
        ∙ omega arith)
]

pub decimal_value : (n : ℕ) → n < 10000000000000000 → value_from 0 (decimal n) ≡ n
unfolding decimal
decimal_value n h = decimal_from_value 16 n h

-- Whether a text has digits only, and at least one.
abbrev pub Digits : String → Type 0
Digits String.[] = Unit
Digits (String.◌∷◌ c s) = ((leb b'0' (code c) && leb (code c) b'9') ≡ true) × Digits s

abbrev pub IsDecimal : String → Type 0
IsDecimal s = (is_empty s ≡ false) × Digits s

pub append-IsDecimal : (s t : String) → Digits s → IsDecimal t → IsDecimal (String.◌++◌ s t)
append-IsDecimal String.[] t hs ht = rw (nil-append t) ht
append-IsDecimal (String.◌∷◌ c s) t hs ht =
    rw (cons-append c s t) (refl, (hs.0, (append-IsDecimal s t hs.1 ht).1))

digit-IsDecimal : (n : ℕ) → IsDecimal (digit n)
digit-IsDecimal zero = (refl, (refl, tt))
digit-IsDecimal (suc zero) = (refl, (refl, tt))
digit-IsDecimal (suc (suc zero)) = (refl, (refl, tt))
digit-IsDecimal (suc (suc (suc zero))) = (refl, (refl, tt))
digit-IsDecimal (suc (suc (suc (suc zero)))) = (refl, (refl, tt))
digit-IsDecimal (suc (suc (suc (suc (suc zero))))) = (refl, (refl, tt))
digit-IsDecimal (suc (suc (suc (suc (suc (suc zero)))))) = (refl, (refl, tt))
digit-IsDecimal (suc (suc (suc (suc (suc (suc (suc zero))))))) = (refl, (refl, tt))
digit-IsDecimal (suc (suc (suc (suc (suc (suc (suc (suc zero)))))))) = (refl, (refl, tt))
digit-IsDecimal (suc (suc (suc (suc (suc (suc (suc (suc (suc n))))))))) = (refl, (refl, tt))

decimal_from-Digits : (fuel n : ℕ) → Digits (decimal_from fuel n)
unfolding decimal_from
decimal_from-Digits zero n = tt
decimal_from-Digits (suc fuel) n = elim (Bool-cases (ltb n 10)) [
  | inl last ↦ rw last (digit-IsDecimal n).1
  | inr more ↦
      rw more
        (append-IsDecimal (decimal_from fuel (n / 10)) (digit (n % 10))
          (decimal_from-Digits fuel (n / 10)) (digit-IsDecimal (n % 10))).1
]

pub decimal-IsDecimal : (n : ℕ) → IsDecimal (decimal n)
unfolding decimal decimal_from
decimal-IsDecimal n = elim (Bool-cases (ltb n 10)) [
  | inl last ↦ rw last (digit-IsDecimal n)
  | inr more ↦ rw more (
      append-IsDecimal (decimal_from 15 (n / 10)) (digit (n % 10)) (decimal_from-Digits 15 (n / 10))
        (digit-IsDecimal (n % 10)))
]
