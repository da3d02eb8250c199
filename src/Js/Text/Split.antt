-- ===== src/Js/Text/Split.antt =====
-- Splitting a text at a character.
use Prim.Native.Char.{Char, code}
use Prim.Native.String
use package.text.Mathlib.TextLemmas.{nil-append, cons-append, length-cons, length-nil}
use telemetryhub.Common.{
  ◌||◌, ℕ, zero, suc, ◌/◌, ◌%◌, String, true, false, ◌≡◌, refl, [], ◌∷◌, arith, nat_beq, ltb, ap,
  ◌∙◌, Bool-cases, inl, inr,
}
use telemetryhub.Js.Text.{
  text, split, pieces, contains, begins, decimal, decimal_from, digit, is_empty,
}

-- A text without a code point.
abbrev pub Avoids : ℕ → String → Type 0
Avoids c String.[] = Unit
Avoids c (String.◌∷◌ d s) = (nat_beq (code d) c ≡ false) × Avoids c s

pub Avoids-append : (c : ℕ) (s t : String) → Avoids c s → Avoids c t → Avoids c (String.◌++◌ s t)
Avoids-append c String.[] t hs ht = rw (nil-append t) ht
Avoids-append c (String.◌∷◌ d s) t hs ht =
    rw (cons-append d s t) (hs.0, Avoids-append c s t hs.1 ht)

module _ (c : Char) where
  -- The text of one character.
  abbrev one : String
  one = String.◌∷◌ c ""

  count-one : String.count one ≡ 1
  count-one = length-cons c "" ∙ ap suc length-nil

  -- What stands before the first separator is the first piece.
  split_first :
      (a b : String)
      → Avoids (code c) a
      → split (String.◌++◌ a (String.◌∷◌ c b)) one ≡ a ∷ split b one
  unfolding split pieces begins
  split_first String.[] b h = rw (nil-append (String.◌∷◌ c b)) (ground (arith, count-one))
  split_first (String.◌∷◌ d a) b h =
      rw (cons-append d a (String.◌∷◌ c b)) (ground (arith, split_first a b h.1))

  pub split_only : (a : String) → Avoids (code c) a → split a one ≡ a ∷ []
  unfolding split pieces begins
  split_only String.[] h = refl
  split_only (String.◌∷◌ d a) h = ground (arith, split_only a h.1)

  contains_it : (a b : String) → contains (String.◌++◌ a (String.◌∷◌ c b)) one ≡ true
  unfolding contains begins
  contains_it String.[] b = rw (nil-append (String.◌∷◌ c b)) (ground arith)
  contains_it (String.◌∷◌ d a) b =
      rw (cons-append d a (String.◌∷◌ c b)) (ground (arith, contains_it a b))

  one-append : (b : String) → String.◌++◌ one b ≡ String.◌∷◌ c b
  one-append b = cons-append c "" b ∙ ap (String.◌∷◌ c) (nil-append b)

  pub split_at :
      (a b : String)
      → Avoids (code c) a
      → split (String.◌++◌ a (String.◌++◌ one b)) one ≡ a ∷ split b one
  split_at a b h = rw (one-append b) (split_first a b h)

  pub contains_at : (a b : String) → contains (String.◌++◌ a (String.◌++◌ one b)) one ≡ true
  contains_at a b = rw (one-append b) (contains_it a b)

  is_empty_cons : (a b : String) → is_empty (String.◌++◌ a (String.◌∷◌ c b)) ≡ false
  is_empty_cons String.[] b = rw (nil-append (String.◌∷◌ c b)) refl
  is_empty_cons (String.◌∷◌ d a) b = rw (cons-append d a (String.◌∷◌ c b)) refl

  pub is_empty_at : (a b : String) → is_empty (String.◌++◌ a (String.◌++◌ one b)) ≡ false
  is_empty_at a b = rw (one-append b) (is_empty_cons a b)

-- Decimals have digits only.
abbrev pub NoDigit : ℕ → Type 0
NoDigit c = (ltb c b'0' || ltb b'9' c) ≡ true

digit-Avoids : (c n : ℕ) → NoDigit c → Avoids c (digit n)
digit-Avoids c zero h = ground arith
digit-Avoids c (suc zero) h = ground arith
digit-Avoids c (suc (suc zero)) h = ground arith
digit-Avoids c (suc (suc (suc zero))) h = ground arith
digit-Avoids c (suc (suc (suc (suc zero)))) h = ground arith
digit-Avoids c (suc (suc (suc (suc (suc zero))))) h = ground arith
digit-Avoids c (suc (suc (suc (suc (suc (suc zero)))))) h = ground arith
digit-Avoids c (suc (suc (suc (suc (suc (suc (suc zero))))))) h = ground arith
digit-Avoids c (suc (suc (suc (suc (suc (suc (suc (suc zero)))))))) h = ground arith
digit-Avoids c (suc (suc (suc (suc (suc (suc (suc (suc (suc n))))))))) h = ground arith

decimal_from-Avoids : (c fuel n : ℕ) → NoDigit c → Avoids c (decimal_from fuel n)
unfolding decimal_from
decimal_from-Avoids c zero n h = tt
decimal_from-Avoids c (suc fuel) n h = elim (Bool-cases (ltb n 10)) [
  | inl last ↦ rw last (digit-Avoids c n h)
  | inr more ↦ rw more (
      Avoids-append c (decimal_from fuel (n / 10)) _ (decimal_from-Avoids c fuel (n / 10) h)
        (digit-Avoids c (n % 10) h))
]

pub decimal-Avoids : (c n : ℕ) → NoDigit c → Avoids c (decimal n)
unfolding decimal
decimal-Avoids c n h = decimal_from-Avoids c 16 n h
