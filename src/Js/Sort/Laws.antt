-- ===== src/Js/Sort/Laws.antt =====
-- Sorting rearranges, and orders.
use mathlib.Core.List.Perm
use mathlib.Core.List.{Perm}
use telemetryhub.Common.{List, [], ◌∷◌, ◌≡◌, refl, ◌≢◌, arith, ◌⊎◌, inl, inr, All}
use telemetryhub.Js.Sort.{Sign, minus, nought, plus, place, sort}

Sign-cases : (s : Sign) → (s ≡ plus) ⊎ (s ≢ plus)
Sign-cases minus = inr (λ e. cc)
Sign-cases nought = inr (λ e. cc)
Sign-cases plus = inl refl

module _ {ℓ} {A : Type ℓ} (cmp : A → A → Sign) where
  place-perm : (x : A) (ys : List A) → Perm (place cmp x ys) (x ∷ ys)
  unfolding place
  place-perm x [] = Perm.refl (x ∷ [])
  place-perm x (y ∷ ys) =
      elim (cmp x y)
        as (λ s. Perm (elim s [ plus ↦ y ∷ place cmp x ys | _ ↦ x ∷ y ∷ ys ]) (x ∷ y ∷ ys)) [
          | plus ↦ Perm.trans (Perm.cons y (place-perm x ys)) (Perm.swap x y ys)
          | _ ↦ Perm.refl (x ∷ y ∷ ys)
        ]

  pub sort-perm : (xs : List A) → Perm (sort cmp xs) xs
  unfolding sort
  sort-perm [] = Perm.refl []
  sort-perm (x ∷ xs) = Perm.trans (place-perm x (sort cmp xs)) (Perm.cons x (sort-perm xs))

  -- No element must stand after a later one.
  abbrev pub IsSorted : List A → Type ℓ
  IsSorted [] = Unit
  IsSorted (x ∷ xs) = All (λ y. cmp x y ≢ plus) xs × IsSorted xs

  -- What a comparison function must satisfy to order: of two elements one may stand first, and
  -- so of three in a row.
  module _ (total : (x y : A) → cmp x y ≡ plus → cmp y x ≢ plus)
      (trans : (x y z : A) → cmp x y ≢ plus → cmp y z ≢ plus → cmp x z ≢ plus) where
    All-le :
        (x y : A) (ys : List A)
        → cmp x y ≢ plus
        → All (λ z. cmp y z ≢ plus) ys
        → All (λ z. cmp x z ≢ plus) ys
    All-le x y [] h a = tt
    All-le x y (z ∷ ys) h (p, a) = (trans x y z h p, All-le x y ys h a)

    All-place :
        (w x : A) (ys : List A)
        → cmp w x ≢ plus
        → All (λ z. cmp w z ≢ plus) ys
        → All (λ z. cmp w z ≢ plus) (place cmp x ys)
    unfolding place
    All-place w x [] h a = (h, tt)
    All-place w x (y ∷ ys) h (p, a) = elim (Sign-cases (cmp x y)) [
      | inl after ↦ ground (arith, All-place w x ys h a)
      | inr before ↦ ground arith
    ]

    place-IsSorted : (x : A) (ys : List A) → IsSorted ys → IsSorted (place cmp x ys)
    unfolding place
    place-IsSorted x [] s = (tt, tt)
    place-IsSorted x (y ∷ ys) (a, s) = elim (Sign-cases (cmp x y)) [
      | inl after ↦ ground (arith, All-place y x ys (total x y after) a, place-IsSorted x ys s)
      | inr before ↦ ground (arith, All-le x y ys before a)
    ]

    pub sort-IsSorted : (xs : List A) → IsSorted (sort cmp xs)
    unfolding sort
    sort-IsSorted [] = tt
    sort-IsSorted (x ∷ xs) = place-IsSorted x (sort cmp xs) (sort-IsSorted xs)
