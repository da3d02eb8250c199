-- ===== src/Common/Perms.antt =====
-- Rearrangements, by the library's `Perm`.
use mathlib.Core.List.Perm
use mathlib.Core.List.{List, ◌∷◌, ◌++◌, Perm, perm_append_comm, perm_middle, append_assoc}
use mathlib.Core.List.{Permᴰ, Perm-prop}
use mathlib.Core.Logic.{∥∥₁_elim}
use mathlib.Core.Path.{◌≡◌, refl}
use mathlib.Core.List.{[], map}

module _ {ℓ} {A : Type ℓ} where
  pub perm_of_eq : {xs ys : List A} → xs ≡ ys → Perm xs ys
  perm_of_eq {xs} e = rw (← e) (Perm.refl xs)

  -- What is put in front of the right part stands in front of the whole.
  pub perm_shift :
      (x : A) (ws : List A) {xs ys : List A} → Perm xs (x ∷ ys) → Perm (ws ++ xs) (x ∷ (ws ++ ys))
  perm_shift x ws {xs} {ys} p = Perm.trans (Perm.append_left ws p) (perm_middle ws ys)

  -- Two parts in front change places.
  pub perm_swap_front : (xs ys zs : List A) → Perm (xs ++ (ys ++ zs)) (ys ++ (xs ++ zs))
  perm_swap_front xs ys zs =
      rw (← append_assoc, ← append_assoc) (Perm.append_right zs (perm_append_comm xs ys))

module _ {ℓ κ} {A : Type ℓ} {B : Type κ} (f : A → List B) where
  -- `xs.flatMap(f)`
  abbrev pub flat_map : List A → List B
  flat_map [] = []
  flat_map (x ∷ xs) = f x ++ flat_map xs

  flat_map-Permᴰ : {xs ys : List A} → Permᴰ xs ys → Perm (flat_map xs) (flat_map ys)
  flat_map-Permᴰ Permᴰ.nil = Perm.refl []
  flat_map-Permᴰ (Permᴰ.cons {b} e p) = rw e (Perm.append_left (f b) (flat_map-Permᴰ p))
  flat_map-Permᴰ (Permᴰ.swap {a} {b} {l} e e') =
      rw (← e, ← e') (perm_swap_front (f a) (f b) (flat_map l))
  flat_map-Permᴰ (Permᴰ.trans p q) = Perm.trans (flat_map-Permᴰ p) (flat_map-Permᴰ q)

  -- The order of the parts does not matter.
  pub flat_map-perm : {xs ys : List A} → Perm xs ys → Perm (flat_map xs) (flat_map ys)
  flat_map-perm p = ∥∥₁_elim p Perm-prop flat_map-Permᴰ

module _ {ℓ κ} {A : Type ℓ} {B : Type κ} where
  pub flat_map-perm_each :
      (f g : A → List B)
      → ((x : A) → Perm (f x) (g x))
      → (xs : List A) → Perm (flat_map f xs) (flat_map g xs)
  flat_map-perm_each f g h [] = Perm.refl []
  flat_map-perm_each f g h (x ∷ xs) = Perm.append (h x) (flat_map-perm_each f g h xs)

  pub flat_map-map {μ} :
      {C : Type μ} (f : A → List B) (h : C → A) (xs : List C)
      → flat_map f (map h xs) ≡ flat_map (λ x. f (h x)) xs
  flat_map-map f h [] = refl
  flat_map-map f h (x ∷ xs) = rw (flat_map-map f h xs)
