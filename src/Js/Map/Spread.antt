-- ===== src/Js/Map/Spread.antt =====
-- The elements that the values of a map hold, in order.
use mathlib.Core.List.Perm
use mathlib.Core.List.{Perm}
use telemetryhub.Common.{
  List, [], ◌∷◌, ◌++◌, none, some, Eq, ◌==◌, ◌≡◌, arith, Bool-cases, inl, inr,
}
use telemetryhub.Common.Perms.{perm_shift, perm_swap_front}
use telemetryhub.Js.Map.{get, put}

module _ {ℓ κ μ} {K : Type ℓ} {V : Type κ} {A : Type μ} ⦃e : Eq K⦄ (out : V → List A) where
  abbrev pub spread : List (K × V) → List A
  spread [] = []
  spread ((k, v) ∷ m) = out v ++ spread m

  -- A new key brings its value's elements.
  pub spread-put_new :
      (k : K) (v : V) (m : List (K × V))
      → get k m ≡ none
      → Perm (spread (put k v m)) (out v ++ spread m)
  unfolding get put
  spread-put_new k v [] h = Perm.refl (out v ++ [])
  spread-put_new k v ((j, w) ∷ m) h = elim (Bool-cases (j == k)) [
    | inl hit ↦ absurd (ground arith)
    | inr miss ↦ rw miss (
        Perm.trans (Perm.append_left (out w) (spread-put_new k v m (ground arith)))
          (perm_swap_front (out w) (out v) (spread m)))
  ]

  -- A value that grows by one element does so in the map.
  pub spread-put_old :
      (k : K) (v w : V) (x : A) (m : List (K × V))
      → get k m ≡ some w
      → Perm (out v) (x ∷ out w)
      → Perm (spread (put k v m)) (x ∷ spread m)
  unfolding get put
  spread-put_old k v w x [] h p = absurd (ground arith)
  spread-put_old k v w x ((j, u) ∷ m) h p = elim (Bool-cases (j == k)) [
    | inl hit ↦
        let same : u ≡ w = ground arith in
        rw (hit, same) (Perm.append_right {l₂ = x ∷ out w} (spread m) p)
    | inr miss ↦ rw miss (perm_shift x (out u) (spread-put_old k v w x m (ground arith) p))
  ]
