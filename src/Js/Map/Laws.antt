-- ===== src/Js/Map/Laws.antt =====
-- What reading a `Map` or a `Set` gives after a write.
use telemetryhub.Common.{
  Bool, false, ◌||◌, not, List, [], ◌∷◌, ◌++◌, some, Eq, ◌==◌, ◌≡◌, refl, if◌then◌else◌, filter,
  arith,
}
use telemetryhub.Js.Map.{get, put, includes, add, remove, of_list_from, of_list}

module _ {ℓ κ} {K : Type ℓ} {V : Type κ} ⦃e : Eq K⦄ where
  pub get-put :
      (k j : K) (v : V) (m : List (K × V))
      → get j (put k v m) ≡ (if k == j then some v else get j m)
  unfolding get put
  get-put k j v [] = refl
  get-put k j v ((i, w) ∷ m) =
      ground (arith, e.same_iff k j, e.same_iff i k, e.same_iff i j, get-put k j v m)

module _ {ℓ} {A : Type ℓ} ⦃e : Eq A⦄ where
  pub includes-append :
      (xs ys : List A) (a : A) → includes (xs ++ ys) a ≡ (includes xs a || includes ys a)
  unfolding includes
  includes-append [] ys a = refl
  includes-append (x ∷ xs) ys a = ground (arith, includes-append xs ys a)

  pub includes-filter :
      (p : A → Bool) (xs : List A) (a : A)
      → includes (filter p xs) a ≡ (if includes xs a then p a else false)
  unfolding includes filter
  includes-filter p [] a = refl
  includes-filter p (x ∷ xs) a = ground (arith, e.same_iff x a, includes-filter p xs a)

  pub includes-add : (x : A) (s : List A) (a : A) → includes (add x s) a ≡ (includes s a || x == a)
  unfolding add includes
  includes-add x s a = ground (arith, e.same_iff x a, includes-append s (x ∷ []) a)

  pub includes-remove :
      (x : A) (s : List A) (a : A)
      → includes (remove x s) a ≡ (if x == a then false else includes s a)
  unfolding remove
  includes-remove x s a =
      ground (arith, e.same_iff x a, e.same_iff a x, includes-filter (λ y. not (y == x)) s a)

  includes-of_list_from :
      (s xs : List A) (a : A) → includes (of_list_from s xs) a ≡ (includes s a || includes xs a)
  unfolding of_list_from includes
  includes-of_list_from s [] a = ground arith
  includes-of_list_from s (x ∷ xs) a =
      ground (arith, includes-of_list_from (add x s) xs a, includes-add x s a)

  pub includes-of_list : (xs : List A) (a : A) → includes (of_list xs) a ≡ includes xs a
  unfolding of_list includes
  includes-of_list xs a = includes-of_list_from [] xs a
