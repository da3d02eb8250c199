-- ===== src/Js/All.antt =====
-- What holds of all entries holds of them after an operation on the list.
use telemetryhub.Common.{
  String, List, [], ◌∷◌, ◌++◌, Option, none, some, Bool, true, ◌≡◌, filter, string_eq, arith, All,
  inl, inr, sym, ◌==◌, Bool-cases,
}
use package.text.Mathlib.TextEquality.{eq_iff}
use telemetryhub.Js.Map.{get, put, vals, includes}
use telemetryhub.Js.Sort.{Sign, sort, place}

module _ {A : Type 0} (P : A → Type 0) where
  pub All-snoc : (xs : List A) (x : A) → All P xs → P x → All P (xs ++ x ∷ [])
  All-snoc [] x h p = (p, tt)
  All-snoc (y ∷ ys) x h p = (h.0, All-snoc ys x h.1 p)

  pub All-filter : (q : A → Bool) (xs : List A) → All P xs → All P (filter q xs)
  unfolding filter
  All-filter q [] h = tt
  All-filter q (x ∷ xs) h = elim (Bool-cases (q x)) [
    | inl kept ↦ rw kept (h.0, All-filter q xs h.1)
    | inr dropped ↦ rw dropped (All-filter q xs h.1)
  ]

  All-place : (cmp : A → A → Sign) (x : A) (xs : List A) → P x → All P xs → All P (place cmp x xs)
  unfolding place
  All-place cmp x [] p h = (p, tt)
  All-place cmp x (y ∷ ys) p h = ground (arith, All-place cmp x ys p h.1)

  pub All-sort : (cmp : A → A → Sign) (xs : List A) → All P xs → All P (sort cmp xs)
  unfolding sort
  All-sort cmp [] h = tt
  All-sort cmp (x ∷ xs) h = All-place cmp x (sort cmp xs) h.0 (All-sort cmp xs h.1)

  abbrev pub Held : Option A → Type 0
  Held none = Unit
  Held (some v) = P v

  pub get-Held : (k : String) (m : List (String × A)) → All P (vals m) → Held (get k m)
  unfolding get vals
  get-Held k [] h = tt
  get-Held k ((j, w) ∷ m) h = elim (Bool-cases (j == k)) [
    | inl here ↦ rw here h.0
    | inr away ↦ rw away (get-Held k m h.1)
  ]

  pub put-All :
      (k : String) (v : A) (m : List (String × A)) → All P (vals m) → P v → All P (vals (put k v m))
  unfolding put vals
  put-All k v [] h p = (p, tt)
  put-All k v ((j, w) ∷ m) h p = ground (arith, put-All k v m h.1 p)

pub includes-All :
    (P : String → Type 0) (xs : List String) (f : String) → All P xs → includes xs f ≡ true → P f
unfolding includes
includes-All P [] f h e = absurd (ground arith)
includes-All P (x ∷ xs) f h e = elim (Bool-cases (x == f)) [
  | inl here ↦ rw (sym ((eq_iff x f).0 here)) h.0
  | inr away ↦ includes-All P xs f h.1 (ground arith)
]

pub includes_each : (xs : List String) → All (λ f. includes xs f ≡ true) xs
unfolding includes
includes_each xs = weaken xs (λ f h. h)
  where
    weaken :
        (ys : List String)
        → ((f : String) → includes ys f ≡ true → includes xs f ≡ true)
        → All (λ f. includes xs f ≡ true) ys
    weaken [] sub = tt
    weaken (y ∷ ys) sub =
        (sub y (ground (arith, eq_iff y y)), weaken ys (λ f h. sub f (ground arith)))
