-- ===== src/Reorder/Laws.antt =====
-- A move exchanges two neighbours.
use mathlib.Core.List.Perm
use mathlib.Core.List.{Perm}
use telemetryhub.Common.{
  ℕ, zero, suc, ◌+◌, List, [], ◌∷◌, ◌++◌, some, Bool, true, ◌≡◌, refl, length, get_elem?, arith,
  Option-cases, Bool-cases, inl, inr, ◌<◌, ap,
}
use telemetryhub.Reorder.{Direction, up, down, find_from, find_index, swap, target, move}

module _ {ℓ} {A : Type ℓ} where
  swap-suc : (i j : ℕ) (x : A) (xs : List A) → swap (suc i) (suc j) (x ∷ xs) ≡ x ∷ swap i j xs
  unfolding swap
  swap-suc i j x xs = ground arith

  -- The list around two neighbours, and what exchanging them gives in either order.
  pub record Neighbours (i : ℕ) (xs : List A) : Type ℓ where
    pub before : List A
    pub fst : A
    pub snd : A
    pub after : List A
    pub whole : xs ≡ before ++ fst ∷ snd ∷ after
    pub swapped_down : swap i (suc i) xs ≡ before ++ snd ∷ fst ∷ after
    pub swapped_up : swap (suc i) i xs ≡ before ++ snd ∷ fst ∷ after
    pub at_fst : get_elem? xs i ≡ some fst
    pub at_snd : get_elem? xs (suc i) ≡ some snd

  pub neighbours : (i : ℕ) (xs : List A) → suc i < length xs → Neighbours i xs
  unfolding swap
  neighbours i [] h = elim h [ ]
  neighbours i (x ∷ []) h = absurd (omega arith)
  neighbours zero (x ∷ y ∷ xs) h = record {
    before = [];
    fst = x;
    snd = y;
    after = xs;
    whole = refl;
    swapped_down = refl;
    swapped_up = refl;
    at_fst = refl;
    at_snd = refl;
  }
  neighbours (suc i) (x ∷ y ∷ xs) h =
      let n = neighbours i (y ∷ xs) (omega arith) in
      record {
        before = x ∷ n.before;
        fst = n.fst;
        snd = n.snd;
        after = n.after;
        whole = ap (◌∷◌ x) n.whole;
        swapped_down = rw swap-suc (ap (◌∷◌ x) n.swapped_down);
        swapped_up = rw swap-suc (ap (◌∷◌ x) n.swapped_up);
        at_fst = n.at_fst;
        at_snd = n.at_snd;
      }

  find_from_sound :
      (p : A → Bool) (k : ℕ) (xs : List A) (n : ℕ)
      → find_from p k xs ≡ some n
      → (j : ℕ) × (n ≡ k + j) × (x : A) × (get_elem? xs j ≡ some x) × (p x ≡ true)
  unfolding find_from
  find_from_sound p k [] n h = absurd (ground arith)
  find_from_sound p k (x ∷ xs) n h = elim (Bool-cases (p x)) [
    | inl hit ↦ (0, ground arith, x, refl, hit)
    | inr miss ↦
        let (j, e, y, got, holds) = find_from_sound p (suc k) xs n (ground arith) in
        (suc j, omega arith, y, got, holds)
  ]

  find_index_sound :
      (p : A → Bool) (xs : List A) (n : ℕ)
      → find_index p xs ≡ some n
      → (x : A) × (get_elem? xs n ≡ some x) × (p x ≡ true)
  unfolding find_index
  find_index_sound p xs n h =
      let (j, e, x, got, holds) = find_from_sound p 0 xs n h in
      let same : n ≡ j = omega arith in
      let here : get_elem? xs n ≡ some x = ground arith in (x, here, holds)

  lt_of_get : (xs : List A) (i : ℕ) (x : A) → get_elem? xs i ≡ some x → i < length xs
  lt_of_get [] i x h = absurd (ground arith)
  lt_of_get (y ∷ xs) zero x h = omega arith
  lt_of_get (y ∷ xs) (suc i) x h = omega (arith, lt_of_get xs i x h)

  pub find_index_lt :
      (p : A → Bool) (xs : List A) (i : ℕ) → find_index p xs ≡ some i → i < length xs
  find_index_lt p xs i h = let (x, got, holds) = find_index_sound p xs i h in lt_of_get xs i x got

  -- The entry that is moved satisfies the test, and one of its neighbours takes its place.
  pub record Exchange (p : A → Bool) (d : Direction) (xs ys : List A) : Type ℓ where
    pub before : List A
    pub fst : A
    pub snd : A
    pub after : List A
    pub old : xs ≡ before ++ fst ∷ snd ∷ after
    pub new : ys ≡ before ++ snd ∷ fst ∷ after
    pub moved : p (elim d [ up ↦ snd | down ↦ fst ]) ≡ true

  move_at :
      (p : A → Bool) (d : Direction) (xs ys : List A) (i : ℕ) (x : A)
      → get_elem? xs i ≡ some x
      → p x ≡ true
      → find_index p xs ≡ some i
      → move p d xs ≡ some ys
      → Exchange p d xs ys
  unfolding move target
  move_at p up xs ys zero x got holds found h = absurd (ground arith)
  move_at p up xs ys (suc i) x got holds found h =
      let lt : suc i < length xs = lt_of_get xs (suc i) x got in
      let n = neighbours i xs lt in
      record {
        before = n.before;
        fst = n.fst;
        snd = n.snd;
        after = n.after;
        old = n.whole;
        new = ground (arith, n.swapped_up);
        moved = ground (arith, n.at_snd);
      }
  move_at p down xs ys i x got holds found h =
      let lt : suc i < length xs = ground arith in
      let n = neighbours i xs lt in
      record {
        before = n.before;
        fst = n.fst;
        snd = n.snd;
        after = n.after;
        old = n.whole;
        new = ground (arith, n.swapped_down);
        moved = ground (arith, n.at_fst);
      }

  -- A move that does something exchanges an entry that satisfies the test with its neighbour in
  -- that direction, and leaves the others in place.
  pub move_exchanges :
      (p : A → Bool) (d : Direction) (xs ys : List A) → move p d xs ≡ some ys → Exchange p d xs ys
  unfolding move
  move_exchanges p d xs ys h = elim (Option-cases (find_index p xs)) [
    | inl missing ↦ absurd (ground arith)
    | inr (i, found) ↦
        let (x, got, holds) = find_index_sound p xs i found in
        move_at p d xs ys i x got holds found h
  ]

  pub Exchange-perm :
      {p : A → Bool} {d : Direction} {xs ys : List A} → Exchange p d xs ys → Perm ys xs
  Exchange-perm x = rw (x.old, x.new) (Perm.append_left x.before (Perm.swap x.fst x.snd x.after))
