-- ===== src/Backend/Dedup/Window.antt =====
-- The ring of hashes as a window on the messages that it let pass.
pub mod Recent
use telemetryhub.Common.{
  ℕ, zero, suc, List, [], ◌∷◌, ◌++◌, Bool, false, ◌||◌, take, length, if◌then◌else◌, ◌≡◌, refl,
  arith, ap, ◌∙◌, sym, Bool-cases, inl, inr,
}
use telemetryhub.Backend.Dedup.{Entry, blank, new_ring, is_seen, insert, is_duplicate, reset}

-- What comes to the ring: a message with its time and its hash, or a new connection.
pub data Event : Type 0 where
  message : ℕ → ℕ → Event
  reconnect : Event

-- The ring after the events, of which the last is the first of the list.
unfoldable pub run : ℕ → ℕ → List Event → List Entry
unfolding new_ring is_duplicate reset
run ttl size [] = new_ring size
run ttl size (message now key ∷ es) = (is_duplicate ttl now key (run ttl size es)).1
run ttl size (reconnect ∷ es) = reset (run ttl size es)

-- What passed since the last connection, the last first; a message does if none of the last `size` that
-- passed is equal and young.
unfoldable pub passed : ℕ → ℕ → List Event → List Entry
unfolding is_seen
passed ttl size [] = []
passed ttl size (message now key ∷ es) =
    let before = passed ttl size es in
    if is_seen ttl now key (take size before)
    then before
    else record { hash = key; at = now } ∷ before
passed ttl size (reconnect ∷ es) = []

abbrev reversed : List Entry → List Entry
reversed [] = []
reversed (e ∷ es) = reversed es ++ e ∷ []

is_seen-append :
    (ttl now key : ℕ) (xs ys : List Entry)
    → is_seen ttl now key (xs ++ ys) ≡ (is_seen ttl now key xs || is_seen ttl now key ys)
unfolding is_seen
is_seen-append ttl now key [] ys = refl
is_seen-append ttl now key (x ∷ xs) ys = ground (arith, is_seen-append ttl now key xs ys)

is_seen-reversed :
    (ttl now key : ℕ) (xs : List Entry) → is_seen ttl now key (reversed xs) ≡ is_seen ttl now key xs
unfolding is_seen
is_seen-reversed ttl now key [] = refl
is_seen-reversed ttl now key (x ∷ xs) =
    ground
      (arith, is_seen-reversed ttl now key xs, is_seen-append ttl now key (reversed xs) (x ∷ []))

is_seen-blank : (ttl now key n k : ℕ) → is_seen ttl now key (take k (new_ring n)) ≡ false
unfolding is_seen new_ring
is_seen-blank ttl now key n zero = refl
is_seen-blank ttl now key zero (suc k) = refl
is_seen-blank ttl now key (suc n) (suc k) = ground (arith, is_seen-blank ttl now key n k)

-- The blank entries after the ones that passed are not seen.
is_seen-padded :
    (ttl now key n k : ℕ) (xs : List Entry)
    → is_seen ttl now key (take k (xs ++ new_ring n)) ≡ is_seen ttl now key (take k xs)
unfolding is_seen
is_seen-padded ttl now key n zero xs = refl
is_seen-padded ttl now key n (suc k) [] = is_seen-blank ttl now key n (suc k)
is_seen-padded ttl now key n (suc k) (x ∷ xs) = ground (arith, is_seen-padded ttl now key n k xs)

reversed-append : (xs : List Entry) (e : Entry) → reversed (xs ++ e ∷ []) ≡ e ∷ reversed xs
reversed-append [] e = refl
reversed-append (x ∷ xs) e = ap (λ r. r ++ x ∷ []) (reversed-append xs e)

length-snoc : (ys : List Entry) (y : Entry) → length (ys ++ y ∷ []) ≡ suc (length ys)
length-snoc [] y = refl
length-snoc (z ∷ ys) y = ap suc (length-snoc ys y)

length-reversed : (xs : List Entry) → length (reversed xs) ≡ length xs
length-reversed [] = refl
length-reversed (x ∷ xs) = ground (arith, length-snoc (reversed xs) x, length-reversed xs)

take-init :
    (m : ℕ) (ys zs : List Entry) (x : Entry)
    → ys ++ x ∷ [] ≡ take (suc m) zs
    → length ys ≡ m
    → ys ≡ take m zs
take-init zero [] zs x e h = refl
take-init zero (y ∷ ys) zs x e h = absurd (ground arith)
take-init (suc m) [] zs x e h = absurd (ground arith)
take-init (suc m) (y ∷ ys) [] x e h = absurd (ground arith)
take-init (suc m) (y ∷ ys) (z ∷ zs) x e h = ground (arith, take-init m ys zs x)

-- The ring is the last messages that passed, and blank before them.
abbrev Window : ℕ → List Entry → List Entry → Type 0
Window n ring acc = (reversed ring ≡ take n (acc ++ new_ring n)) × (length ring ≡ n)

Window-insert :
    (n : ℕ) (e : Entry) (ring acc : List Entry)
    → Window n ring acc
    → Window n (insert e ring) (e ∷ acc)
unfolding insert
Window-insert n e [] acc w = ground arith
Window-insert zero e (old ∷ rest) acc w = absurd (ground arith)
Window-insert (suc m) e (old ∷ rest) acc w =
    let init =
      take-init m (reversed rest) (acc ++ new_ring (suc m)) old w.0
        (length-reversed rest ∙ ground arith) in
    (reversed-append rest e ∙ ap (λ r. e ∷ r) init, ground (arith, length-snoc rest e))

Window-blank : (n : ℕ) → Window n (new_ring n) []
unfolding new_ring
Window-blank n = (blanks n ∙ sym (whole n), long n)
  where
    snoc : (m : ℕ) → new_ring m ++ blank ∷ [] ≡ blank ∷ new_ring m
    snoc zero = refl
    snoc (suc m) = ap (λ r. blank ∷ r) (snoc m)

    blanks : (m : ℕ) → reversed (new_ring m) ≡ new_ring m
    blanks zero = refl
    blanks (suc m) = ap (λ r. r ++ blank ∷ []) (blanks m) ∙ snoc m

    whole : (m : ℕ) → take m (new_ring m) ≡ new_ring m
    whole zero = refl
    whole (suc m) = ap (λ r. blank ∷ r) (whole m)

    long : (m : ℕ) → length (new_ring m) ≡ m
    long zero = refl
    long (suc m) = ap suc (long m)

reset_blank : (ring : List Entry) → reset ring ≡ new_ring (length ring)
unfolding reset new_ring
reset_blank [] = refl
reset_blank (e ∷ ring) = ap (λ r. blank ∷ r) (reset_blank ring)

is_seen-Window :
    (ttl now key n : ℕ) (ring acc : List Entry)
    → Window n ring acc
    → is_seen ttl now key ring ≡ is_seen ttl now key (take n acc)
is_seen-Window ttl now key n ring acc w =
    sym (is_seen-reversed ttl now key ring)
    ∙ ap (is_seen ttl now key) w.0
    ∙ is_seen-padded ttl now key n n acc

run-Window : (ttl size : ℕ) (es : List Event) → Window size (run ttl size es) (passed ttl size es)
unfolding run passed is_duplicate
run-Window ttl size [] = Window-blank size
run-Window ttl size (message now key ∷ es) =
    let before = run-Window ttl size es in
    let same = is_seen-Window ttl now key size (run ttl size es) (passed ttl size es) before in
    elim (Bool-cases (is_seen ttl now key (run ttl size es))) [
      | inl again ↦ rw (ran again, let_pass (sym same ∙ again)) before
      | inr first ↦
          rw (ran first, let_pass (sym same ∙ first))
            (Window-insert size (record { hash = key; at = now }) (run ttl size es)
              (passed ttl size es) before)
    ]
  where
    entry : Entry
    entry = record { hash = key; at = now }

    ran :
        {b : Bool}
        → is_seen ttl now key (run ttl size es) ≡ b
        → run ttl size (message now key ∷ es)
          ≡ (if b then run ttl size es else insert entry (run ttl size es))
    ran {b} e = ground arith

    let_pass :
        {b : Bool}
        → is_seen ttl now key (take size (passed ttl size es)) ≡ b
        → passed ttl size (message now key ∷ es)
          ≡ (if b then passed ttl size es else entry ∷ passed ttl size es)
    let_pass {b} e = ground arith
run-Window ttl size (reconnect ∷ es) =
    rw (reset_blank (run ttl size es), (run-Window ttl size es).1) (Window-blank size)

-- The ring has seen what the last messages that passed show, and keeps its size.
pub is_duplicate-run :
    (ttl size now key : ℕ) (es : List Event)
    → ((is_duplicate ttl now key (run ttl size es)).0
        ≡ is_seen ttl now key (take size (passed ttl size es)))
      × (length (run ttl size es) ≡ size)
unfolding is_duplicate
is_duplicate-run ttl size now key es =
    let w = run-Window ttl size es in
    (ground (arith, is_seen-Window ttl now key size (run ttl size es) (passed ttl size es) w), w.1)
