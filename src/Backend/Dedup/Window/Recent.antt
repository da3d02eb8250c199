-- ===== src/Backend/Dedup/Window/Recent.antt =====
-- Which messages are dropped.
use telemetryhub.Common.{
  ℕ, zero, suc, ◌-◌, ◌<◌, List, [], ◌∷◌, Bool, true, false, not, ◌&&◌, nat_beq, ltb, take, length,
  if◌then◌else◌, ◌≡◌, ◌≢◌, ◌↔◌, ◌∙◌, sym, refl, arith, Any, Bool-cases, inl, inr,
}
use telemetryhub.Backend.Dedup.{Entry, is_seen, is_duplicate}
use telemetryhub.Backend.Dedup.Window.{Event, message, reconnect, run, passed, is_duplicate-run}

-- A message that comes now has the hash of an earlier one that is younger than the TTL; the hash 0 counts for none.
abbrev pub Repeats : ℕ → ℕ → ℕ → Entry → Type 0
Repeats ttl now key e = (e.hash ≡ key) × (key ≢ 0) × (now - e.at < ttl)

-- What the events, the last one first, let pass since the last connection, the last one first: a message passes if
-- it repeats none of the last ones that passed, of a given number.
pub data Passed (ttl size : ℕ) : List Event → List Entry → Type 0 where
  nothing : Passed ttl size [] []
  passes :
      {es : List Event} {before : List Entry} (now key : ℕ)
      → Passed ttl size es before
      → ¬ Any (Repeats ttl now key) (take size before)
      → Passed ttl size (message now key ∷ es) (record { hash = key; at = now } ∷ before)
  drops :
      {es : List Event} {before : List Entry} (now key : ℕ)
      → Passed ttl size es before
      → Any (Repeats ttl now key) (take size before)
      → Passed ttl size (message now key ∷ es) before
  connects : {es : List Event} → Passed ttl size (reconnect ∷ es) []

is_seen-Any :
    (ttl now key : ℕ) (es : List Entry)
    → (is_seen ttl now key es ≡ true) ↔ Any (Repeats ttl now key) es
unfolding is_seen
is_seen-Any ttl now key [] = (λ h. absurd (ground arith), λ h. absurd h)
is_seen-Any ttl now key (e ∷ es) =
    let rest = is_seen-Any ttl now key es in
    elim (Bool-cases (not (nat_beq e.hash 0) && nat_beq e.hash key && ltb (now - e.at) ttl)) [
      | inl here ↦ (λ h. inl (ground arith), λ h. ground arith)
      | inr away ↦ (
        λ h. inr (rest.0 (ground arith)),
        λ h. elim h [
          | inl repeated ↦ absurd (ground arith)
          | inr later ↦ ground (arith, rest.1 later)
        ],
      )
    ]

clash : true ≡ false → ⊥
clash e = absurd (ground arith)

passed-Passed : (ttl size : ℕ) (es : List Event) → Passed ttl size es (passed ttl size es)
unfolding passed
passed-Passed ttl size [] = nothing
passed-Passed ttl size (message now key ∷ es) =
    by_seen (passed-Passed ttl size es) (is_seen ttl now key (take size (passed ttl size es))) refl
  where
    by_seen :
        Passed ttl size es (passed ttl size es)
        → (b : Bool) → is_seen ttl now key (take size (passed ttl size es)) ≡ b
        → Passed ttl size
            (message now key ∷ es)
            (if b then passed ttl size es else record { hash = key; at = now } ∷ passed ttl size es)
    by_seen p true seen = drops now key p ((is_seen-Any ttl now key _).0 seen)
    by_seen p false unseen =
        passes now key p (λ repeated. clash (sym ((is_seen-Any ttl now key _).1 repeated) ∙ unseen))
passed-Passed ttl size (reconnect ∷ es) = connects

-- After any messages and new connections, of what passed since the last connection: a message is dropped exactly if
-- it has the hash, which is not 0, of one of the last that passed, as many as the ring has entries, and that one is
-- younger than the TTL; and the ring keeps its size.
pub is_duplicate_lem :
    (ttl size now key : ℕ) (es : List Event)
    → (before : List Entry) × Passed ttl size es before
      × (((is_duplicate ttl now key (run ttl size es)).0 ≡ true)
          ↔ Any (Repeats ttl now key) (take size before))
      × (length (run ttl size es) ≡ size)
is_duplicate_lem ttl size now key es =
    let seen = is_duplicate-run ttl size now key es in
    let before = passed ttl size es in
    let any = is_seen-Any ttl now key (take size before) in
    (
      before,
      passed-Passed ttl size es,
      (λ h. any.0 (sym seen.0 ∙ h), λ h. seen.0 ∙ any.1 h),
      seen.1,
    )

-- After a new connection no message is dropped: what the broker sends again on it is stored again.
redelivered :
    (ttl size now key : ℕ) (es : List Event)
    → (is_duplicate ttl now key (run ttl size (reconnect ∷ es))).0 ≡ false
unfolding passed is_seen
redelivered ttl size now key es =
    (is_duplicate-run ttl size now key (reconnect ∷ es)).0 ∙ none_left size
  where
    none_left : (n : ℕ) → is_seen ttl now key (take n []) ≡ false
    none_left zero = refl
    none_left (suc n) = refl
