-- ===== src/Ui/Laws.antt =====
-- What parts of a view offer.
use telemetryhub.Common.{List, [], ◌∷◌, Bool, true, false, ◌≡◌, Any, Any-append, inl, inr, refl}
use telemetryhub.Ui.{Widget, Offers, when, each}

module _ {A P : Type 0} (Q : Widget A P → Type 0) where
  pub Any-when : (b : Bool) (ws : List (Widget A P)) → Any Q (when b ws) → (b ≡ true) × Any Q ws
  unfolding when
  Any-when true ws h = (refl, h)
  Any-when false ws h = absurd h

  -- What is found in a list of parts is found in the part of one of its entries.
  pub Any-each :
      {B : Type 0} (f : B → List (Widget A P)) (xs : List B)
      → Any Q (each f xs)
      → Any (λ x. Any Q (f x)) xs
  unfolding each
  Any-each f [] h = h
  Any-each f (x ∷ xs) h = elim (Any-append Q (f x) (each f xs) h) [
    | inl l ↦ inl l
    | inr r ↦ inr (Any-each f xs r)
  ]

module _ {A P : Type 0} where
  -- What a view offers, another that equals it offers.
  pub Offers-along : {vs ws : List (Widget A P)} (a : A) → vs ≡ ws → Offers vs a → Offers ws a
  Offers-along a e h = rw (← e) h
