-- ===== src/DeviceSection/Visitor.antt =====
-- What a section and its cards let a user do who is no administrator: the states that can be reached by
-- using the controls that are shown.
use telemetryhub.Common.{
  length, String, List, [], ◌∷◌, Option, none, some, Bool, false, ◌≡◌, refl, inl, inr, arith,
}
use telemetryhub.Common.Int.{ℤ}
use telemetryhub.Api.Types.{Device}
use telemetryhub.Ui.{Offers, Contains, when, clickable, shows}
use telemetryhub.Ui.Laws.{Offers-along}
use telemetryhub.DeviceSection.{Title, start, handle_edit}
use telemetryhub.DeviceSection.View.{
  SectionProps, CardProps, Action, CardAction, Callback, section_view, perform, device_list,
  count_text, cards, card_view,
}

-- A use of an offered control, with the handlers of the parent that were called so far, newest first.
abbrev noted : Option Callback → List Callback → List Callback
noted none called = called
noted (some c) called = c ∷ called

pub data Reach (p : SectionProps) : Title → List Callback → Type 0 where
  first : Reach p (start p.group_name) []
  next :
      {s : Title} {called : List Callback} (a : Action)
      → Reach p s called
      → Offers (section_view p s) a
      → Reach p (perform p a s).0 (noted (perform p a s).1 called)

cards-offer : (p : SectionProps) (ds : List Device) (a : Action) → ¬ (Offers (cards p ds) a)
unfolding cards
cards-offer p [] a h = h
cards-offer p (d ∷ ds) a (inl h) = h
cards-offer p (d ∷ ds) a (inr h) = cards-offer p ds a h

device_list-offer : (p : SectionProps) (a : Action) → ¬ (Offers (device_list p) a)
device_list-offer p a h = ground (arith, cards-offer p p.devices a)

-- The section of a user who is no administrator and does not edit the title.
visitor_view :
    (p : SectionProps) (s : Title)
    → p.is_admin ≡ false
    → s.is_editing ≡ false
    → section_view p s
      ≡ clickable p.group_name Action.edit
        ∷ shows (count_text (length p.devices) "device")
        ∷ device_list p
unfolding section_view when
visitor_view p s visitor idle = ground arith

visitor_offered :
    (p : SectionProps) (s : Title) (a : Action)
    → p.is_admin ≡ false
    → s.is_editing ≡ false
    → Offers (section_view p s) a
    → a ≡ Action.edit
visitor_offered p s a visitor idle h =
    let o = Offers-along a (visitor_view p s visitor idle) h in
    ground (arith, device_list-offer p a)

-- Whatever a user who is no administrator does in a section that was just shown, no handler of the
-- page is called, and the title is never edited.
pub section_visitor :
    {p : SectionProps} {s : Title} {called : List Callback}
    → Reach p s called
    → p.is_admin ≡ false
    → (called ≡ []) × (s ≡ start p.group_name)
unfolding perform handle_edit
section_visitor first visitor = (refl, refl)
section_visitor {p} (next {s} a r o) visitor =
    let i = section_visitor r visitor in
    let idle : s.is_editing ≡ false = rw i.1 refl in
    let e = visitor_offered p s a visitor idle o in ground arith

-- Nor does such a user ever see the picker of a card: its button is not there.
pub card_visitor :
    (now : ℤ) (last_seen : Option ℤ) (seen_text : String) (p : CardProps) (open? : Bool)
    (a : CardAction)
    → p.is_admin ≡ false
    → ¬ (Offers (card_view now last_seen seen_text p open?) a)
unfolding card_view when
card_visitor now last_seen seen_text p open? a visitor h = ground arith

cards-Contains :
    (p : SectionProps) (ds : List Device) (c : CardProps)
    → Contains (cards p ds) c
    → c.is_admin ≡ p.is_admin
unfolding cards
cards-Contains p [] c h = absurd h
cards-Contains p (d ∷ ds) c (inl h) = ground arith
cards-Contains p (d ∷ ds) c (inr h) = cards-Contains p ds c h

-- The cards of a section are told whether the user is an administrator.
pub section-Contains :
    (p : SectionProps) (s : Title) (c : CardProps)
    → Contains (section_view p s) c
    → c.is_admin ≡ p.is_admin
unfolding section_view when
section-Contains p s c h = ground (arith, cards-Contains p p.devices c)
