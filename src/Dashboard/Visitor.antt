-- ===== src/Dashboard/Visitor.antt =====
-- What the dashboard offers a user who is no administrator.
use telemetryhub.Common.{
  String, ◌∙◌, List, [], ◌∷◌, Option, Bool, false, ◌≡◌, arith, inl, inr, Any-append,
}
use telemetryhub.Api.Types.{DeviceGroup}
use telemetryhub.Ui.{Offers, Gives, Contains, IsChild, when, spinner}
use telemetryhub.Dashboard.{Page, Shown, View, waiting, loading, no_devices, sections, view}
use telemetryhub.Dashboard.Markup.{
  Action, Element, header, render, page, section_elements, section_props,
}
use telemetryhub.Common.Int.{ℤ}
use telemetryhub.DeviceSection.{Title}
use telemetryhub.DeviceSection.View.{CardProps, CardAction, Callback, section_view, card_view}
use telemetryhub.DeviceSection.Visitor.{Reach, section_visitor, card_visitor, section-Contains}

elements-offer :
    (b : Bool) (gs : List DeviceGroup) (ss : List Shown) (a : Action)
    → ¬ (Offers (section_elements b gs ss) a)
unfolding section_elements
elements-offer b gs [] a h = h
elements-offer b gs (s ∷ ss) a (inl h) = h
elements-offer b gs (s ∷ ss) a (inr h) = elements-offer b gs ss a h

elements-Contains :
    (b : Bool) (gs : List DeviceGroup) (ss : List Shown) (e : Element)
    → Contains (section_elements b gs ss) e
    → e.props.is_admin ≡ b
unfolding section_elements section_props
elements-Contains b gs [] e h = absurd h
elements-Contains b gs (s ∷ ss) e (inl h) = ground arith
elements-Contains b gs (s ∷ ss) e (inr h) = elements-Contains b gs ss e h

header-offer : (p : Page) (a : Action) → ¬ (Offers (header false p) a)
unfolding header when
header-offer p a h = ground arith

header-Contains : (b : Bool) (p : Page) (e : Element) → ¬ (Contains (header b p) e)
unfolding header when
header-Contains b p e h = ground arith

render-offer : (p : Page) (v : View) (a : Action) → ¬ (Offers (render false p v) a)
unfolding render
render-offer p waiting a h = ground arith
render-offer p loading a h =
    ground (arith, Any-append (Gives a) (header false p) (spinner ∷ []) h, header-offer p a)
render-offer p no_devices a h =
    ground (arith, Any-append (Gives a) (header false p) _ h, header-offer p a)
render-offer p (sections ss) a h = elim (Any-append (Gives a) (header false p) _ h) [
  | inl l ↦ header-offer p a l
  | inr r ↦ elements-offer false p.groups ss a r
]

render-Contains :
    (b : Bool) (p : Page) (v : View) (e : Element)
    → Contains (render b p v) e
    → e.props.is_admin ≡ b
unfolding render
render-Contains b p waiting e h = ground arith
render-Contains b p loading e h =
    absurd
      (ground (arith, Any-append (IsChild e) (header b p) (spinner ∷ []) h, header-Contains b p e))
render-Contains b p no_devices e h =
    absurd (ground (arith, Any-append (IsChild e) (header b p) _ h, header-Contains b p e))
render-Contains b p (sections ss) e h = elim (Any-append (IsChild e) (header b p) _ h) [
  | inl l ↦ absurd (header-Contains b p e l)
  | inr r ↦ elements-Contains b p.groups ss e r
]

-- The dashboard of a user who is no administrator has no control beside the links to the devices: the
-- page offers none; whatever the user does in one of its sections calls no handler of the page; and no
-- card in a section offers a control.
pub dashboard_visitor :
    (auth_loading has_user : Bool) (p : Page)
    → ((a : Action) → ¬ (Offers (page auth_loading has_user false p) a))
      × ((e : Element) (s : Title) (called : List Callback)
          → Contains (page auth_loading has_user false p) e
          → Reach e.props s called
          → (called ≡ [])
            × ((c : CardProps) (now : ℤ) (seen : Option ℤ) (t : String) (b : Bool) (a : CardAction)
                → Contains (section_view e.props s) c
                → ¬ (Offers (card_view now seen t c b) a)))
unfolding page
dashboard_visitor auth_loading has_user p = (
  render-offer p (view auth_loading has_user p),
  λ e s called inside r.
      let visitor = render-Contains false p (view auth_loading has_user p) e inside in
      (
        (section_visitor r visitor).0,
        λ c now seen t b a m.
            card_visitor now seen t c b a (section-Contains e.props s c m ∙ visitor),
      ),
)
