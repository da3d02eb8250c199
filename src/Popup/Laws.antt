-- ===== src/Popup/Laws.antt =====
-- When a popover closes.
use telemetryhub.Common.{none, some, true, false, ◌≡◌, arith, ◌⊎◌}
use text.Mathlib.TextEquality.{eq_iff}
use telemetryhub.Popup.{Selector, Action, click_trigger, press, click, act}

-- A click outside an open selector does not close it: one step of a user that ends with the
-- popover closed is Escape or a click on the trigger.
pub act-closes :
    {Node : Type 0} (a : Action Node) (s : Selector)
    → s.open? ≡ true
    → (act a s).open? ≡ false
    → (a ≡ press "Escape") ⊎ (a ≡ click_trigger false)
unfolding act
act-closes (click_trigger true) s o h = ground arith
act-closes (click_trigger false) s o h = ground arith
act-closes (press key) s o h = ground (arith, eq_iff key "Escape")
act-closes (click none target) s o h = ground arith
act-closes (click (some inside) target) s o h = ground arith
