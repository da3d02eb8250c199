-- ===== src/Session/Auth/Settles.antt =====
-- A session does not load for ever.
use telemetryhub.Common.{false, ◌≡◌, refl, arith, ◌⊎◌, inl, inr, Bool-cases, ◌∙◌}
use telemetryhub.Api.Types.{User}
use telemetryhub.Api.Replies.{Result, ok, err}
use telemetryhub.Session.Auth.{Auth, checked, login, logout}
use telemetryhub.Session.Auth.Reachable.{
  Step, replies, logs_in, logs_out, elsewhere, Reach, loading_while_checking,
}

-- Some steps in a row.
pub data Steps : Auth → Auth → Type 0 where
  none_ : {s : Auth} → Steps s s
  more : {s t u : Auth} → Step false s t → Steps t u → Steps s u

idle-Step : {s t : Auth} → Step false s t → s.checking ≡ false → t.checking ≡ false
unfolding checked login logout
idle-Step (replies (ok u) c) h = refl
idle-Step (replies (err m) c) h = refl
idle-Step (logs_in t u c) h = h
idle-Step (logs_out c) h = h
idle-Step (elsewhere t c) h = h

idle-Steps : {s t : Auth} → Steps s t → s.checking ≡ false → t.checking ≡ false
idle-Steps none_ h = h
idle-Steps (more a r) h = idle-Steps r (idle-Step a h)

Reach-Steps : {s t : Auth} → Reach false s → Steps s t → Reach false t
Reach-Steps r none_ = r
Reach-Steps r (more a rest) = Reach-Steps (Reach.next r a) rest

checked_idle : (a : Result User) (s : Auth) → (checked a s).checking ≡ false
unfolding checked
checked_idle (ok u) s = refl
checked_idle (err m) s = refl

-- A session that can be reached is not loading, or the reply of getMe, whatever it is, is a step after
-- which it is not loading; and whatever steps follow, it never loads again.
pub session_settles :
    {s : Auth}
    → Reach false s
    → ((s.is_loading ≡ false)
        ⊎ ((a : Result User) → Step false s (checked a s) × ((checked a s).is_loading ≡ false)))
      × ((t : Auth) → s.is_loading ≡ false → Steps s t → t.is_loading ≡ false)
session_settles {s} r =
    let e = loading_while_checking r in
    (
      elim (Bool-cases s.checking) [
        | inl waits ↦ inr (λ a.
            let step = replies a waits in
            (step, loading_while_checking (Reach.next r step) ∙ checked_idle a s))
        | inr answered ↦ inl (e ∙ answered)
      ],
      λ t idle steps.
          loading_while_checking (Reach-Steps r steps) ∙ idle-Steps steps (ground arith),
    )
