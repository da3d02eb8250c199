-- ===== src/Handler/Laws.antt =====
-- What a batch of calls logs.
use mathlib.Core.List.{reverse, reverse-cons, append_assoc, append-nil}
use telemetryhub.Common.{List, [], ◌∷◌, ◌++◌, ◌≡◌, refl}
use telemetryhub.Api.Calls.{Call}
use telemetryhub.Handler.{Log, issue, calls}

-- All calls of a batch are made, in order.
pub calls-issue :
    {S : Type 0} (cs : List Call) (s : S) (log : Log S)
    → calls (issue cs s log) ≡ reverse cs ++ calls log
unfolding calls issue
calls-issue [] s log = refl
calls-issue (c ∷ cs) s log = rw (calls-issue cs s _) (simp (reverse-cons, append_assoc))

pub calls-issue_only : {S : Type 0} (cs : List Call) (s : S) → calls (issue cs s []) ≡ reverse cs
unfolding calls
calls-issue_only cs s = rw (calls-issue cs s []) (append-nil (reverse cs))
