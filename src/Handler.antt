-- ===== src/Handler.antt =====
-- How an event handler of a component runs. It reads and sets the component's state of type S, calls
-- the server, and shows its effects in a log, newest first, each with the state in which it happened.
-- While a call is awaited other handlers may change the state: the environment says how. What the
-- server replies, what others do and what the user confirms may depend on all that was logged.
pub mod Laws
use telemetryhub.Common.{
  ℕ, String, List, [], ◌∷◌, Option, none, some, Bool, true, false, if◌then◌else◌,
}
use telemetryhub.Api.Types.{Device, User, Blob}
use telemetryhub.Api.Calls.{Call, Answer}
use telemetryhub.Api.Replies.{Result, ok, err, Fetched, settle, both, both_ok, forget}

pub data Event : Type 0 where
  called : Call → Event
  -- `alert`, `confirm`, `router.push`
  alerted asked pushed : String → Event
  -- the callbacks that a component gets from its parent
  updated_device : Device → Event
  deleted_device changed_renames changed_fields : Event
  logged_in : String → User → Event
  logged_out : Event
  -- a download under a file name
  saved : String → Blob → Event

module _ (S : Type 0) where
  abbrev pub Log : Type 0
  Log = List (Event × S)

  pub record Env : Type 0 where
    pub reply : Log → (c : Call) → Fetched (Answer c)
    pub meanwhile : Log → S → S
    pub consent : Log → Bool

  pub record World : Type 0 where
    pub state : S
    pub log : Log

  abbrev pub M : Type 0 → Type 0
  M A = Env → World → Result A × World

module _ {S : Type 0} where
  abbrev pub pure : {A : Type 0} → A → M S A
  pure a env w = (ok a, w)

  infixl 5 ◌>>=◌ ◌>>◌
  abbrev pub ◌>>=◌ : {A B : Type 0} → M S A → (A → M S B) → M S B
  ◌>>=◌ m f env w = let p = m env w in elim p.0 [ ok a ↦ f a env p.1 | err e ↦ (err e, p.1) ]

  abbrev pub ◌>>◌ : {B : Type 0} → M S (Unit {0}) → M S B → M S B
  ◌>>◌ m k env w = let p = m env w in elim p.0 [ ok a ↦ k env p.1 | err e ↦ (err e, p.1) ]

  -- `setX(…)`, with the update as a function of the state
  abbrev pub modify : (S → S) → M S (Unit {0})
  modify f env w = (ok tt, record w { state = f w.state })

  abbrev pub emit : Event → M S (Unit {0})
  emit e env w = (ok tt, record w { log = (e, w.state) ∷ w.log })

  -- `confirm(message)`
  abbrev pub confirm : String → M S Bool
  confirm message env w =
      let log' = (asked message, w.state) ∷ w.log in
      (ok (env.consent log'), record w { log = log' })

  -- `await f(…)` for a function of api.ts
  abbrev pub call : (c : Call) → M S (Answer c)
  call c env w =
      let log' = (called c, w.state) ∷ w.log in
      (settle c (env.reply log' c), record { state = env.meanwhile log' w.state; log = log' })

  -- The log once all calls of a list are made.
  unfoldable pub issue : List Call → S → Log S → Log S
  issue [] s log = log
  issue (c ∷ cs) s log = issue cs s ((called c, s) ∷ log)

  -- Whether all of them succeed.
  unfoldable pub outcome : Env S → List Call → S → Log S → Result (Unit {0})
  outcome env [] s log = ok tt
  outcome env (c ∷ cs) s log =
      both_ok (forget (settle c (env.reply ((called c, s) ∷ log) c)))
        (outcome env cs s ((called c, s) ∷ log))

  -- `await Promise.all(xs.map((x) => f(x)))`: all calls are made, then they are awaited together.
  abbrev pub call_all : List Call → M S (Unit {0})
  call_all cs env w =
      let log' = issue cs w.state w.log in
      (outcome env cs w.state w.log, record { state = env.meanwhile log' w.state; log = log' })

  -- `await Promise.all([f(), g()])`
  abbrev pub call_both : (c d : Call) → M S (Answer c × Answer d)
  call_both c d env w =
      let log₁ = (called c, w.state) ∷ w.log in
      let log₂ = (called d, w.state) ∷ log₁ in
      (
        both (settle c (env.reply log₁ c)) (settle d (env.reply log₂ d)),
        record { state = env.meanwhile log₂ w.state; log = log₂ },
      )

  -- `try { m } catch (e) { h(e.message) }`
  abbrev pub try_catch : M S (Unit {0}) → (String → M S (Unit {0})) → M S (Unit {0})
  try_catch m h env w = let p = m env w in elim p.0 [ ok a ↦ (ok tt, p.1) | err e ↦ h e env p.1 ]

  -- `try { m } finally { f }`, where f cannot throw
  abbrev pub finally : M S (Unit {0}) → M S (Unit {0}) → M S (Unit {0})
  finally m f env w = let p = m env w in (p.0, (f env p.1).1)

  -- `if (!b) return; m`
  abbrev pub only_if : Bool → M S (Unit {0}) → M S (Unit {0})
  only_if b m env w = if b then m env w else (ok tt, w)

  -- Runs a handler from a state, with nothing logged yet.
  abbrev pub run : {A : Type 0} → M S A → Env S → S → World S
  run m env s = (m env (record { state = s; log = [] })).1

-- The calls in a log, newest first.
unfoldable pub calls : {S : Type 0} → List (Event × S) → List Call
calls [] = []
calls ((called c, s) ∷ log) = c ∷ calls log
calls (_ ∷ log) = calls log

-- The effects in a log, newest first, without the states.
unfoldable pub events : {S : Type 0} → List (Event × S) → List Event
events [] = []
events ((e, s) ∷ log) = e ∷ events log
