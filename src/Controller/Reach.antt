-- ===== src/Controller/Reach.antt =====
-- internal/controller: everything that happens to a controller, in any order, from its start on.
use benchwarmer.Prelude.{
  ℕ, ◌+◌, ◌≤◌, ◌≡◌, refl, sym, ap, ◌∙◌, Bool, true, false, inl, inr, Option, none, some, arith,
  Bool-cases, List, [], ◌∷◌, String,
}
use benchwarmer.Platform.{Platform}
use benchwarmer.Config.{Config}
use benchwarmer.State.{State, stopped}
use benchwarmer.Policy.Types.{Mode, auto, pause, ai_priority}
use benchwarmer.Proxy.Gate.{
  Gate, TicketId, Event, admits, deletes, cancels, signals, receives, Cause,
}
use benchwarmer.Proxy.Gate
use benchwarmer.Controller.Types.{
  Instance, Job, stop, cleanup, already_exited, Manual, Controller, set_recovery,
}
use benchwarmer.Controller.Observe.{StopResult, Inputs}
use benchwarmer.Controller.Step.{step}
use benchwarmer.Controller.Gate.{stops, IsSafe, Same, Same-IsSafe}
use benchwarmer.Controller.Jobs.{awaited}
use benchwarmer.Controller.Results.{ends, step-IsBalanced}
use benchwarmer.Controller.Invariant.{AreCleanups, AreInTurn, step-IsSafe}
use benchwarmer.Controller.Backend.{
  Calendar, Persisted, Verdict, mode_end, with_mode, set_mode, request_manual, update_config,
  suspend, shut_down, resumed, start, restore,
}

-- A job that stops a process has ended with a result, and is no longer under way.
pub data Ends : List Job → StopResult → List Job → Type 0 where
  halted :
      {js : List Job} {r : StopResult} (i : Instance) (rest : List Job)
      → js ≡ stop i ∷ rest
      → r.cleanup ≡ false
      → Ends js r rest
  gone :
      {js : List Job} {r : StopResult} (rest : List Job)
      → js ≡ already_exited ∷ rest
      → r.cleanup ≡ false
      → Ends js r rest
  cleaned :
      {js : List Job} {r : StopResult} (i : Instance) (rest : List Job)
      → js ≡ cleanup i ∷ rest
      → r.cleanup ≡ true
      → Ends js r rest
  later :
      {js left : List Job} {r : StopResult} (j : Job) (rest : List Job)
      → js ≡ j ∷ rest
      → Ends rest r left
      → Ends js r (j ∷ left)

-- The results that a step takes in, in their order, and the jobs that are then under way.
pub data Delivers : List Job → List StopResult → List Job → Type 0 where
  none_left : {js : List Job} → Delivers js [] js
  one :
      {js mid left : List Job} {r : StopResult} {rs : List StopResult}
      → Ends js r mid
      → Delivers mid rs left
      → Delivers js (r ∷ rs) left

-- What the requests and the proxy do to the gate: only the controller opens and closes it.
pub data IsOfRequest : Event → Type 0 where
  admission : (now started : ℕ) → IsOfRequest (admits now started)
  release : (id : TicketId) → IsOfRequest (deletes id)
  cancellation : (id : TicketId) (cause : Cause) → IsOfRequest (cancels id cause)
  signal : IsOfRequest signals
  reading : IsOfRequest receives

module _ (P : Platform) where
  pub data Happens (k : Calendar) (c : Controller P) : Controller P → Type 0 where
    steps :
        (x : Inputs P) (left : List Job)
        → Delivers c.jobs x.stop_results left
        → Happens k c (step P x (record c { jobs = left }))
    request : (e : Event) → IsOfRequest e → Happens k c (record c { gate = Gate.step e c.gate })
    mode_set :
        (now : ℕ) (m : Mode) (s : String) {c' : Controller P}
        → set_mode P k now m s c ≡ some c'
        → Happens k c c'
    asked : (kind : Manual) {c' : Controller P} → request_manual P kind c ≡ some c' → Happens k c c'
    saved : (v : Verdict) (cfg : Config P) → Happens k c (update_config P v cfg c)
    suspends : Happens k c (suspend P c)
    resumes : (now : ℕ) → Happens k c (resumed P now c)
    shuts_down : Happens k c (shut_down P c)

  pub data Reaches (k : Calendar) (c : Controller P) : Controller P → Type 0 where
    here : Reaches k c c
    next : {a b : Controller P} → Reaches k c a → Happens k a b → Reaches k c b

  -- What `New` leaves: stopped, with no runtime and a gate that is shut.
  pub record IsNew (c : Controller P) : Type 0 where
    pub is_stopped : c.st ≡ stopped
    pub no_runtime : c.inst ≡ none
    pub no_jobs : c.jobs ≡ []
    pub shut : c.gate.is_open ≡ false

Ends-stops :
    (js : List Job) (r : StopResult) {left : List Job}
    → Ends js r left
    → stops js ≡ stops left + ends (r ∷ [])
Ends-stops js r (halted i rest e f) = ground arith
Ends-stops js r (gone rest e f) = ground arith
Ends-stops js r (cleaned i rest e f) = ground arith
Ends-stops js r (later j rest e more) = ground (arith, Ends-stops rest r more)

Delivers-stops :
    (js : List Job) {rs : List StopResult} {left : List Job}
    → Delivers js rs left
    → stops js ≡ stops left + ends rs
Delivers-stops js none_left = omega arith
Delivers-stops js (one {mid} {r} e more) =
    ground (arith, Ends-stops js r e, Delivers-stops mid more)

none_end : (rs : List StopResult) → ends rs ≡ 0 → AreCleanups rs
unfolding AreCleanups
none_end [] h = tt
none_end (r ∷ rs) h = ground (arith, none_end rs)

ends-AreInTurn : (s : State) (rs : List StopResult) → ends rs ≤ awaited s → AreInTurn s rs
unfolding AreInTurn
ends-AreInTurn s [] h = tt
ends-AreInTurn s (r ∷ rs) h = elim (Bool-cases r.cleanup) [
  | inl cl ↦ inl (cl, ends-AreInTurn s rs (ground arith))
  | inr st ↦ inr (ground arith, none_end rs (ground arith))
]

module _ (P : Platform) where
  -- The gate is open only while the state admits, there is an instance exactly in the states of a
  -- running runtime, and a stop of it is under way exactly while the state is preempting, and one.
  pub record IsSound (c : Controller P) : Type 0 where
    pub safe : IsSafe P c
    pub balanced : stops c.jobs ≡ awaited c.st

  step-IsSound :
      (x : Inputs P) (c : Controller P) {left : List Job}
      → Delivers c.jobs x.stop_results left
      → IsSound c
      → IsSound (step P x (record c { jobs = left }))
  step-IsSound x c {left} d h =
      let c' = record c { jobs = left } in
      let count = Delivers-stops c.jobs d in
      let turn = ends-AreInTurn c.st x.stop_results (omega (arith, h.balanced)) in
      let b = step-IsBalanced P x c' (omega (arith, h.balanced)) in
      record {
        safe =
            step-IsSafe P x c' turn
              (record { open_admits = h.safe.open_admits; live = h.safe.live });
        balanced = omega arith;
      }

  request-is_open : (e : Event) (g : Gate) → IsOfRequest e → (Gate.step e g).is_open ≡ g.is_open
  unfolding Gate.step
  request-is_open e g (admission now started) = ground arith
  request-is_open e g (release id) = ground arith
  request-is_open e g (cancellation id cause) = ground arith
  request-is_open e g signal = ground arith
  request-is_open e g reading = ground arith

  Same-IsSound : (c c' : Controller P) → Same P c c' → IsSound c → IsSound c'
  Same-IsSound c c' e h = record {
    safe = Same-IsSafe P c c' e h.safe;
    balanced = e.3 ∙ h.balanced ∙ ap awaited (sym e.1);
  }

  with_mode-Same :
      (now : ℕ) (m : Mode) (e : Option (Option ℕ × Bool)) (c c' : Controller P)
      → with_mode P now m e c ≡ some c'
      → Same P c c'
  with_mode-Same now m none c c' h = absurd (ground arith)
  with_mode-Same now m (some e) c c' h = ground arith

  set_mode-Same :
      (k : Calendar) (now : ℕ) (m : Mode) (s : String) (c c' : Controller P)
      → set_mode P k now m s c ≡ some c'
      → Same P c c'
  unfolding set_mode
  set_mode-Same k now auto s c c' h = with_mode-Same now auto (some (none, false)) c c' h
  set_mode-Same k now pause s c c' h = with_mode-Same now pause (mode_end P k now pause s c) c c' h
  set_mode-Same k now ai_priority s c c' h =
      with_mode-Same now ai_priority (mode_end P k now ai_priority s c) c c' h
  set_mode-Same k now Mode.unset s c c' h = absurd (ground arith)

  request_manual-Same :
      (kind : Manual) (c c' : Controller P) → request_manual P kind c ≡ some c' → Same P c c'
  unfolding request_manual
  request_manual-Same kind c c' h = ground arith

  update_config-Same :
      (v : Verdict) (cfg : Config P) (c : Controller P) → Same P c (update_config P v cfg c)
  unfolding update_config
  update_config-Same v cfg c = ground arith

  resumed-Same : (now : ℕ) (c : Controller P) → Same P c (resumed P now c)
  unfolding resumed
  resumed-Same now c = ground arith

  Happens-IsSound : (k : Calendar) {c c' : Controller P} → Happens P k c c' → IsSound c → IsSound c'
  unfolding suspend shut_down
  Happens-IsSound k {c} (steps x left d) h = step-IsSound x c d h
  Happens-IsSound k {c} (request e r) h =
      Same-IsSound c (record c { gate = Gate.step e c.gate })
        (request-is_open e c.gate r, refl, refl, refl) h
  Happens-IsSound k {c} {c'} (mode_set now m s e) h =
      Same-IsSound c c' (set_mode-Same k now m s c c' e) h
  Happens-IsSound k {c} {c'} (asked kind e) h =
      Same-IsSound c c' (request_manual-Same kind c c' e) h
  Happens-IsSound k {c} (saved v cfg) h =
      Same-IsSound c (update_config P v cfg c) (update_config-Same v cfg c) h
  Happens-IsSound k {c} suspends h = Same-IsSound c (suspend P c) (refl, refl, refl, refl) h
  Happens-IsSound k {c} (resumes now) h = Same-IsSound c (resumed P now c) (resumed-Same now c) h
  Happens-IsSound k {c} shuts_down h = Same-IsSound c (shut_down P c) (refl, refl, refl, refl) h

  Reaches-IsSound : (k : Calendar) {c c' : Controller P} → IsSound c → Reaches P k c c' → IsSound c'
  Reaches-IsSound k h here = h
  Reaches-IsSound k h (next r e) = Happens-IsSound k e (Reaches-IsSound k h r)

  start-Same :
      (now : ℕ) (boot : Option ℕ) (p : Option Persisted) (c : Controller P)
      → Same P c (start P now boot p c)
  unfolding start restore set_recovery
  start-Same now boot p c = ground arith

  new-IsSound : (c : Controller P) → IsNew P c → IsSound c
  new-IsSound c n = record {
    safe = record {
      open_admits = λ e. ground (arith, n.shut);
      live = ground (arith, n.is_stopped, n.no_runtime);
    };
    balanced = ground (arith, n.is_stopped, n.no_jobs);
  }

  -- From the start of a new controller on, whatever is saved, whatever the API, the requests and the
  -- system do, in whatever order, and whatever fails: the gate is open only while the state admits,
  -- there is an instance exactly in the states of a running runtime, and there is one stop of it
  -- under way while the state is preempting and none otherwise.
  pub start_stays-IsSound :
      (k : Calendar) (now : ℕ) (boot : Option ℕ) (p : Option Persisted) (new : Controller P)
      → IsNew P new
      → {c : Controller P} → Reaches P k (start P now boot p new) c
      → IsSound c
  start_stays-IsSound k now boot p new n r =
      Reaches-IsSound k
        (Same-IsSound new (start P now boot p new) (start-Same now boot p new) (new-IsSound new n))
        r
