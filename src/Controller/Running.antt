-- ===== src/Controller/Running.antt =====
-- internal/controller/step.go: acting on a decision keeps the gate and the runtime in line with the
-- state, and so does every step.
use benchwarmer.Prelude.{
  ℕ, ◌≡◌, refl, ap, ◌∙◌, Bool, true, false, Option, none, some, arith, if◌then◌else◌, any, ltb,
}
use benchwarmer.Platform.{Platform}
use benchwarmer.State.{
  State, stopped, cooldown, loading, ready, busy, draining, preempting, suppressed, disabled, error,
  unset, admitting, runtime_running, can_transition, eqb, idle,
}
use benchwarmer.Policy.Types.{Action, drain, preempt, Decision}
use benchwarmer.Proxy.Gate.{open_gate, signal}
use benchwarmer.Controller.Types.{Instance, Controller, transition}
use benchwarmer.Controller.Stop.{close_gate, force_close, begin_stop}
use benchwarmer.Controller.Load.{load_failed, started, to_stopped, start_load}
use benchwarmer.Controller.Act.{
  begin_drain, serve, start_drain, act_loaded, act_draining, maybe_grace_expired, act, shorten,
  keep_draining, act_idle, act_loading, act_in,
}
use benchwarmer.Controller.Gate.{
  IsSafe, Same, Same-IsSafe, begin_stop-IsSafe, error-IsSafe, force_close-Same, close_gate-shut,
}

module _ (P : Platform) where
  abbrev IsIdle : State → Type 0
  IsIdle s = any (eqb s) idle ≡ true

  idle_transition-IsSafe :
      (to : State) (c : Controller P)
      → IsIdle c.st
      → IsIdle to
      → IsSafe P c
      → IsSafe P (transition P to c).0
  unfolding transition can_transition
  idle_transition-IsSafe to c i j h = ground arith

  start_failed-IsSafe :
      (now : ℕ) (c : Controller P) → c.st ≡ stopped → IsSafe P c → IsSafe P (load_failed P now c)
  unfolding load_failed can_transition
  start_failed-IsSafe now c s h =
      error-IsSafe P now c c (ground arith, refl, ground arith) (ground arith)

  start_works-IsSafe :
      (now : ℕ) (i : Instance) (c : Controller P)
      → c.st ≡ stopped
      → IsSafe P c
      → IsSafe P (transition P loading (record c { inst = some i; load_start = now })).0
  unfolding transition can_transition
  start_works-IsSafe now i c s h = ground arith

  started-IsSafe :
      (now : ℕ) (result : Option Instance) (c : Controller P)
      → c.st ≡ stopped
      → IsSafe P c
      → IsSafe P (started P now result c)
  unfolding started
  started-IsSafe now none c s h = start_failed-IsSafe now c s h
  started-IsSafe now (some i) c s h = ground (arith, start_works-IsSafe now i c s h)

  to_stopped_lem :
      (c : Controller P)
      → IsIdle c.st
      → IsSafe P c
      → IsSafe P (to_stopped P c).0 × ((to_stopped P c).0.st ≡ stopped)
  unfolding to_stopped transition can_transition
  to_stopped_lem c i h = (ground arith, ground arith)

  start_load-IsSafe :
      (now : ℕ) (result : Option Instance) (c : Controller P)
      → IsIdle c.st
      → IsSafe P c
      → IsSafe P (start_load P now result c)
  unfolding start_load
  start_load-IsSafe now result c i h =
      let (safe, st) = to_stopped_lem c i h in
      let c' = (to_stopped P c).0 in
      ground (
        arith,
        started-IsSafe now result (record c' { baseline = c'.gpu.vram_used_mib }) st (ground arith),
      )

  force_stop-IsSafe :
      (d : Decision) (c : Controller P)
      → runtime_running c.st ≡ true
      → IsSafe P c
      → IsSafe P (begin_stop P d (force_close P c))
  force_stop-IsSafe d c r h =
      let same = force_close-Same P c in
      begin_stop-IsSafe P d (force_close P c) (ap runtime_running same.1 ∙ r)
        (Same-IsSafe P c (force_close P c) same h)

  closed-IsSafe : (d : Decision) (c : Controller P) → IsSafe P c → IsSafe P (close_gate P d c).0
  closed-IsSafe d c h = ground (arith, close_gate-shut P d c)

  act_preempt-IsSafe :
      (d : Decision) (c : Controller P) (cut : Bool)
      → admitting c.st ≡ true
      → IsSafe P c
      → let c' = (close_gate P d c).0 in
        IsSafe P (begin_stop P d (if cut then force_close P c' else c'))
  act_preempt-IsSafe d c true a h =
      force_stop-IsSafe d (close_gate P d c).0 (ground (arith, close_gate-shut P d c))
        (closed-IsSafe d c h)
  act_preempt-IsSafe d c false a h =
      begin_stop-IsSafe P d (close_gate P d c).0 (ground (arith, close_gate-shut P d c))
        (closed-IsSafe d c h)

  begin_drain-IsSafe :
      (now : ℕ) (d : Decision) (c : Controller P)
      → admitting c.st ≡ true
      → c.gate.is_open ≡ false
      → IsSafe P c
      → IsSafe P (begin_drain P now d c)
  unfolding begin_drain transition can_transition
  begin_drain-IsSafe now d c a o h = ground arith

  serve-IsSafe : (c : Controller P) → admitting c.st ≡ true → IsSafe P c → IsSafe P (serve P c)
  unfolding serve open_gate signal transition can_transition
  serve-IsSafe c a h = ground arith

  act_drain-IsSafe :
      (now : ℕ) (d : Decision) (c : Controller P)
      → admitting c.st ≡ true
      → IsSafe P c
      → IsSafe P (start_drain P now d c)
  unfolding start_drain
  act_drain-IsSafe now d c a h =
      let c' = (close_gate P d c).0 in
      let (shut, st, inst) = close_gate-shut P d c in
      let still : admitting c'.st ≡ true = ap admitting st ∙ a in
      ground (
        arith,
        begin_drain-IsSafe now d c' still shut (closed-IsSafe d c h),
        act_preempt-IsSafe d c false a h,
      )

  act_loaded-IsSafe :
      (now : ℕ) (d : Decision) (a : Action) (c : Controller P)
      → admitting c.st ≡ true
      → IsSafe P c
      → IsSafe P (act_loaded P now d a c)
  unfolding act_loaded
  act_loaded-IsSafe now d preempt c a h = act_preempt-IsSafe d c (ltb 0 (close_gate P d c).1) a h
  act_loaded-IsSafe now d drain c a h = act_drain-IsSafe now d c a h
  act_loaded-IsSafe now d _ c a h = serve-IsSafe c a h

  pub shorten-Same : (d : Decision) (c : Controller P) → Same P c (shorten P d c)
  unfolding shorten
  shorten-Same d c = ground arith

  grace_expired-IsSafe :
      (now : ℕ) (c : Controller P)
      → runtime_running c.st ≡ true
      → IsSafe P c
      → IsSafe P (maybe_grace_expired P now c)
  unfolding maybe_grace_expired
  grace_expired-IsSafe now c r h = ground (arith, force_stop-IsSafe c.yield c r h)

  keep_draining-IsSafe :
      (now : ℕ) (d : Decision) (a : Action) (c : Controller P)
      → runtime_running c.st ≡ true
      → IsSafe P c
      → IsSafe P (keep_draining P now d a c)
  unfolding keep_draining
  keep_draining-IsSafe now d preempt c r h = force_stop-IsSafe d c r h
  keep_draining-IsSafe now d drain c r h =
      let same = shorten-Same d c in
      grace_expired-IsSafe now (shorten P d c) (ap runtime_running same.1 ∙ r)
        (Same-IsSafe P c (shorten P d c) same h)
  keep_draining-IsSafe now d _ c r h = grace_expired-IsSafe now c r h

  act_draining-IsSafe :
      (now : ℕ) (d : Decision) (c : Controller P)
      → runtime_running c.st ≡ true
      → IsSafe P c
      → IsSafe P (act_draining P now d c)
  unfolding act_draining
  act_draining-IsSafe now d c r h =
      ground (arith, begin_stop-IsSafe P c.yield c r h, keep_draining-IsSafe now d d.action c r h)

  act_idle-IsSafe :
      (now : ℕ) (result : Option Instance) (d : Decision) (c : Controller P)
      → IsIdle c.st
      → IsIdle d.idle_state
      → IsSafe P c
      → IsSafe P (act_idle P now result d c)
  unfolding act_idle
  act_idle-IsSafe now result d c s i h =
      ground
        (arith, start_load-IsSafe now result c s h, idle_transition-IsSafe d.idle_state c s i h)

  act_loading-IsSafe :
      (d : Decision) (c : Controller P) → c.st ≡ loading → IsSafe P c → IsSafe P (act_loading P d c)
  unfolding act_loading
  act_loading-IsSafe d c s h =
      let (shut, st, inst) = close_gate-shut P d c in
      ground (
        arith,
        begin_stop-IsSafe P d (close_gate P d c).0 (ap runtime_running (st ∙ s))
            (closed-IsSafe d c h),
      )

  act_in-IsSafe :
      (s : State) (now : ℕ) (result : Option Instance) (d : Decision) (c : Controller P)
      → c.st ≡ s
      → IsIdle d.idle_state
      → IsSafe P c
      → IsSafe P (act_in P s now result d c)
  unfolding act_in
  act_in-IsSafe stopped now result d c e i h =
      act_idle-IsSafe now result d c (ap (λ t. any (eqb t) idle) e) i h
  act_in-IsSafe cooldown now result d c e i h =
      act_idle-IsSafe now result d c (ap (λ t. any (eqb t) idle) e) i h
  act_in-IsSafe suppressed now result d c e i h =
      act_idle-IsSafe now result d c (ap (λ t. any (eqb t) idle) e) i h
  act_in-IsSafe disabled now result d c e i h =
      act_idle-IsSafe now result d c (ap (λ t. any (eqb t) idle) e) i h
  act_in-IsSafe error now result d c e i h =
      act_idle-IsSafe now result d c (ap (λ t. any (eqb t) idle) e) i h
  act_in-IsSafe loading now result d c e i h = act_loading-IsSafe d c e h
  act_in-IsSafe ready now result d c e i h = act_loaded-IsSafe now d d.action c (ap admitting e) h
  act_in-IsSafe busy now result d c e i h = act_loaded-IsSafe now d d.action c (ap admitting e) h
  act_in-IsSafe draining now result d c e i h = act_draining-IsSafe now d c (ap runtime_running e) h
  act_in-IsSafe preempting now result d c e i h = h
  act_in-IsSafe unset now result d c e i h = h

  -- What `act` does keeps the gate open only while the state admits, and keeps an instance in the
  -- states of a running runtime alone.
  pub act-IsSafe :
      (now : ℕ) (result : Option Instance) (d : Decision) (c : Controller P)
      → any (eqb d.idle_state) idle ≡ true
      → IsSafe P c
      → IsSafe P (act P now result d c)
  unfolding act
  act-IsSafe now result d c i h = act_in-IsSafe c.st now result d c refl i h
