-- ===== src/Controller/Jobs.antt =====
-- internal/controller/step.go: a job that stops the runtime of the state is under way exactly while
-- the state is preempting.
use benchwarmer.Prelude.{
  ℕ, ◌+◌, ◌≡◌, refl, ap, ◌∙◌, true, false, inl, inr, Option, none, some, arith, any, if◌then◌else◌,
  Bool-cases, ltb,
}
use benchwarmer.Platform.{Platform}
use benchwarmer.State.{
  State, stopped, cooldown, loading, ready, busy, draining, preempting, suppressed, disabled, error,
  unset, can_transition, eqb, idle,
}
use benchwarmer.Policy.Types.{Action, drain, preempt, Decision}
use benchwarmer.Controller.Types.{Instance, Controller, transition}
use benchwarmer.Controller.Stop.{close_gate, force_close, begin_stop}
use benchwarmer.Controller.Timing.{backoff}
use benchwarmer.Controller.Load.{load_failed, started, to_stopped, start_load}
use benchwarmer.Controller.Act.{
  begin_drain, serve, start_drain, act_loaded, maybe_grace_expired, shorten, keep_draining,
  act_draining, act_idle, act_loading, act_in, act,
}
use benchwarmer.Controller.Gate.{stops, Same, force_close-Same, backoff-Same}
use benchwarmer.Controller.Running.{shorten-Same}

-- The stops that the state waits for.
abbrev pub awaited : State → ℕ
awaited s = if eqb s preempting then 1 else 0

module _ (P : Platform) where
  -- Jobs that stop the runtime are begun and the state comes to wait for them together.
  abbrev pub KeepsPace : Controller P → Controller P → Type 0
  KeepsPace c c' = stops c'.jobs + awaited c.st ≡ stops c.jobs + awaited c'.st

  pub Same-KeepsPace : (c c' : Controller P) → Same P c c' → KeepsPace c c'
  Same-KeepsPace c c' e = rw (e.1, e.3) refl

  pub KeepsPace-trans : (a b c : Controller P) → KeepsPace a b → KeepsPace b c → KeepsPace a c
  KeepsPace-trans a b c h k = omega arith

  -- The state is not that of a runtime being stopped.
  abbrev pub Settled : Controller P → Type 0
  Settled c = eqb c.st preempting ≡ false

  begin_stop-KeepsPace :
      (d : Decision) (c : Controller P) → Settled c → KeepsPace c (begin_stop P d c)
  unfolding begin_stop can_transition
  begin_stop-KeepsPace d c s = ground arith

  pub transition-KeepsPace :
      (to : State) (c : Controller P)
      → Settled c
      → eqb to preempting ≡ false
      → KeepsPace c (transition P to c).0
  unfolding transition
  transition-KeepsPace to c s t = ground arith

  pub close_gate-jobs :
      (d : Decision) (c : Controller P)
      → let c' = (close_gate P d c).0 in (c'.st ≡ c.st) × (c'.jobs ≡ c.jobs)
  unfolding close_gate
  close_gate-jobs d c = ground arith

  force_stop-KeepsPace :
      (d : Decision) (c : Controller P) → Settled c → KeepsPace c (begin_stop P d (force_close P c))
  force_stop-KeepsPace d c s =
      let c' = force_close P c in
      let same = force_close-Same P c in
      KeepsPace-trans c c' (begin_stop P d c') (Same-KeepsPace c c' same)
        (begin_stop-KeepsPace d c' (ap (λ t. eqb t preempting) same.1 ∙ s))

  pub gate_then :
      (d : Decision) (c c' : Controller P) → KeepsPace (close_gate P d c).0 c' → KeepsPace c c'
  gate_then d c c' h = ground (arith, close_gate-jobs d c)

  gated-Settled : (d : Decision) (c : Controller P) → Settled c → Settled (close_gate P d c).0
  gated-Settled d c s = ap (λ t. eqb t preempting) (close_gate-jobs d c).0 ∙ s

  begin_drain-KeepsPace :
      (now : ℕ) (d : Decision) (c : Controller P) → Settled c → KeepsPace c (begin_drain P now d c)
  unfolding begin_drain transition
  begin_drain-KeepsPace now d c s = ground arith

  serve-KeepsPace : (c : Controller P) → Settled c → KeepsPace c (serve P c)
  unfolding serve transition
  serve-KeepsPace c s = ground arith

  start_drain-KeepsPace :
      (now : ℕ) (d : Decision) (c : Controller P) → Settled c → KeepsPace c (start_drain P now d c)
  unfolding start_drain
  start_drain-KeepsPace now d c s =
      let c' = (close_gate P d c).0 in
      let s' = gated-Settled d c s in
      gate_then d c (start_drain P now d c)
        (ground (arith, begin_stop-KeepsPace d c' s', begin_drain-KeepsPace now d c' s'))

  act_loaded-KeepsPace :
      (now : ℕ) (d : Decision) (a : Action) (c : Controller P)
      → Settled c
      → KeepsPace c (act_loaded P now d a c)
  unfolding act_loaded
  act_loaded-KeepsPace now d preempt c s =
      let c' = (close_gate P d c).0 in
      let s' = gated-Settled d c s in
      gate_then d c (act_loaded P now d preempt c) (elim (Bool-cases (ltb 0 (close_gate P d c).1)) [
        | inl cut ↦ rw cut (force_stop-KeepsPace d c' s')
        | inr whole ↦ rw whole (begin_stop-KeepsPace d c' s')
      ])
  act_loaded-KeepsPace now d drain c s = start_drain-KeepsPace now d c s
  act_loaded-KeepsPace now d _ c s = serve-KeepsPace c s

  act_loading-KeepsPace :
      (d : Decision) (c : Controller P) → Settled c → KeepsPace c (act_loading P d c)
  unfolding act_loading
  act_loading-KeepsPace d c s = ground (
    arith,
    gate_then d c (begin_stop P d (close_gate P d c).0)
        (begin_stop-KeepsPace d (close_gate P d c).0 (gated-Settled d c s)),
  )

  expired-KeepsPace :
      (now : ℕ) (c : Controller P) → Settled c → KeepsPace c (maybe_grace_expired P now c)
  unfolding maybe_grace_expired
  expired-KeepsPace now c s = ground (arith, force_stop-KeepsPace c.yield c s)

  keep_draining-KeepsPace :
      (now : ℕ) (d : Decision) (a : Action) (c : Controller P)
      → Settled c
      → KeepsPace c (keep_draining P now d a c)
  unfolding keep_draining
  keep_draining-KeepsPace now d preempt c s = force_stop-KeepsPace d c s
  keep_draining-KeepsPace now d drain c s =
      let c' = shorten P d c in
      let same = shorten-Same P d c in
      KeepsPace-trans c c' (maybe_grace_expired P now c') (Same-KeepsPace c c' same)
        (expired-KeepsPace now c' (ap (λ t. eqb t preempting) same.1 ∙ s))
  keep_draining-KeepsPace now d _ c s = expired-KeepsPace now c s

  act_draining-KeepsPace :
      (now : ℕ) (d : Decision) (c : Controller P) → Settled c → KeepsPace c (act_draining P now d c)
  unfolding act_draining
  act_draining-KeepsPace now d c s =
      ground (arith, begin_stop-KeepsPace c.yield c s, keep_draining-KeepsPace now d d.action c s)

  pub load_failed-KeepsPace :
      (now : ℕ) (c : Controller P) → Settled c → KeepsPace c (load_failed P now c)
  unfolding load_failed
  load_failed-KeepsPace now c s =
      let c' = backoff P now c in
      let same = backoff-Same P now c in
      KeepsPace-trans c c' (load_failed P now c) (Same-KeepsPace c c' same)
        (transition-KeepsPace error c' (ap (λ t. eqb t preempting) same.1 ∙ s) refl)

  started-KeepsPace :
      (now : ℕ) (result : Option Instance) (c : Controller P)
      → Settled c
      → KeepsPace c (started P now result c)
  unfolding started
  started-KeepsPace now none c s = load_failed-KeepsPace now c s
  started-KeepsPace now (some i) c s =
      ground
        (arith, transition-KeepsPace loading (record c { inst = some i; load_start = now }) s refl)

  to_stopped-KeepsPace :
      (c : Controller P) → Settled c → KeepsPace c (to_stopped P c).0 × Settled (to_stopped P c).0
  unfolding to_stopped transition
  to_stopped-KeepsPace c s = ground arith

  start_load-KeepsPace :
      (now : ℕ) (result : Option Instance) (c : Controller P)
      → Settled c
      → KeepsPace c (start_load P now result c)
  unfolding start_load
  start_load-KeepsPace now result c s =
      let (k, s') = to_stopped-KeepsPace c s in
      let c' = (to_stopped P c).0 in
      ground
        (arith, started-KeepsPace now result (record c' { baseline = c'.gpu.vram_used_mib }) s')

  act_idle-KeepsPace :
      (now : ℕ) (result : Option Instance) (d : Decision) (c : Controller P)
      → Settled c
      → any (eqb d.idle_state) idle ≡ true
      → KeepsPace c (act_idle P now result d c)
  unfolding act_idle
  act_idle-KeepsPace now result d c s i = ground (
    arith,
    start_load-KeepsPace now result c s,
    transition-KeepsPace d.idle_state c s (ground arith),
  )

  act_in-KeepsPace :
      (t : State) (now : ℕ) (result : Option Instance) (d : Decision) (c : Controller P)
      → c.st ≡ t
      → any (eqb d.idle_state) idle ≡ true
      → KeepsPace c (act_in P t now result d c)
  unfolding act_in
  act_in-KeepsPace stopped now result d c e i =
      act_idle-KeepsPace now result d c (ap (λ t. eqb t preempting) e) i
  act_in-KeepsPace cooldown now result d c e i =
      act_idle-KeepsPace now result d c (ap (λ t. eqb t preempting) e) i
  act_in-KeepsPace suppressed now result d c e i =
      act_idle-KeepsPace now result d c (ap (λ t. eqb t preempting) e) i
  act_in-KeepsPace disabled now result d c e i =
      act_idle-KeepsPace now result d c (ap (λ t. eqb t preempting) e) i
  act_in-KeepsPace error now result d c e i =
      act_idle-KeepsPace now result d c (ap (λ t. eqb t preempting) e) i
  act_in-KeepsPace loading now result d c e i =
      act_loading-KeepsPace d c (ap (λ t. eqb t preempting) e)
  act_in-KeepsPace ready now result d c e i =
      act_loaded-KeepsPace now d d.action c (ap (λ t. eqb t preempting) e)
  act_in-KeepsPace busy now result d c e i =
      act_loaded-KeepsPace now d d.action c (ap (λ t. eqb t preempting) e)
  act_in-KeepsPace draining now result d c e i =
      act_draining-KeepsPace now d c (ap (λ t. eqb t preempting) e)
  act_in-KeepsPace preempting now result d c e i = refl
  act_in-KeepsPace unset now result d c e i = refl

  pub act-KeepsPace :
      (now : ℕ) (result : Option Instance) (d : Decision) (c : Controller P)
      → any (eqb d.idle_state) idle ≡ true
      → KeepsPace c (act P now result d c)
  unfolding act
  act-KeepsPace now result d c i = act_in-KeepsPace c.st now result d c refl i
