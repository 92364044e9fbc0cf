-- ===== src/Controller/Drain.antt =====
-- internal/controller/step.go: draining, and the drains and reloads that the API asks for.
use benchwarmer.Prelude.{
  ℕ, ◌<◌, ◌≤◌, ◌≡◌, ◌≢◌, refl, ap, ◌∙◌, true, ◌⊎◌, inl, inr, Option, arith, ltb, ltb→lt, Bool-cases,
}
use benchwarmer.Platform.{Platform}
use benchwarmer.State.{draining, preempting, runtime_running, can_transition}
use benchwarmer.Policy.Types.{Action, drain, preempt, yields, Decision}
use benchwarmer.Policy.Evaluate.{evaluate}
use benchwarmer.Controller.Types.{Instance, nothing, Controller}
use benchwarmer.Controller.Stop.{force_close, begin_stop}
use benchwarmer.Controller.Act.{
  act, act_in, act_draining, keep_draining, shorten, maybe_grace_expired, active_count,
  apply_manual, apply_zombie, apply_load_blocked,
}
use benchwarmer.Controller.Step.{snapshot, decide_step}
use benchwarmer.Controller.Gate.{force_close-Same}

module _ (P : Platform) where
  pub begin_stop_preempts :
      (d : Decision) (c : Controller P)
      → runtime_running c.st ≡ true
      → (begin_stop P d c).st ≡ preempting
  unfolding begin_stop can_transition
  begin_stop_preempts d c r = ground arith

  pub force_stop_preempts :
      (d : Decision) (c : Controller P)
      → runtime_running c.st ≡ true
      → (begin_stop P d (force_close P c)).st ≡ preempting
  force_stop_preempts d c r =
      begin_stop_preempts d (force_close P c) (ap runtime_running (force_close-Same P c).1 ∙ r)

  -- The drain that began in `c` goes on in `c'`.
  abbrev pub Continues : ℕ → Controller P → Controller P → Type 0
  Continues now c c' =
      (c'.st ≡ draining)
      × (now < c'.drain_deadline)
      × (c'.drain_deadline ≤ c.drain_deadline)
      × (active_count P c' ≡ active_count P c)

  abbrev Ends : ℕ → Controller P → Controller P → Type 0
  Ends now c c' = (c'.st ≡ preempting) ⊎ Continues now c c'

  grace-Ends :
      (now : ℕ) (c c1 : Controller P)
      → c1.st ≡ draining
      → c1.drain_deadline ≤ c.drain_deadline
      → active_count P c1 ≡ active_count P c
      → Ends now c (maybe_grace_expired P now c1)
  unfolding maybe_grace_expired
  grace-Ends now c c1 s h n = elim (Bool-cases (ltb now c1.drain_deadline)) [
    | inl l ↦ rw l (inr (s, ltb→lt now c1.drain_deadline l, h, n))
    | inr e ↦ rw e (inl (force_stop_preempts c1.yield c1 (ap runtime_running s)))
  ]

  shorten_lem :
      (d : Decision) (c : Controller P)
      → let c' = shorten P d c in
        (c'.st ≡ c.st)
        × (c'.drain_deadline ≤ c.drain_deadline)
        × (active_count P c' ≡ active_count P c)
  unfolding shorten
  shorten_lem d c = ground arith

  keep_draining-Ends :
      (now : ℕ) (d : Decision) (a : Action) (c : Controller P)
      → c.st ≡ draining
      → Ends now c (keep_draining P now d a c)
  unfolding keep_draining
  keep_draining-Ends now d preempt c s = inl (force_stop_preempts d c (ap runtime_running s))
  keep_draining-Ends now d drain c s =
      let (st, less, n) = shorten_lem d c in grace-Ends now c (shorten P d c) (st ∙ s) less n
  keep_draining-Ends now d _ c s = grace-Ends now c c s (omega arith) refl

  -- In the state of draining, whatever is decided: either the runtime is stopped in this step, or
  -- requests are active, their deadline is still to come, and it is not later than before.
  pub act_drains :
      (now : ℕ) (result : Option Instance) (d : Decision) (c : Controller P)
      → c.st ≡ draining
      → let c' = act P now result d c in
        (c'.st ≡ preempting) ⊎ ((active_count P c ≢ 0) × Continues now c c')
  unfolding act act_in act_draining
  act_drains now result d c s = rw s (
      ground (
        arith,
        begin_stop_preempts c.yield c (ap runtime_running s),
        keep_draining-Ends now d d.action c s,
      ))

  -- A drain or a reload that is asked for while the runtime runs makes the decision a yield; it is
  -- the decision of the policy if that is a yield already.
  manual_request_yields :
      (now : ℕ) (c : Controller P)
      → runtime_running c.st ≡ true
      → c.manual_pending ≢ nothing
      → let d = (decide_step P now c).0 in
        let policy = evaluate P (snapshot P now c) c.cfg in
        (yields d.action ≡ true) × (yields policy.action ≡ true → d ≡ policy)
  unfolding decide_step apply_manual apply_zombie apply_load_blocked
  manual_request_yields now c r m = ground arith
