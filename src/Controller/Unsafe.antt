-- ===== src/Controller/Unsafe.antt =====
-- internal/policy and internal/controller: a hard safety condition stops the runtime in the step that
-- finds it.
use benchwarmer.Prelude.{ℕ, ◌≡◌, refl, ap, ◌∙◌, true, inl, inr, Option, arith, Bool-cases, ltb}
use benchwarmer.Platform.{Platform}
use benchwarmer.State.{State, loading, ready, busy, draining, preempting, runtime_running}
use benchwarmer.Policy.Types.{Action, preempt, yields, Decision}
use benchwarmer.Policy.Rules.{new_eval}
use benchwarmer.Policy.Evaluate.{evaluate}
use benchwarmer.Policy.Safety.{IsUnsafe, evaluate_unsafe}
use benchwarmer.Controller.Types.{Instance, Controller}
use benchwarmer.Controller.Stop.{close_gate}
use benchwarmer.Controller.Act.{
  act, act_in, act_loading, act_loaded, act_draining, keep_draining, apply_manual, apply_zombie,
  apply_load_blocked,
}
use benchwarmer.Controller.Step.{snapshot, decide_step}
use benchwarmer.Controller.Drain.{begin_stop_preempts, force_stop_preempts}
use benchwarmer.Controller.Jobs.{close_gate-jobs}

module _ (P : Platform) where
  loading_stops :
      (d : Decision) (c : Controller P)
      → yields d.action ≡ true
      → c.st ≡ loading
      → (act_loading P d c).st ≡ preempting
  unfolding act_loading
  loading_stops d c y s = rw y (
      begin_stop_preempts P d (close_gate P d c).0
        (ap runtime_running ((close_gate-jobs P d c).0 ∙ s)))

  loaded_stops :
      (now : ℕ) (d : Decision) (a : Action) (c : Controller P)
      → a ≡ preempt
      → runtime_running c.st ≡ true
      → (act_loaded P now d a c).st ≡ preempting
  unfolding act_loaded
  loaded_stops now d a c p r =
      let c' = (close_gate P d c).0 in
      let r' = ap runtime_running (close_gate-jobs P d c).0 ∙ r in
      rw p (elim (Bool-cases (ltb 0 (close_gate P d c).1)) [
        | inl cut ↦ rw cut (force_stop_preempts P d c' r')
        | inr whole ↦ rw whole (begin_stop_preempts P d c' r')
      ])

  draining_stops :
      (now : ℕ) (d : Decision) (c : Controller P)
      → d.action ≡ preempt
      → runtime_running c.st ≡ true
      → (act_draining P now d c).st ≡ preempting
  unfolding act_draining keep_draining
  draining_stops now d c p r =
      ground (arith, begin_stop_preempts P c.yield c r, force_stop_preempts P d c r)

  act_in_stops :
      (t : State) (now : ℕ) (result : Option Instance) (d : Decision) (c : Controller P)
      → c.st ≡ t
      → runtime_running t ≡ true
      → d.action ≡ preempt
      → (act_in P t now result d c).st ≡ preempting
  unfolding act_in
  act_in_stops loading now result d c e r p = loading_stops d c (ap yields p) e
  act_in_stops ready now result d c e r p = loaded_stops now d d.action c p (ap runtime_running e)
  act_in_stops busy now result d c e r p = loaded_stops now d d.action c p (ap runtime_running e)
  act_in_stops draining now result d c e r p = draining_stops now d c p (ap runtime_running e)
  act_in_stops preempting now result d c e r p = e
  act_in_stops _ now result d c e r p = cc

  preempt_unchanged :
      (d : Decision) (c : Controller P)
      → runtime_running c.st ≡ true
      → d.action ≡ preempt
      → let (d1, c1) = apply_manual P d c in
        (apply_load_blocked P (apply_zombie P d1 c1) c1 ≡ d) × (c1 ≡ c)
  unfolding apply_manual apply_zombie apply_load_blocked
  preempt_unchanged d c r p = ground arith

  -- While a runtime runs, a hard safety condition (shutdown, sleep, a lost or overheated GPU, or
  -- telemetry lost for too long) makes the step stop it: whatever the mode, the API and the active
  -- requests are, the state is preempting after it.
  pub unsafe_stops :
      (now : ℕ) (result : Option Instance) (c : Controller P)
      → runtime_running c.st ≡ true
      → IsUnsafe P (new_eval P (snapshot P now c) c.cfg)
      → let (d, c1) = decide_step P now c in
        (d ≡ evaluate P (snapshot P now c) c.cfg) × ((act P now result d c1).st ≡ preempting)
  unfolding decide_step act snapshot
  unsafe_stops now result c r u =
      let policy = evaluate P (snapshot P now c) c.cfg in
      let (a, _, _) = evaluate_unsafe P (snapshot P now c) c.cfg r u in
      let (same, kept) = preempt_unchanged policy c r a in
      (same, rw (same, kept) (act_in_stops c.st now result policy c refl r a))
