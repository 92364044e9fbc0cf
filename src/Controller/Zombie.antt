-- ===== src/Controller/Zombie.antt =====
-- internal/controller/step.go: no load while a runtime is not verified to be gone, or while the
-- secrets are not protected.
use benchwarmer.Prelude.{
  ℕ, ◌≡◌, ◌≢◌, ap, ◌∙◌, true, false, ◌⊎◌, inl, inr, Option, arith, is_some, any, str_eq,
}
use benchwarmer.Platform.{Platform}
use benchwarmer.State.{State, error, runtime_running, can_transition, eqb, idle}
use benchwarmer.Policy.Types.{run, Decision}
use benchwarmer.Policy.Evaluate.{evaluate}
use benchwarmer.Controller.Types.{Instance, Controller, transition}
use benchwarmer.Controller.Act.{
  act, act_in, act_idle, apply_manual, apply_zombie, apply_load_blocked,
}
use benchwarmer.Controller.Step.{snapshot, decide_step}

module _ (P : Platform) where
  -- A runtime is not verified to be gone, or something else forbids a load.
  abbrev pub IsBlocked : Controller P → Type 0
  IsBlocked c = (is_some c.zombie ≡ true) ⊎ (str_eq c.deps.load_blocked "" ≡ false)

  still-IsBlocked :
      (c c1 : Controller P) → c1.zombie ≡ c.zombie → c1.deps ≡ c.deps → IsBlocked c → IsBlocked c1
  still-IsBlocked c c1 z e (inl b) = inl (ap is_some z ∙ b)
  still-IsBlocked c c1 z e (inr b) = inr (ap (λ t. str_eq t.load_blocked "") e ∙ b)

  not_running : (s : State) → any (eqb s) idle ≡ true → runtime_running s ≡ false
  not_running s h = ground arith

  apply_manual-parts :
      (d : Decision) (c : Controller P)
      → runtime_running c.st ≡ false
      → let c' = (apply_manual P d c).1 in
        (c'.st ≡ c.st)
        × (c'.inst ≡ c.inst)
        × (c'.jobs ≡ c.jobs)
        × (c'.zombie ≡ c.zombie)
        × (c'.deps ≡ c.deps)
  unfolding apply_manual
  apply_manual-parts d c r = ground arith

  blocked_decision :
      (d : Decision) (c : Controller P)
      → runtime_running c.st ≡ false
      → IsBlocked c
      → let d' = apply_load_blocked P (apply_zombie P d c) c in
        (d'.action ≢ run) × (d'.idle_state ≡ error)
  unfolding apply_zombie apply_load_blocked
  blocked_decision d c r b = ground arith

  act_error :
      (now : ℕ) (result : Option Instance) (d : Decision) (c : Controller P)
      → any (eqb c.st) idle ≡ true
      → d.action ≢ run
      → d.idle_state ≡ error
      → let c' = act P now result d c in (c'.st ≡ error) × (c'.inst ≡ c.inst) × (c'.jobs ≡ c.jobs)
  unfolding act act_in act_idle transition can_transition
  act_error now result d c i a e = ground arith

  -- In an idle state, while a runtime is not verified to be gone or loads are forbidden, the step's
  -- decision leads to the error state: no runtime is started and no goroutine is launched, whatever
  -- the policy says and the API asks for.
  pub blocked_loads_nothing :
      (now : ℕ) (result : Option Instance) (c : Controller P)
      → any (eqb c.st) idle ≡ true
      → IsBlocked c
      → let (d, c1) = decide_step P now c in
        let c' = act P now result d c1 in (c'.st ≡ error) × (c'.inst ≡ c.inst) × (c'.jobs ≡ c.jobs)
  unfolding decide_step
  blocked_loads_nothing now result c i b =
      let policy = evaluate P (snapshot P now c) c.cfg in
      let (st, inst, jobs, zombie, deps) = apply_manual-parts policy c (not_running c.st i) in
      let (d, c1) = apply_manual P policy c in
      let (a, e) =
        blocked_decision d c1 (ap runtime_running st ∙ not_running c.st i)
          (still-IsBlocked c c1 zombie deps b) in
      let (error_st, same_inst, same_jobs) =
        act_error now result (apply_load_blocked P (apply_zombie P d c1) c1) c1
          (ap (λ s. any (eqb s) idle) st ∙ i) a e in
      (error_st, same_inst ∙ inst, same_jobs ∙ jobs)
