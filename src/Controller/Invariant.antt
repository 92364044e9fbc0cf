-- ===== src/Controller/Invariant.antt =====
-- internal/controller/step.go: a whole step keeps the gate and the runtime in line with the state.
use benchwarmer.Prelude.{
  ℕ, ◌≡◌, refl, ◌∙◌, Bool, true, ◌⊎◌, inl, inr, Option, none, some, arith, not, ◌&&◌, is_some, any,
  Bool-cases, List, [], ◌∷◌, subst, sym,
}
use benchwarmer.Platform.{Platform}
use benchwarmer.State.{State, preempting, error, runtime_running, can_transition, eqb, idle}
use benchwarmer.Policy.Types.{Decision}
use benchwarmer.Policy.Evaluate.{evaluate}
use benchwarmer.Controller.Types.{Instance, Controller}
use benchwarmer.Controller.Stop.{retry_zombie, on_zombie_stopped}
use benchwarmer.Controller.Load.{on_load_result}
use benchwarmer.Controller.Observe.{
  StopResult, Inputs, absorb_load, absorb_stops, absorb_async, check_gpu_resets, expire_mode,
  observe, track_telemetry_health,
}
use benchwarmer.Controller.Act.{act, apply_manual, apply_zombie, apply_load_blocked}
use benchwarmer.Controller.Step.{
  snapshot, check_vram_release, check_crash_reset, take_in, decide_step, note_competing, carry_out,
  step,
}
use benchwarmer.Controller.Gate.{
  IsSafe, Same, Same-IsSafe, on_load_result-IsSafe, on_stopped-IsSafe, on_zombie_stopped-Same,
  retry_zombie-Same, on_crash-IsSafe,
}
use benchwarmer.Policy.Outcome.{evaluate-idle_state}
use benchwarmer.Controller.Same.{
  check_gpu_resets-Same, expire_mode-Same, observe-Same, track_telemetry_health-Same,
  check_setup-Same, check_vram_release-Same, check_crash_reset-Same, publish-Same,
  note_competing-Same,
}
use benchwarmer.Controller.Running.{act-IsSafe}

-- Of the results of one step all are of cleanups.
unfoldable pub AreCleanups : List StopResult → Type 0
AreCleanups [] = Unit
AreCleanups (r ∷ rest) = (r.cleanup ≡ true) × AreCleanups rest

-- The result of a stop comes only while the runtime is being stopped, and then once.
unfoldable pub AreInTurn : State → List StopResult → Type 0
AreInTurn s [] = Unit
AreInTurn s (r ∷ rest) =
    ((r.cleanup ≡ true) × AreInTurn s rest) ⊎ ((s ≡ preempting) × AreCleanups rest)

module _ (P : Platform) where
  absorb_load-IsSafe :
      (now : ℕ) (r : Option (Instance × Bool)) (c : Controller P)
      → IsSafe P c
      → IsSafe P (absorb_load P now r c)
  unfolding absorb_load
  absorb_load-IsSafe now none c h = h
  absorb_load-IsSafe now (some (i, failed)) c h = on_load_result-IsSafe P now i failed c h

  -- The result of a load that arrives while the runtime is being stopped is ignored.
  absorb_load-stopping :
      (now : ℕ) (r : Option (Instance × Bool)) (c : Controller P)
      → c.st ≡ preempting
      → absorb_load P now r c ≡ c
  unfolding absorb_load on_load_result
  absorb_load-stopping now none c s = refl
  absorb_load-stopping now (some (i, failed)) c s = ground arith

  cleanups-IsSafe :
      (now : ℕ) (rs : List StopResult) (c : Controller P)
      → AreCleanups rs
      → IsSafe P c
      → IsSafe P (absorb_stops P now rs c)
  unfolding absorb_stops AreCleanups
  cleanups-IsSafe now [] c k h = h
  cleanups-IsSafe now (r ∷ rs) c k h =
      let c1 = on_zombie_stopped P now r.failed c in
      rw (k.0) (
        cleanups-IsSafe now rs c1 k.1
          (Same-IsSafe P c c1 (on_zombie_stopped-Same P now r.failed c) h))

  absorb_stops-IsSafe :
      (now : ℕ) (rs : List StopResult) (c : Controller P)
      → AreInTurn c.st rs
      → IsSafe P c
      → IsSafe P (absorb_stops P now rs c)
  unfolding absorb_stops AreInTurn
  absorb_stops-IsSafe now [] c k h = h
  absorb_stops-IsSafe now (r ∷ rs) c (inl (cl, k)) h =
      let c1 = on_zombie_stopped P now r.failed c in
      let same = on_zombie_stopped-Same P now r.failed c in
      rw cl (
        absorb_stops-IsSafe now rs c1 (subst (λ s. AreInTurn s rs) (sym same.1) k)
          (Same-IsSafe P c c1 same h))
  absorb_stops-IsSafe now (r ∷ rs) c (inr (s, k)) h =
      cleanups-IsSafe now rs _ k (elim (Bool-cases r.cleanup) [
        | inl cl ↦ rw cl (
            Same-IsSafe P c (on_zombie_stopped P now r.failed c)
              (on_zombie_stopped-Same P now r.failed c) h)
        | inr st ↦ rw st (on_stopped-IsSafe P now r.failed c s h)
      ])

  running_error : (s : State) → runtime_running s ≡ true → can_transition s error ≡ true
  unfolding can_transition
  running_error s r = ground arith

  crashed_error :
      (c : Controller P) → IsSafe P c → is_some c.inst ≡ true → can_transition c.st error ≡ true
  crashed_error c h i = running_error c.st (h.live ∙ i)

  in_turn_cases :
      (s : State) (rs : List StopResult) → AreInTurn s rs → (s ≡ preempting) ⊎ AreCleanups rs
  unfolding AreInTurn AreCleanups
  in_turn_cases s [] k = inr k
  in_turn_cases s (r ∷ rs) (inr (e, k)) = inl e
  in_turn_cases s (r ∷ rs) (inl (cl, k)) = elim (in_turn_cases s rs k) [
    | inl e ↦ inl e
    | inr all ↦ inr (cl, all)
  ]

  -- The results of stops of `rs`, after the result of a load `r`, come in turn.
  results-IsSafe :
      (now : ℕ) (r : Option (Instance × Bool)) (rs : List StopResult) (c : Controller P)
      → AreInTurn c.st rs
      → IsSafe P c
      → IsSafe P (absorb_stops P now rs (absorb_load P now r c))
  results-IsSafe now r rs c k h = elim (in_turn_cases c.st rs k) [
    | inl s ↦ rw (absorb_load-stopping now r c s) (absorb_stops-IsSafe now rs c k h)
    | inr cl ↦ cleanups-IsSafe now rs (absorb_load P now r c) cl (absorb_load-IsSafe now r c h)
  ]

  absorb_async-IsSafe :
      (x : Inputs P) (c : Controller P)
      → AreInTurn c.st x.stop_results
      → IsSafe P c
      → IsSafe P (absorb_async P x c)
  unfolding absorb_async
  absorb_async-IsSafe x c k h =
      let c1 = absorb_stops P x.now x.stop_results (absorb_load P x.now x.load_result c) in
      let c2 = retry_zombie P x.now c1 in
      let h2 =
        Same-IsSafe P c1 c2 (retry_zombie-Same P x.now c1)
          (results-IsSafe x.now x.load_result x.stop_results c k h) in
      elim (Bool-cases (is_some c2.inst && not (eqb c2.st preempting) && x.exited)) [
        | inl crash ↦ rw crash (on_crash-IsSafe P x.now c2 (crashed_error c2 h2 (ground arith)))
        | inr fine ↦ rw fine h2
      ]

  take_in-IsSafe :
      (x : Inputs P) (c : Controller P)
      → AreInTurn c.st x.stop_results
      → IsSafe P c
      → IsSafe P (take_in P x c)
  unfolding take_in
  take_in-IsSafe x c k h =
      let c0 = absorb_async P x c in
      let c1 = check_gpu_resets P x c0 in
      let c2 = expire_mode P x.now c1 in
      let c3 = observe P x c2 in
      let c4 = track_telemetry_health P x.now c3 in
      Same-IsSafe P c4 _ (check_setup-Same P x c4) (
        Same-IsSafe P c3 c4 (track_telemetry_health-Same P x.now c3) (
          Same-IsSafe P c2 c3 (observe-Same P x c2) (
            Same-IsSafe P c1 c2 (expire_mode-Same P x.now c1)
              (Same-IsSafe P c0 c1 (check_gpu_resets-Same P x c0) (absorb_async-IsSafe x c k h)))))

  pub decide_step-Same : (now : ℕ) (c : Controller P) → Same P c (decide_step P now c).1
  unfolding decide_step apply_manual
  decide_step-Same now c = ground arith

  layered-idle_state :
      (d : Decision) (c : Controller P)
      → any (eqb d.idle_state) idle ≡ true
      → let (d1, c1) = apply_manual P d c in
        any (eqb (apply_load_blocked P (apply_zombie P d1 c1) c1).idle_state) idle ≡ true
  unfolding apply_manual apply_zombie apply_load_blocked
  layered-idle_state d c h = ground arith

  pub decide_step-idle_state :
      (now : ℕ) (c : Controller P) → any (eqb (decide_step P now c).0.idle_state) idle ≡ true
  unfolding decide_step
  decide_step-idle_state now c =
      layered-idle_state (evaluate P (snapshot P now c) c.cfg) c
        (evaluate-idle_state P (snapshot P now c) c.cfg error refl).0

  carry_out-IsSafe :
      (x : Inputs P) (d : Decision) (c : Controller P)
      → any (eqb d.idle_state) idle ≡ true
      → IsSafe P c
      → IsSafe P (carry_out P x d c)
  unfolding carry_out
  carry_out-IsSafe x d c i h =
      let c1 = record (note_competing P x.now d c) { decision = d; last_evaluated = x.now } in
      let c2 = act P x.now x.start_result d c1 in
      let c3 = check_vram_release P x.now c2 in
      let c4 = check_crash_reset P x.now c3 in
      let h1 = Same-IsSafe P c c1 (note_competing-Same P x.now d c) h in
      let h2 = act-IsSafe P x.now x.start_result d c1 i h1 in
      let h3 = Same-IsSafe P c2 c3 (check_vram_release-Same P x.now c2) h2 in
      Same-IsSafe P c4 _ (publish-Same P c4)
        (Same-IsSafe P c3 c4 (check_crash_reset-Same P x.now c3) h3)

  -- A step keeps the gate and the runtime in line with the state, whatever it observes and whatever
  -- fails on the way: if before the step the gate is open only in a state that admits, and there is
  -- an instance exactly in the states of a running runtime, then this is so after it. The condition
  -- is that the result of a stop that is no cleanup arrives only while the runtime is being stopped,
  -- and only once.
  pub step-IsSafe :
      (x : Inputs P) (c : Controller P)
      → AreInTurn c.st x.stop_results
      → IsSafe P c
      → IsSafe P (step P x c)
  unfolding step
  step-IsSafe x c k h =
      let c1 = take_in P x c in
      let (d, c2) = decide_step P x.now c1 in
      carry_out-IsSafe x d c2 (decide_step-idle_state x.now c1)
        (Same-IsSafe P c1 c2 (decide_step-Same x.now c1) (take_in-IsSafe x c k h))
