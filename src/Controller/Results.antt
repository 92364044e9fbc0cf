-- ===== src/Controller/Results.antt =====
-- internal/controller/step.go: the results that a step takes in are those of jobs under way.
use benchwarmer.Prelude.{
  ℕ, suc, ◌+◌, ◌≡◌, refl, ap, ◌∙◌, Bool, true, false, inl, inr, Option, none, some, arith, not,
  ◌&&◌, is_some, any, if◌then◌else◌, Bool-cases, List, [], ◌∷◌,
}
use benchwarmer.Platform.{Platform}
use benchwarmer.State.{State, loading, ready, preempting, can_transition, eqb, idle}
use benchwarmer.Policy.Types.{Decision}
use benchwarmer.Controller.Types.{Instance, Controller, transition, zero_decision}
use benchwarmer.Controller.Stop.{
  close_gate, force_close, retry_zombie, on_zombie_stopped, stop_failed, stop_settled, or_stopped,
  stop_verified, on_stopped, crash_cleared, on_crash,
}
use benchwarmer.Controller.Load.{load_failed, load_broken, on_load_result}
use benchwarmer.Controller.Observe.{
  StopResult, Inputs, absorb_load, absorb_stops, absorb_async, check_gpu_resets, expire_mode,
  observe, track_telemetry_health,
}
use benchwarmer.Controller.Act.{act}
use benchwarmer.Controller.Step.{
  check_vram_release, check_crash_reset, take_in, decide_step, note_competing, carry_out, step,
}
use benchwarmer.Controller.Gate.{
  stops, Same, force_close-Same, retry_zombie-Same, on_zombie_stopped-Same,
}
use benchwarmer.Controller.Same.{
  check_gpu_resets-Same, expire_mode-Same, observe-Same, track_telemetry_health-Same,
  check_setup-Same, check_vram_release-Same, check_crash_reset-Same, publish-Same,
  note_competing-Same,
}
use benchwarmer.Controller.Invariant.{decide_step-Same, decide_step-idle_state}
use benchwarmer.Controller.Jobs.{
  awaited, KeepsPace, Same-KeepsPace, KeepsPace-trans, Settled, transition-KeepsPace,
  close_gate-jobs, gate_then, load_failed-KeepsPace, act-KeepsPace,
}

-- How many of the results are not of cleanups.
abbrev pub ends : List StopResult → ℕ
ends [] = 0
ends (r ∷ rs) = if r.cleanup then ends rs else suc (ends rs)

module _ (P : Platform) where
  -- The stops under way, with `n` whose results are about to be taken in, are those that the state
  -- waits for.
  abbrev pub IsBalanced : ℕ → Controller P → Type 0
  IsBalanced n c = stops c.jobs + n ≡ awaited c.st

  pub KeepsPace-IsBalanced :
      (n : ℕ) (c c' : Controller P) → KeepsPace P c c' → IsBalanced n c → IsBalanced n c'
  KeepsPace-IsBalanced n c c' k b = omega arith

  Same-IsBalanced : (n : ℕ) (c c' : Controller P) → Same P c c' → IsBalanced n c → IsBalanced n c'
  Same-IsBalanced n c c' e b = KeepsPace-IsBalanced n c c' (Same-KeepsPace P c c' e) b

  stop_failed-IsBalanced :
      (now : ℕ) (n : ℕ) (c : Controller P)
      → IsBalanced (suc n) c
      → IsBalanced n (stop_failed P now c) × (n ≡ 0)
  unfolding stop_failed can_transition
  stop_failed-IsBalanced now n c b = ground arith

  stop_settled-jobs :
      (now : ℕ) (c : Controller P)
      → let c' = (stop_settled P now c).0 in (c'.st ≡ c.st) × (c'.jobs ≡ c.jobs)
  unfolding stop_settled
  stop_settled-jobs now c = ground arith

  settled_lem :
      (n : ℕ) (to : State) (c : Controller P)
      → any (eqb to) idle ≡ true
      → IsBalanced (suc n) c
      → IsBalanced n (transition P to c).0 × (n ≡ 0)
  unfolding transition can_transition
  settled_lem n to c i b = ground arith

  or_stopped-idle : (s : State) → any (eqb (or_stopped P s)) idle ≡ true
  or_stopped-idle s = ground arith

  on_stopped-IsBalanced :
      (now : ℕ) (failed : Bool) (n : ℕ) (c : Controller P)
      → IsBalanced (suc n) c
      → IsBalanced n (on_stopped P now failed c) × (n ≡ 0)
  unfolding on_stopped stop_verified
  on_stopped-IsBalanced now true n c b = stop_failed-IsBalanced now n c b
  on_stopped-IsBalanced now false n c b =
      let (st, jobs) = stop_settled-jobs now c in
      settled_lem n (or_stopped P (stop_settled P now c).1) (stop_settled P now c).0
        (or_stopped-idle (stop_settled P now c).1) (rw (st, jobs) b)

  absorb_stops-IsBalanced :
      (now : ℕ) (rs : List StopResult) (c : Controller P)
      → IsBalanced (ends rs) c
      → IsBalanced 0 (absorb_stops P now rs c)
  unfolding absorb_stops
  absorb_stops-IsBalanced now [] c b = b
  absorb_stops-IsBalanced now (r ∷ rs) c b =
      absorb_stops-IsBalanced now rs _ (elim (Bool-cases r.cleanup) [
        | inl cl ↦ rw cl (
            Same-IsBalanced (ends rs) c (on_zombie_stopped P now r.failed c)
              (on_zombie_stopped-Same P now r.failed c) (ground arith))
        | inr st ↦ rw st (on_stopped-IsBalanced now r.failed (ends rs) c (ground arith)).0
      ])

  load_broken-KeepsPace :
      (now : ℕ) (i : Instance) (c : Controller P)
      → Settled P c
      → KeepsPace P c (load_broken P now i c)
  unfolding load_broken
  load_broken-KeepsPace now i c s =
      let c1 : Controller P = record c {
        inst = none;
        zombie = some i;
        zombie_attempts = 0;
        zombie_retry_at = now;
      } in
      let c2 = retry_zombie P now c1 in
      let c3 = (close_gate P c.decision c2).0 in
      let same = retry_zombie-Same P now c1 in
      let (st, jobs) = close_gate-jobs P c.decision c2 in
      KeepsPace-trans P c c2 (load_failed P now c3) (Same-KeepsPace P c1 c2 same) (
        gate_then P c.decision c2 (load_failed P now c3)
          (load_failed-KeepsPace P now c3 (ap (λ t. eqb t preempting) (st ∙ same.1) ∙ s)))

  loading-Settled : (s : State) → eqb s loading ≡ true → eqb s preempting ≡ false
  loading-Settled s h = ground arith

  on_load_result-KeepsPace :
      (now : ℕ) (i : Instance) (failed : Bool) (c : Controller P)
      → KeepsPace P c (on_load_result P now i failed c)
  unfolding on_load_result
  on_load_result-KeepsPace now i failed c = elim (Bool-cases (eqb c.st loading)) [
    | inl l ↦
        let s = loading-Settled c.st l in
        ground (
          arith,
          load_broken-KeepsPace now i c s,
          transition-KeepsPace P ready (record c { loaded_at = now }) s refl,
        )
    | inr l ↦ ground arith
  ]

  absorb_load-KeepsPace :
      (now : ℕ) (r : Option (Instance × Bool)) (c : Controller P)
      → KeepsPace P c (absorb_load P now r c)
  unfolding absorb_load
  absorb_load-KeepsPace now none c = refl
  absorb_load-KeepsPace now (some (i, failed)) c = on_load_result-KeepsPace now i failed c

  crash_cleared-Calm :
      (now : ℕ) (c : Controller P)
      → let c' = crash_cleared P now c in (c'.st ≡ c.st) × (stops c'.jobs ≡ stops c.jobs)
  unfolding crash_cleared
  crash_cleared-Calm now c =
      let c0 : Controller P = (close_gate P zero_decision (record c { inst = none })).0 in
      let c1 : Controller P = force_close P c0 in
      let c2 : Controller P = record c1 {
        zombie = c.inst;
        zombie_attempts = 0;
        zombie_retry_at = now;
      } in
      let (open2, st2, inst2, jobs2) = retry_zombie-Same P now c2 in
      let (open1, st1, inst1, jobs1) = force_close-Same P c0 in
      let (st0, jobs0) = close_gate-jobs P zero_decision (record c { inst = none }) in
      (st2 ∙ st1 ∙ st0, jobs2 ∙ jobs1 ∙ ap stops jobs0)

  on_crash-KeepsPace : (now : ℕ) (c : Controller P) → Settled P c → KeepsPace P c (on_crash P now c)
  unfolding on_crash load_failed
  on_crash-KeepsPace now c s =
      let c1 = crash_cleared P now c in
      let (st, jobs) = crash_cleared-Calm now c in
      KeepsPace-trans P c c1 (on_crash P now c) (rw (st, jobs) refl)
        (load_failed-KeepsPace P now c1 (ap (λ t. eqb t preempting) st ∙ s))

  absorb_async-IsBalanced :
      (x : Inputs P) (c : Controller P)
      → IsBalanced (ends x.stop_results) c
      → IsBalanced 0 (absorb_async P x c)
  unfolding absorb_async
  absorb_async-IsBalanced x c b =
      let n = ends x.stop_results in
      let c0 = absorb_load P x.now x.load_result c in
      let c1 = absorb_stops P x.now x.stop_results c0 in
      let c2 = retry_zombie P x.now c1 in
      let b0 = KeepsPace-IsBalanced n c c0 (absorb_load-KeepsPace x.now x.load_result c) b in
      let b2 =
        Same-IsBalanced 0 c1 c2 (retry_zombie-Same P x.now c1)
          (absorb_stops-IsBalanced x.now x.stop_results c0 b0) in
      elim (Bool-cases (is_some c2.inst && not (eqb c2.st preempting) && x.exited)) [
        | inl crash ↦ rw crash (
            KeepsPace-IsBalanced 0 c2 (on_crash P x.now c2)
              (on_crash-KeepsPace x.now c2 (ground arith)) b2)
        | inr fine ↦ rw fine b2
      ]

  take_in-IsBalanced :
      (x : Inputs P) (c : Controller P)
      → IsBalanced (ends x.stop_results) c
      → IsBalanced 0 (take_in P x c)
  unfolding take_in
  take_in-IsBalanced x c b =
      let c0 = absorb_async P x c in
      let c1 = check_gpu_resets P x c0 in
      let c2 = expire_mode P x.now c1 in
      let c3 = observe P x c2 in
      let c4 = track_telemetry_health P x.now c3 in
      Same-IsBalanced 0 c4 (take_in P x c) (check_setup-Same P x c4) (
        Same-IsBalanced 0 c3 c4 (track_telemetry_health-Same P x.now c3) (
          Same-IsBalanced 0 c2 c3 (observe-Same P x c2) (
            Same-IsBalanced 0 c1 c2 (expire_mode-Same P x.now c1) (
              Same-IsBalanced 0 c0 c1 (check_gpu_resets-Same P x c0)
                (absorb_async-IsBalanced x c b)))))

  carry_out-IsBalanced :
      (x : Inputs P) (d : Decision) (c : Controller P)
      → any (eqb d.idle_state) idle ≡ true
      → IsBalanced 0 c
      → IsBalanced 0 (carry_out P x d c)
  unfolding carry_out
  carry_out-IsBalanced x d c i b =
      let c1 = record (note_competing P x.now d c) { decision = d; last_evaluated = x.now } in
      let c2 = act P x.now x.start_result d c1 in
      let c3 = check_vram_release P x.now c2 in
      let c4 = check_crash_reset P x.now c3 in
      let b1 = Same-IsBalanced 0 c c1 (note_competing-Same P x.now d c) b in
      let b2 = KeepsPace-IsBalanced 0 c1 c2 (act-KeepsPace P x.now x.start_result d c1 i) b1 in
      let b3 = Same-IsBalanced 0 c2 c3 (check_vram_release-Same P x.now c2) b2 in
      Same-IsBalanced 0 c4 (carry_out P x d c) (publish-Same P c4)
        (Same-IsBalanced 0 c3 c4 (check_crash_reset-Same P x.now c3) b3)

  -- Whatever a step takes in, the stops under way after it are those that the state waits for, if
  -- before it they are so with the stops whose results the step takes in.
  pub step-IsBalanced :
      (x : Inputs P) (c : Controller P)
      → IsBalanced (ends x.stop_results) c
      → IsBalanced 0 (step P x c)
  unfolding step
  step-IsBalanced x c b =
      let c1 = take_in P x c in
      let (d, c2) = decide_step P x.now c1 in
      carry_out-IsBalanced x d c2 (decide_step-idle_state P x.now c1)
        (Same-IsBalanced 0 c1 c2 (decide_step-Same P x.now c1) (take_in-IsBalanced x c b))
