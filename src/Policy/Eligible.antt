-- ===== src/Policy/Eligible.antt =====
-- internal/policy/evaluate.go: exactly when a stopped runtime may load, and what no mode overrides.
use benchwarmer.Prelude.{
  ◌+◌, ◌≤◌, ◌≡◌, ◌↔◌, refl, true, false, ◌⊎◌, inl, inr, List, [], ◌∷◌, arith, none, some, str_eq,
  Option-cases,
}
use benchwarmer.Platform.{Platform}
use benchwarmer.Config.{Config}
use benchwarmer.State.{runtime_running}
use benchwarmer.Policy.Types.{run, hold, Snapshot}
use benchwarmer.Policy.Rules.{Match, Eval, new_eval, yield_rules, is_none}
use benchwarmer.Policy.Evaluate.{winner, decide, evaluate, eligibility, run_match}
use benchwarmer.Policy.Threats.{IsUnthreatened, yield_rules-nil}
use benchwarmer.Policy.Outcome.{Proper, yield_rules-Proper}

module _ (P : Platform) where
  -- What a load needs beside that no rule makes the worker yield: something to run, no timer that
  -- blocks, facts to judge by, and memory for the model.
  pub record MayLoad (e : Eval P) : Type 0 where
    pub set_up : str_eq e.s.runtime.setup_problem "" ≡ true
    pub recovered : e.s.timers.recovery_until ≤ e.s.now
    pub unsuppressed :
        (e.s.timers.suppressed_at ≡ 0)
        ⊎ (e.s.timers.suppressed_at + e.c.anti_thrash.suppress_for ≤ e.s.now)
    pub cooled :
        (e.s.timers.last_competing_at ≡ 0) ⊎ (e.s.timers.last_competing_at + e.p.cooldown ≤ e.s.now)
    pub measured : is_none e.s.gpu.confidence ≡ false
    pub listed : e.s.apps.process_list_ok ≡ true
    pub fits : e.c.runtime.required_free_vram_mib ≤ e.s.gpu.vram_free_mib

  eligibility-none : (e : Eval P) → eligibility P e ≡ none → MayLoad e
  unfolding eligibility
  eligibility-none e h = ground arith

  pub MayLoad-eligibility : (e : Eval P) → MayLoad e → eligibility P e ≡ none
  unfolding eligibility
  MayLoad-eligibility e h = ground arith

  eligibility-hold : (e : Eval P) {m : Match} → eligibility P e ≡ some m → m.action ≡ hold
  unfolding eligibility
  eligibility-hold e h = ground arith

  run_of_eligible :
      (e : Eval P)
      → e.running ≡ false
      → eligibility P e ≡ none
      → (decide P e (winner P e []) []).action ≡ run
  unfolding decide winner run_match
  run_of_eligible e idle free = ground arith

  eligible_of_run :
      (e : Eval P)
      → e.running ≡ false
      → (decide P e (winner P e []) []).action ≡ run
      → eligibility P e ≡ none
  unfolding decide winner
  eligible_of_run e idle r = elim (Option-cases (eligibility P e)) [
    | inl free ↦ free
    | inr (m, shut) ↦ ground (arith, eligibility-hold e shut)
  ]

  decide-run :
      (e : Eval P) (ms : List Match)
      → Proper P e ms
      → e.running ≡ false
      → ((decide P e (winner P e ms) ms).action ≡ run) ↔ ((ms ≡ []) × MayLoad e)
  unfolding decide winner
  decide-run e (m ∷ ms) h idle = (λ r. ground (arith, h.0.acts), λ r. cc)
  decide-run e [] h idle = (
    λ r. (refl, eligibility-none e (eligible_of_run e idle r)),
    λ r. run_of_eligible e idle (MayLoad-eligibility e r.1),
  )

  -- A stopped runtime loads exactly if no rule makes the worker yield and there is something to run,
  -- no recovery, suppression or cooldown is pending, the telemetry and the process list can be used,
  -- and the model's memory is free.
  pub evaluate_load :
      (s : Snapshot P) (c : Config P)
      → runtime_running s.runtime.state ≡ false
      → let e = new_eval P s c in
        ((evaluate P s c).action ≡ run) ↔ ((yield_rules P e ≡ []) × MayLoad e)
  unfolding evaluate new_eval
  evaluate_load s c idle =
      let e = new_eval P s c in decide-run e (yield_rules P e) (yield_rules-Proper P e) idle

  run_nil :
      (e : Eval P) (ms : List Match)
      → Proper P e ms
      → (decide P e (winner P e ms) ms).action ≡ run
      → ms ≡ []
  unfolding decide winner
  run_nil e [] h r = refl
  run_nil e (m ∷ ms) h r = absurd (ground (arith, h.0.acts))

  -- Whether or not the runtime runs, and in every mode, the decision to run means that no
  -- condition of the first four tiers holds: the system is up with its GPU, below the critical
  -- temperature and, to start, cooled down, and its telemetry is not lost; the worker is not paused;
  -- as far as can be measured, others neither take the last memory nor hold the critical amount nor keep
  -- the GPU critically busy; and there is no confirmed game, no confirmed child of a launcher and no
  -- unknown application in full screen that uses the GPU.
  pub evaluate-run-IsUnthreatened :
      (s : Snapshot P) (c : Config P)
      → (evaluate P s c).action ≡ run
      → IsUnthreatened P (new_eval P s c)
  unfolding evaluate
  evaluate-run-IsUnthreatened s c r =
      let e = new_eval P s c in
      yield_rules-nil P e (run_nil e (yield_rules P e) (yield_rules-Proper P e) r)
