-- ===== src/Policy/Timers.antt =====
-- internal/policy/evaluate.go, nextLoadAt and wouldSuppress: the time promised for the next load, and
-- the count of recent preemptions.
use benchwarmer.Prelude.{ℕ, ◌≤◌, ◌<◌, ◌≡◌, false, ◌⊎◌, [], arith, ap, ◌∙◌, sym, subst, none}
use benchwarmer.Platform.{Platform}
use benchwarmer.Config.{Config}
use benchwarmer.State.{runtime_running}
use benchwarmer.Policy.Types.{run, Rule, Snapshot}
use benchwarmer.Policy.Rules.{Match, Eval, new_eval, yield_rules}
use benchwarmer.Policy.Evaluate.{
  winner, decide, evaluate, next_load_at, rule_eqb, cooldown_end, suppress_end, run_match,
  eligibility,
}
use benchwarmer.Policy.Eligible.{MayLoad, MayLoad-eligibility, evaluate_load}

module _ (P : Platform) where
  -- `r` is the latest of the timers that have not run out, and 0 if all have.
  pub record IsLatestTimer (e : Eval P) (r : ℕ) : Type 0 where
    pub recovered : e.s.now < e.s.timers.recovery_until → e.s.timers.recovery_until ≤ r
    pub unsuppressed : e.s.now < suppress_end P e → suppress_end P e ≤ r
    pub cooled : e.s.now < cooldown_end P e → cooldown_end P e ≤ r
    pub attained :
        (r ≡ 0)
        ⊎ (e.s.now < r)
          × ((r ≡ e.s.timers.recovery_until) ⊎ (r ≡ suppress_end P e) ⊎ (r ≡ cooldown_end P e))

  next_load_at-IsLatestTimer :
      (e : Eval P) (m : Match)
      → m.competing ≡ false
      → rule_eqb m.rule Rule.paused ≡ false
      → IsLatestTimer e (next_load_at P e m)
  unfolding next_load_at
  next_load_at-IsLatestTimer e m c r = ground arith

  -- Under a decision that is neither for a competing workload nor for a pause, the time promised for
  -- the next load is the latest of the recovery, the suppression and the cooldown that have not run
  -- out, and there is none if all have.
  evaluate-next_load_at :
      (s : Snapshot P) (c : Config P)
      → let d = evaluate P s c in
        d.competing ≡ false
        → rule_eqb d.rule Rule.paused ≡ false
        → IsLatestTimer (new_eval P s c) d.next_load_at
  unfolding evaluate
  evaluate-next_load_at s c k r =
      let e = new_eval P s c in next_load_at-IsLatestTimer e (winner P e (yield_rules P e)) k r

  next_load_at-MayLoad : (e : Eval P) → MayLoad P e → next_load_at P e (run_match P e) ≡ 0
  unfolding next_load_at run_match
  next_load_at-MayLoad e h = ground arith

  winner-eligible :
      (e : Eval P) → e.running ≡ false → eligibility P e ≡ none → winner P e [] ≡ run_match P e
  unfolding winner
  winner-eligible e idle free = ground arith

  decide_load_now :
      (e : Eval P)
      → e.running ≡ false
      → MayLoad P e
      → (decide P e (winner P e []) []).next_load_at ≡ 0
  unfolding decide
  decide_load_now e idle h =
      ap (next_load_at P e) (winner-eligible e idle (MayLoad-eligibility P e h))
      ∙ next_load_at-MayLoad e h

  -- A decision to load a stopped runtime promises no later time for it.
  evaluate_load_now :
      (s : Snapshot P) (c : Config P)
      → runtime_running s.runtime.state ≡ false
      → (evaluate P s c).action ≡ run
      → (evaluate P s c).next_load_at ≡ 0
  unfolding evaluate new_eval
  evaluate_load_now s c idle r =
      let e = new_eval P s c in
      let (nil, may) = (evaluate_load P s c idle).0 r in
      subst (λ ms. (decide P e (winner P e ms) ms).next_load_at ≡ 0) (sym nil)
        (decide_load_now e idle may)
