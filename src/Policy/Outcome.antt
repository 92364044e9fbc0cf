-- ===== src/Policy/Outcome.antt =====
-- internal/policy/evaluate.go, Evaluate: what every decision satisfies, whatever rule wins.
use native.Mathlib.Numerals.{add-one}
use benchwarmer.Prelude.{
  ◌+◌, leb, ◌≡◌, refl, Bool, true, false, ◌⊎◌, ◌||◌, ◌&&◌, ◌≢◌, List, [], ◌∷◌, arith, All,
  All-append, any,
}
use benchwarmer.Platform.{Platform}
use benchwarmer.Config.{Config}
use benchwarmer.State.{
  State, stopped, cooldown, disabled, error, suppressed, eqb, idle, runtime_running, can_transition,
}
use benchwarmer.Policy.Types.{run, hold, drain, preempt, Snapshot, yields}
use benchwarmer.Policy.Rules.{
  Match, Eval, new_eval, safety_rules, pause_rules, critical_rules, gaming_rules, profile_rules,
  yield_rules,
}
use benchwarmer.Policy.Evaluate.{
  winner, decide, evaluate, eligibility, run_match, recent, would_suppress, next_load_at,
}

-- What every match has: it holds only while idle, its idle state is one of four, and it counts as a
-- preemption exactly if it is a competing workload, which cools down.
pub record IsProper (running : Bool) (m : Match) : Type 0 where
  pub acts : (yields m.action ≡ true) ⊎ ((m.action ≡ hold) × (running ≡ false))
  pub rests :
      (eqb m.idle stopped || eqb m.idle cooldown || eqb m.idle disabled || eqb m.idle error) ≡ true
  pub counted : m.preempts ≡ m.competing
  pub cools : m.competing ≡ true → m.idle ≡ cooldown
  pub contends : m.competing ≡ true → yields m.action ≡ true

-- The match that decides.
record IsDecisive (running : Bool) (m : Match) : Type 0 where
  acts : (m.action ≡ run) ⊎ (yields m.action ≡ true) ⊎ ((m.action ≡ hold) × (running ≡ false))
  rests : any (eqb m.idle) idle ≡ true
  counted : m.preempts ≡ m.competing
  cools : m.competing ≡ true → m.idle ≡ cooldown
  contends : m.competing ≡ true → yields m.action ≡ true

-- Between two states in which the runtime does not run every transition is legal.
can_transition-idle :
    (s t : State) → any (eqb s) idle ≡ true → any (eqb t) idle ≡ true → can_transition s t ≡ true
unfolding can_transition
can_transition-idle s t h k = ground arith

module _ (P : Platform) where
  abbrev pub Proper : Eval P → List Match → Type 0
  Proper e = All (IsProper e.running)

  safety_rules-Proper : (e : Eval P) → Proper e (safety_rules P e)
  unfolding safety_rules
  safety_rules-Proper e = ground arith

  pause_rules-Proper : (e : Eval P) → Proper e (pause_rules P e)
  unfolding pause_rules
  pause_rules-Proper e = ground arith

  critical_rules-Proper : (e : Eval P) → Proper e (critical_rules P e)
  unfolding critical_rules
  critical_rules-Proper e = ground arith

  gaming_rules-Proper : (e : Eval P) → Proper e (gaming_rules P e)
  unfolding gaming_rules
  gaming_rules-Proper e = ground arith

  profile_rules-Proper : (e : Eval P) → Proper e (profile_rules P e)
  unfolding profile_rules
  profile_rules-Proper e = ground arith

  pub yield_rules-Proper : (e : Eval P) → Proper e (yield_rules P e)
  unfolding yield_rules
  yield_rules-Proper e =
      let join = All-append (IsProper e.running) in
      join (safety_rules P e) _ (safety_rules-Proper e) (
        join (pause_rules P e) _ (pause_rules-Proper e) (
          join (critical_rules P e) _ (critical_rules-Proper e)
            (join (gaming_rules P e) _ (gaming_rules-Proper e) (profile_rules-Proper e))))

  IsProper-IsDecisive : (running : Bool) (m : Match) → IsProper running m → IsDecisive running m
  IsProper-IsDecisive running m h = ground arith

  winner-nil-IsDecisive : (e : Eval P) → IsDecisive e.running (winner P e [])
  unfolding winner eligibility run_match
  winner-nil-IsDecisive e = ground arith

  winner-IsDecisive :
      (e : Eval P) (ms : List Match) → Proper e ms → IsDecisive e.running (winner P e ms)
  winner-IsDecisive e (m ∷ ms) h = unfold winner in IsProper-IsDecisive e.running m h.0
  winner-IsDecisive e [] h = winner-nil-IsDecisive e

  -- The match that decides about a snapshot.
  abbrev decisive : Snapshot P → Config P → Match
  decisive s c = let e = new_eval P s c in winner P e (yield_rules P e)

  decisive-IsDecisive :
      (s : Snapshot P) (c : Config P) → IsDecisive (runtime_running s.runtime.state) (decisive s c)
  unfolding new_eval
  decisive-IsDecisive s c =
      let e = new_eval P s c in winner-IsDecisive e (yield_rules P e) (yield_rules-Proper e)

  decide-action :
      (e : Eval P) (m : Match) (ms : List Match)
      → IsDecisive e.running m
      → let a = (decide P e m ms).action in
        ((e.running ≡ false) → (a ≡ run) ⊎ (a ≡ hold))
        × ((e.running ≡ true) → (a ≡ run) ⊎ (a ≡ drain) ⊎ (a ≡ preempt))
  unfolding decide
  decide-action e m ms h = (λ r. ground arith, λ r. ground arith)

  decide-idle_state :
      (e : Eval P) (m : Match) (ms : List Match)
      → IsDecisive e.running m
      → any (eqb (decide P e m ms).idle_state) idle ≡ true
  unfolding decide
  decide-idle_state e m ms h = ground arith

  decide_preemption :
      (e : Eval P) (m : Match) (ms : List Match)
      → IsDecisive e.running m
      → let d = decide P e m ms in
        (d.counts_as_preemption ≡ (e.running && yields d.action && d.competing))
        × (d.suppress ≡ (d.counts_as_preemption && would_suppress P e))
  unfolding decide
  decide_preemption e m ms h = (ground arith, refl)

  decide_competing :
      (e : Eval P) (m : Match) (ms : List Match)
      → IsDecisive e.running m
      → (decide P e m ms).competing ≡ true
      → let d = decide P e m ms in
        (d.next_load_at ≡ 0)
        × ((d.idle_state ≡ cooldown) ⊎ (d.idle_state ≡ suppressed))
        × (d.action ≢ run)
  unfolding decide next_load_at
  decide_competing e m ms h c = (ground arith, ground arith, λ r. ground arith)

  -- While the runtime is stopped the decision is to load or to hold, never to drain or preempt. While
  -- it runs the decision is to run, drain or preempt, never to hold.
  evaluate-action :
      (s : Snapshot P) (c : Config P)
      → let a = (evaluate P s c).action in
        (runtime_running s.runtime.state ≡ false → (a ≡ run) ⊎ (a ≡ hold))
        × (runtime_running s.runtime.state ≡ true → (a ≡ run) ⊎ (a ≡ drain) ⊎ (a ≡ preempt))
  unfolding evaluate new_eval
  evaluate-action s c =
      decide-action (new_eval P s c) (decisive s c) (yield_rules P (new_eval P s c))
        (decisive-IsDecisive s c)

  -- The idle state of a decision is a state in which the runtime does not run, and the table of
  -- transitions leads to it from each other such state.
  pub evaluate-idle_state :
      (s : Snapshot P) (c : Config P) (from : State)
      → any (eqb from) idle ≡ true
      → let to = (evaluate P s c).idle_state in
        (any (eqb to) idle ≡ true) × (can_transition from to ≡ true)
  unfolding evaluate new_eval
  evaluate-idle_state s c from h =
      let rests =
        decide-idle_state (new_eval P s c) (decisive s c) (yield_rules P (new_eval P s c))
          (decisive-IsDecisive s c) in
      (rests, can_transition-idle from _ h rests)

  -- A decision counts as a preemption exactly if the runtime runs, the action stops it and the cause
  -- is a competing workload; it suppresses reloads exactly if it counts and, with this one, the
  -- preemptions within the window reach the limit.
  evaluate_preemption :
      (s : Snapshot P) (c : Config P)
      → let d = evaluate P s c in
        (d.counts_as_preemption
          ≡ (runtime_running s.runtime.state && yields d.action && d.competing))
        × (d.suppress ≡ (
            d.counts_as_preemption
            && leb c.anti_thrash.max_preemptions
                (recent s.now c.anti_thrash.window s.timers.preemptions + 1)))
  unfolding evaluate would_suppress new_eval
  evaluate_preemption s c =
      let h =
        decide_preemption (new_eval P s c) (decisive s c) (yield_rules P (new_eval P s c))
          (decisive-IsDecisive s c) in
      rw add-one h

  -- A competing workload never lets the model load or run on; its idle state is the cooldown or,
  -- while reloads are suppressed, the suppression; and no time for the next load is promised.
  evaluate_competing :
      (s : Snapshot P) (c : Config P)
      → let d = evaluate P s c in
        d.competing ≡ true
        → (d.next_load_at ≡ 0)
          × ((d.idle_state ≡ cooldown) ⊎ (d.idle_state ≡ suppressed))
          × (d.action ≢ run)
  unfolding evaluate new_eval
  evaluate_competing s c =
      decide_competing (new_eval P s c) (decisive s c) (yield_rules P (new_eval P s c))
        (decisive-IsDecisive s c)
