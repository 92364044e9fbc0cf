-- ===== src/Controller/Gate.antt =====
-- internal/controller/step.go: whatever a step takes in, requests are admitted only while the state
-- admits, and a state of a running runtime has one.
use benchwarmer.Prelude.{
  suc, ℕ, ◌≡◌, refl, ap, ◌∙◌, Bool, true, false, inl, inr, List, [], ◌∷◌, none, some, arith,
  is_some, any, Bool-cases,
}
use benchwarmer.Platform.{Platform}
use benchwarmer.State.{
  State, preempting, error, loading, ready, admitting, runtime_running, can_transition, eqb, idle,
}
use benchwarmer.Policy.Types.{Decision}
use benchwarmer.Proxy.Gate.{TicketId, preempted, Gate, active_ids, preempt_all, cancel}
use benchwarmer.Controller.Types.{
  Job, stop, already_exited, zero_decision, Instance, Controller, transition, set_recovery,
}
use benchwarmer.Controller.Timing.{backoff}
use benchwarmer.Controller.Stop.{
  close_gate, force_close, begin_stop, retry_zombie, on_zombie_stopped, stop_failed, stop_settled,
  or_stopped, stop_verified, on_stopped, crash_cleared, on_crash,
}
use benchwarmer.Controller.Load.{load_failed, load_broken, on_load_result}

-- How many jobs stop the runtime of the state; a cleanup stops one of before.
abbrev pub stops : List Job → ℕ
stops [] = 0
stops (stop _ ∷ js) = suc (stops js)
stops (already_exited ∷ js) = suc (stops js)
stops (_ ∷ js) = stops js

module _ (P : Platform) where
  pub record IsSafe (c : Controller P) : Type 0 where
    pub open_admits : c.gate.is_open ≡ true → admitting c.st ≡ true
    pub live : runtime_running c.st ≡ is_some c.inst

  -- The parts that the invariant speaks of.
  abbrev pub Same : Controller P → Controller P → Type 0
  Same c c' =
      (c'.gate.is_open ≡ c.gate.is_open)
      × (c'.st ≡ c.st)
      × (c'.inst ≡ c.inst)
      × (stops c'.jobs ≡ stops c.jobs)

  pub Same-IsSafe : (c c' : Controller P) → Same c c' → IsSafe c → IsSafe c'
  Same-IsSafe c c' e h = ground arith

  pub begin_stop-IsSafe :
      (d : Decision) (c : Controller P)
      → runtime_running c.st ≡ true
      → IsSafe c
      → IsSafe (begin_stop P d c)
  unfolding begin_stop can_transition
  begin_stop-IsSafe d c r h = ground arith

  pub retry_zombie-Same : (now : ℕ) (c : Controller P) → Same c (retry_zombie P now c)
  unfolding retry_zombie
  retry_zombie-Same now c = ground arith

  pub on_zombie_stopped-Same :
      (now : ℕ) (failed : Bool) (c : Controller P) → Same c (on_zombie_stopped P now failed c)
  unfolding on_zombie_stopped
  on_zombie_stopped-Same now failed c = ground arith

  stop_failed-IsSafe :
      (now : ℕ) (c : Controller P) → c.st ≡ preempting → IsSafe c → IsSafe (stop_failed P now c)
  unfolding stop_failed can_transition
  stop_failed-IsSafe now c r h = ground arith

  pub backoff-Same : (now : ℕ) (c : Controller P) → Same c (backoff P now c)
  unfolding backoff set_recovery
  backoff-Same now c = ground arith

  preempt_all-is_open : (l : List TicketId) (g : Gate) → (preempt_all l g).is_open ≡ g.is_open
  unfolding preempt_all cancel
  preempt_all-is_open [] g = refl
  preempt_all-is_open (i ∷ l) g = ground (arith, preempt_all-is_open l (cancel i preempted g))

  pub force_close-Same : (c : Controller P) → Same c (force_close P c)
  unfolding force_close
  force_close-Same c = (preempt_all-is_open (active_ids c.gate) c.gate, refl, refl, refl)

  pub close_gate-shut :
      (d : Decision) (c : Controller P)
      → let c' = (close_gate P d c).0 in
        (c'.gate.is_open ≡ false) × (c'.st ≡ c.st) × (c'.inst ≡ c.inst)
  unfolding close_gate
  close_gate-shut d c = ground arith

  transition-error :
      (c : Controller P)
      → c.gate.is_open ≡ false
      → is_some c.inst ≡ false
      → can_transition c.st error ≡ true
      → IsSafe (transition P error c).0
  unfolding transition
  transition-error c o i t = ground arith

  -- What holds of a state that is about to become an error.
  abbrev pub Cleared : Controller P → Controller P → Type 0
  Cleared c c' = (c'.gate.is_open ≡ false) × (c'.st ≡ c.st) × (is_some c'.inst ≡ false)

  pub error-IsSafe :
      (now : ℕ) (c c' : Controller P)
      → Cleared c c'
      → can_transition c.st error ≡ true
      → IsSafe (transition P error (backoff P now c')).0
  error-IsSafe now c c' h t =
      let b = backoff-Same now c' in
      transition-error (backoff P now c') (b.0 ∙ h.0) (ap is_some b.2 ∙ h.2)
        (ap (λ s. can_transition s error) (b.1 ∙ h.1) ∙ t)

  pub crash_cleared-Cleared : (now : ℕ) (c : Controller P) → Cleared c (crash_cleared P now c)
  unfolding crash_cleared
  crash_cleared-Cleared now c =
      let c0 : Controller P = (close_gate P zero_decision (record c { inst = none })).0 in
      let c1 : Controller P = force_close P c0 in
      let c2 : Controller P = record c1 {
        zombie = c.inst;
        zombie_attempts = 0;
        zombie_retry_at = now;
      } in
      let (open2, st2, inst2, jobs2) = retry_zombie-Same now c2 in
      let (open1, st1, inst1, jobs1) = force_close-Same c0 in
      let (open0, st0, inst0) = close_gate-shut zero_decision (record c { inst = none }) in
      (open2 ∙ open1 ∙ open0, st2 ∙ st1 ∙ st0, ap is_some (inst2 ∙ inst1 ∙ inst0))

  load_broken-IsSafe :
      (now : ℕ) (i : Instance) (c : Controller P)
      → can_transition c.st error ≡ true
      → IsSafe (load_broken P now i c)
  unfolding load_broken load_failed
  load_broken-IsSafe now i c t =
      let c1 : Controller P = record c {
        inst = none;
        zombie = some i;
        zombie_attempts = 0;
        zombie_retry_at = now;
      } in
      let c2 = retry_zombie P now c1 in
      let (open1, st1, inst1, jobs1) = retry_zombie-Same now c1 in
      let (open2, st2, inst2) = close_gate-shut c.decision c2 in
      error-IsSafe now c (close_gate P c.decision c2).0
        (open2, st2 ∙ st1, ap is_some (inst2 ∙ inst1)) t

  pub on_crash-IsSafe :
      (now : ℕ) (c : Controller P) → can_transition c.st error ≡ true → IsSafe (on_crash P now c)
  unfolding on_crash
  on_crash-IsSafe now c t =
      error-IsSafe now c (crash_cleared P now c) (crash_cleared-Cleared now c) t

  loading_error : (s : State) → eqb s loading ≡ true → can_transition s error ≡ true
  unfolding can_transition
  loading_error s h = ground arith

  loaded-IsSafe :
      (now : ℕ) (c : Controller P)
      → eqb c.st loading ≡ true
      → IsSafe c
      → IsSafe (transition P ready (record c { loaded_at = now })).0
  unfolding transition can_transition
  loaded-IsSafe now c l h = ground arith

  pub on_load_result-IsSafe :
      (now : ℕ) (i : Instance) (failed : Bool) (c : Controller P)
      → IsSafe c
      → IsSafe (on_load_result P now i failed c)
  unfolding on_load_result
  on_load_result-IsSafe now i failed c h = elim (Bool-cases (eqb c.st loading)) [
    | inl l ↦
        ground (arith, load_broken-IsSafe now i c (loading_error c.st l), loaded-IsSafe now c l h)
    | inr l ↦ ground arith
  ]

  settled-IsSafe :
      (to : State) (c : Controller P)
      → any (eqb to) idle ≡ true
      → c.st ≡ preempting
      → c.gate.is_open ≡ false
      → is_some c.inst ≡ false
      → IsSafe (transition P to c).0
  unfolding transition can_transition
  settled-IsSafe to c r p o i = ground arith

  or_stopped-idle : (s : State) → any (eqb (or_stopped P s)) idle ≡ true
  or_stopped-idle s = ground arith

  stop_settled-parts :
      (now : ℕ) (c : Controller P)
      → let c' = (stop_settled P now c).0 in
        (c'.gate.is_open ≡ c.gate.is_open) × (c'.st ≡ c.st) × (is_some c'.inst ≡ false)
  unfolding stop_settled
  stop_settled-parts now c = ground arith

  pub on_stopped-IsSafe :
      (now : ℕ) (failed : Bool) (c : Controller P)
      → c.st ≡ preempting
      → IsSafe c
      → IsSafe (on_stopped P now failed c)
  unfolding on_stopped stop_verified
  on_stopped-IsSafe now true c p h = stop_failed-IsSafe now c p h
  on_stopped-IsSafe now false c p h =
      let (same, st, gone) = stop_settled-parts now c in
      settled-IsSafe (or_stopped P (stop_settled P now c).1) (stop_settled P now c).0
        (or_stopped-idle (stop_settled P now c).1) (st ∙ p) (ground arith) gone
