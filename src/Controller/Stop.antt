-- ===== src/Controller/Stop.antt =====
-- internal/controller/step.go: how the runtime is stopped, and what follows when it has stopped, has
-- crashed, or cannot be confirmed to be gone.
use benchwarmer.Prelude.{
  ℕ, suc, ◌+◌, ltb, leb, Bool, true, false, not, ◌||◌, List, [], ◌∷◌, ◌++◌, Option, none, some,
  String, if◌then◌else◌, is_some,
}
use benchwarmer.Platform.{Platform}
use benchwarmer.Config.{Profile, find_profile, zero_profile}
use benchwarmer.State.{
  State, yielding, unavailable, stopped, draining, preempting, suppressed, error, unset, admitting,
  runtime_running, eqb,
}
use benchwarmer.Policy.Types.{Rule, manual_drain, manual_reload, no_rule, Decision}
use benchwarmer.Policy.Evaluate.{rule_eqb}
use benchwarmer.Proxy.Gate.{close, preempt_all, active_ids}
use benchwarmer.Controller.Types.{
  Instance, Manual, nothing, drain, reload, Job, stop, cleanup, already_exited, zero_decision,
  Controller, transition, set_recovery,
}
use benchwarmer.Controller.Timing.{zombie_backoff, backoff}

abbrev pub manual_kind : Rule → Manual
manual_kind manual_drain = drain
manual_kind manual_reload = reload
manual_kind _ = nothing

-- `pruneTimes`
unfoldable pub prune_times : ℕ → ℕ → List ℕ → List ℕ
prune_times now window [] = []
prune_times now window (t ∷ ts) =
    let rest = prune_times now window ts in if leb now (t + window) then t ∷ rest else rest

module _ (P : Platform) where
  abbrev Ctl : Type 0
  Ctl = Controller P

  abbrev or_zero : Option (Profile P) → Profile P
  or_zero none = zero_profile P
  or_zero (some p) = p

  -- A profile by its name; the zero profile if there is none.
  abbrev pub profile_of : Ctl → String → Profile P
  profile_of c name = or_zero (find_profile P name c.cfg.profiles)

  -- Closes the gate, and counts the requests that are active.
  unfoldable pub close_gate : Decision → Ctl → Ctl × ℕ
  unfolding close
  close_gate d c =
      let (g, n) =
        close
          (record {
            condition = if not (admitting c.st) then unavailable else yielding;
            retry_after = d.next_load_at;
          })
          c.gate in
      (record c { gate = g }, n)

  unfoldable pub force_close : Ctl → Ctl
  unfolding preempt_all active_ids
  force_close c = record c { gate = preempt_all (active_ids c.gate) c.gate }

  abbrev record_yield : Decision → Ctl → Ctl
  record_yield d c =
      if rule_eqb c.yield.rule no_rule || not (eqb c.st draining)
      then record c { yield = d; yield_manual = manual_kind d.rule }
      else c

  abbrev stop_job : Option Instance → Job
  stop_job none = already_exited
  stop_job (some i) = stop i

  abbrev launch_stop : Ctl → Ctl
  launch_stop c = record c {
    vram = record {
      active = false;
      since = 0;
      used_before = c.gpu.vram_used_mib;
      footprint = c.footprint;
    };
    jobs = stop_job c.inst ∷ c.jobs;
  }

  unfoldable pub begin_stop : Decision → Ctl → Ctl
  unfolding close_gate transition
  begin_stop d c =
      let (c', ok) = transition P preempting (close_gate d (record_yield d c)).0 in
      if ok then launch_stop c' else c'

  -- Starts to terminate a runtime that is not verified to be gone, unless that is under way or the
  -- next attempt is not due.
  abbrev retry : Option Instance → ℕ → Ctl → Ctl
  retry none now c = c
  retry (some i) now c =
      if c.zombie_stopping || ltb now c.zombie_retry_at
      then c
      else record c { zombie_stopping = true; jobs = cleanup i ∷ c.jobs }

  unfoldable pub retry_zombie : ℕ → Ctl → Ctl
  retry_zombie now c = retry c.zombie now c

  unfoldable pub on_zombie_stopped : ℕ → Bool → Ctl → Ctl
  on_zombie_stopped now failed c =
      let c' = record c { zombie_stopping = false } in
      if not (is_some c.zombie)
      then c'
      else if failed
      then record c' {
        zombie_attempts = suc c.zombie_attempts;
        zombie_retry_at = now + zombie_backoff (suc c.zombie_attempts);
      }
      else record c' { zombie = none }

  -- The fields that every end of a stop resets.
  abbrev ended : Ctl → Ctl
  ended c = record c {
    inst = none;
    drain_start = 0;
    drain_deadline = 0;
    yield = zero_decision;
    yield_manual = nothing;
    manual_pending = nothing;
  }

  abbrev count_preemption : ℕ → Decision → Ctl → Ctl
  count_preemption now y c =
      if y.counts_as_preemption
      then record c {
        timers = record c.timers {
          preemptions = prune_times now c.cfg.anti_thrash.window c.timers.preemptions ++ (now ∷ []);
        };
      }
      else c

  abbrev is_manual_drain : Manual → Bool
  is_manual_drain drain = true
  is_manual_drain _ = false

  -- The bookkeeping by the cause of the stop, and the idle state that it asks for.
  abbrev settle : ℕ → Decision → Manual → Ctl → Ctl × State
  settle now y manual c =
      if y.suppress
      then (record c { timers = record c.timers { suppressed_at = now } }, suppressed)
      else if y.competing
      then (c, y.idle_state)
      else if is_manual_drain manual
      then (set_recovery P now (profile_of c y.profile).cooldown "manual drain" c, y.idle_state)
      else (c, y.idle_state)

  abbrev pub or_stopped : State → State
  or_stopped s = if eqb s unset || runtime_running s then stopped else s

  -- The stop could not be verified.
  unfoldable pub stop_failed : ℕ → Ctl → Ctl
  unfolding transition set_recovery
  stop_failed now c =
      let c' = record (ended c) {
        zombie = c.inst;
        zombie_attempts = 1;
        zombie_retry_at = now + zombie_backoff 1;
      } in
      (transition P error
        (set_recovery P now c.cfg.recovery.device_lost_cooldown "kill failure" c')).0

  -- The bookkeeping of a stop that is verified, and the idle state that it asks for.
  unfoldable pub stop_settled : ℕ → Ctl → Ctl × State
  unfolding set_recovery
  stop_settled now c =
      let y = c.yield in
      let c1 = record (ended c) { vram = record c.vram { active = true; since = now } } in
      settle now y c.yield_manual (count_preemption now y c1)

  unfoldable pub stop_verified : ℕ → Ctl → Ctl
  stop_verified now c = let (c', idle) = stop_settled now c in (transition P (or_stopped idle) c').0

  unfoldable pub on_stopped : ℕ → Bool → Ctl → Ctl
  on_stopped now failed c = if failed then stop_failed now c else stop_verified now c

  abbrev crashed_inst : Ctl → Ctl
  crashed_inst c = record c { inst = none }

  abbrev unverified : Option Instance → ℕ → Ctl → Ctl
  unverified i now c = record c { zombie = i; zombie_attempts = 0; zombie_retry_at = now }

  -- The gate is shut, the active requests are cut, and the process is to be terminated.
  unfoldable pub crash_cleared : ℕ → Ctl → Ctl
  crash_cleared now c =
      let c1 = force_close (close_gate zero_decision (crashed_inst c)).0 in
      let c2 = retry_zombie now (unverified c.inst now c1) in
      record c2 { drain_start = 0; drain_deadline = 0; yield = zero_decision }

  -- The runtime has exited without being asked.
  unfoldable pub on_crash : ℕ → Ctl → Ctl
  on_crash now c = (transition P error (backoff P now (crash_cleared now c))).0
