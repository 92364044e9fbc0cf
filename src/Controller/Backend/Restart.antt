-- ===== src/Controller/Backend/Restart.antt =====
-- internal/controller/controller.go: what a start of the service takes over from the saved state.
use benchwarmer.Prelude.{
  ℕ, ◌+◌, ◌≡◌, ◌≢◌, max, ltb, not, ◌&&◌, Option, some, refl, ap, String, if◌then◌else◌, arith,
  Bool-cases, inl, inr, ◌∙◌, ◌||◌,
}
use benchwarmer.Platform.{Platform}
use benchwarmer.Policy.Types.{Mode, TimerFacts}
use benchwarmer.Controller.Types.{Controller, set_recovery}
use benchwarmer.Controller.Backend.{
  restored_timers, restore, Persisted, is_unset, persisted, fault_recovery, same_boot, expired,
  start,
}

module _ (P : Platform) where
  -- The fields that a start takes over whatever the mode is.
  abbrev Restores : ℕ → Persisted → Controller P → Type 0
  Restores now p c =
      (c.crash_count ≡ p.crash_count)
      × (c.gpu_resets ≡ p.gpu_resets)
      × (c.telemetry_losses ≡ p.telemetry_losses)
      × (c.footprint ≡ p.footprint)
      × (c.timers ≡ restored_timers P now p.timers)

  restore-Restores :
      (now : ℕ) (boot : Option ℕ) (p : Persisted) (c : Controller P)
      → Restores now p (restore P now boot (some p) c)
  unfolding restore
  restore-Restores now boot p c =
      elim (Bool-cases (
        (not p.until_reboot || same_boot P boot p.boot_time)
        && not (expired P now p.mode.until)
        && not (is_unset P p.mode.mode))) [
          | inl e ↦ rw e (refl, refl, refl, refl, refl)
          | inr e ↦ rw e (refl, refl, refl, refl, refl)
        ]

  restored_timers_lem :
      (now : ℕ) (t : TimerFacts)
      → let t' = restored_timers P now t in
        (t'.last_competing_at ≡ t.last_competing_at)
        × (t'.last_competing_rule ≡ t.last_competing_rule)
        × (t'.preemptions ≡ t.preemptions)
        × (t'.suppressed_at ≡ t.suppressed_at)
        × (t'.recovery_until ≡ (
            if fault_recovery t.recovery_reason && ltb now t.recovery_until
            then t.recovery_until
            else 0))
  restored_timers_lem now t = ground arith

  set_recovery_lem :
      (now d : ℕ) (reason : String) (c : Controller P)
      → let c' = set_recovery P now d reason c in
        (c'.crash_count ≡ c.crash_count)
        × (c'.gpu_resets ≡ c.gpu_resets)
        × (c'.telemetry_losses ≡ c.telemetry_losses)
        × (c'.footprint ≡ c.footprint)
        × (c'.timers.last_competing_at ≡ c.timers.last_competing_at)
        × (c'.timers.last_competing_rule ≡ c.timers.last_competing_rule)
        × (c'.timers.preemptions ≡ c.timers.preemptions)
        × (c'.timers.suppressed_at ≡ c.timers.suppressed_at)
        × (c'.timers.recovery_until ≡ max (now + d) c.timers.recovery_until)
  unfolding set_recovery
  set_recovery_lem now d reason c = elim (Bool-cases (ltb c.timers.recovery_until (now + d))) [
    | inl e ↦ rw e (refl, refl, refl, refl, refl, refl, refl, refl, ground arith)
    | inr e ↦ rw e (refl, refl, refl, refl, refl, refl, refl, refl, ground arith)
  ]

  -- A start from the state that the controller `c` saved, by a new controller: the counts of faults
  -- and the timers of preemptions, of the suppression and of the cooldown are as saved; the wait for
  -- a recovery after a fault, if it is still to come, is not cut short; the wait at the start is kept
  -- in any case.
  pub start-persisted :
      (now booted : ℕ) (boot : Option ℕ) (c new : Controller P)
      → let c' = start P now boot (some (persisted P booted c)) new in
        (c'.crash_count ≡ c.crash_count)
        × (c'.gpu_resets ≡ c.gpu_resets)
        × (c'.telemetry_losses ≡ c.telemetry_losses)
        × (c'.footprint ≡ c.footprint)
        × (c'.timers.last_competing_at ≡ c.timers.last_competing_at)
        × (c'.timers.last_competing_rule ≡ c.timers.last_competing_rule)
        × (c'.timers.preemptions ≡ c.timers.preemptions)
        × (c'.timers.suppressed_at ≡ c.timers.suppressed_at)
        × (c'.timers.recovery_until
            ≡ max (now + new.cfg.recovery.startup_cooldown) (
                if fault_recovery c.timers.recovery_reason && ltb now c.timers.recovery_until
                then c.timers.recovery_until
                else 0))
  unfolding start persisted
  start-persisted now booted boot c new =
      let wait = new.cfg.recovery.startup_cooldown in
      let r = restore P now boot (some (persisted P booted c)) new in
      let (crashes, resets, losses, footprint, timers) =
        restore-Restores now boot (persisted P booted c) new in
      let (at, rule, preempted, suppressed, until) = restored_timers_lem now c.timers in
      let (crashes', resets', losses', footprint', at', rule', preempted', suppressed', until') =
        set_recovery_lem now wait "startup" r in
      (
        crashes' ∙ crashes,
        resets' ∙ resets,
        losses' ∙ losses,
        footprint' ∙ footprint,
        at' ∙ ap (λ t. t.last_competing_at) timers ∙ at,
        rule' ∙ ap (λ t. t.last_competing_rule) timers ∙ rule,
        preempted' ∙ ap (λ t. t.preemptions) timers ∙ preempted,
        suppressed' ∙ ap (λ t. t.suppressed_at) timers ∙ suppressed,
        until'
            ∙ ap (λ t. max (now + wait) t.recovery_until) timers
            ∙ ap (λ t. max (now + wait) t) until,
      )

  -- The mode that was saved is taken over exactly if it has not ended: neither by its time nor, for
  -- one until the reboot, by a reboot since. Otherwise the mode is that of the new controller.
  start_mode :
      (now booted : ℕ) (boot : Option ℕ) (c new : Controller P)
      → c.mode.mode ≢ Mode.unset
      → let c' = start P now boot (some (persisted P booted c)) new in
        let lasts =
          (not c.until_reboot || same_boot P boot booted) && not (expired P now c.mode.until) in
        (c'.mode ≡ (if lasts then c.mode else new.mode))
        × (c'.until_reboot ≡ (if lasts then c.until_reboot else new.until_reboot))
  unfolding start persisted restore set_recovery
  start_mode now booted boot c new m = ground arith
