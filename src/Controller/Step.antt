-- ===== src/Controller/Step.antt =====
-- internal/controller/step.go: one step of the controller.
use benchwarmer.Prelude.{
  ℕ, ◌+◌, ◌-◌, ◌*◌, ◌/◌, ltb, leb, ◌==◌, false, not, ◌&&◌, ◌||◌, Option, none, some, if◌then◌else◌,
}
use benchwarmer.Platform.{Platform}
use benchwarmer.Config.{second}
use benchwarmer.State.{admitting, condition}
use benchwarmer.Policy.Types.{Confidence, Snapshot, Decision}
use benchwarmer.Policy.Rules.{is_none}
use benchwarmer.Policy.Evaluate.{evaluate}
use benchwarmer.Proxy.Gate.{update_closed, active_requests}
use benchwarmer.Controller.Types.{Instance, Controller}
use benchwarmer.Controller.Observe.{
  Inputs, absorb_async, check_gpu_resets, expire_mode, observe, track_telemetry_health, check_setup,
}
use benchwarmer.Controller.Act.{apply_manual, apply_zombie, apply_load_blocked, act}

module _ (P : Platform) where
  abbrev Ctl : Type 0
  Ctl = Controller P

  abbrev pid_of : Option Instance → ℕ
  pid_of none = 0
  pid_of (some i) = i.pid

  unfoldable pub snapshot : ℕ → Ctl → Snapshot P
  unfolding active_requests
  snapshot now c =
      let (n, oldest) = active_requests now c.gate in
      record {
        now = now;
        mode = c.mode;
        runtime = record {
          state = c.st;
          pid = pid_of c.inst;
          active_requests = n;
          oldest_request_age = oldest;
          draining_since = c.drain_start;
          footprint_mib = c.footprint;
          setup_problem = c.setup_problem;
        };
        gpu = c.gpu;
        apps = c.apps;
        session = c.session;
        power = c.power;
        timers = c.timers;
      }

  -- Closes the check of the memory's release when it is confirmed, or after the time allowed.
  unfoldable pub check_vram_release : ℕ → Ctl → Ctl
  check_vram_release now c =
      let over = ltb (c.vram.since + c.cfg.runtime.vram_release_timeout) now in
      let used = c.gpu.vram_used_mib in
      let released =
        leb used (c.baseline + c.cfg.runtime.vram_release_tolerance_mib)
        || (ltb 0 c.vram.footprint && leb (used + c.vram.footprint * 9 / 10) c.vram.used_before) in
      if c.vram.active && (over || (not (is_none c.gpu.confidence) && released))
      then record c { vram = record c.vram { active = false } }
      else c

  abbrev candidate : Confidence → Ctl → ℕ
  candidate Confidence.high c = c.gpu.own_vram_mib
  candidate Confidence.degraded c = c.gpu.vram_used_mib - c.baseline
  candidate _ c = 0

  -- A runtime that stays up resets the counts of faults; a new one shows the memory that it needs.
  unfoldable pub check_crash_reset : ℕ → Ctl → Ctl
  check_crash_reset now c =
      let c1 =
        if admitting c.st
          && not (c.loaded_at == 0)
          && leb (c.loaded_at + c.cfg.recovery.crash_reset_after) now
        then record c { crash_count = 0; telemetry_losses = 0; gpu_resets = 0 }
        else c in
      let found = candidate c1.gpu.confidence c1 in
      if admitting c1.st && ltb now (c1.loaded_at + 30 * second) && ltb c1.footprint found
      then record c1 { footprint = found }
      else c1

  unfoldable pub publish : Ctl → Ctl
  unfolding update_closed
  publish c = if admitting c.st then c else record c {
    gate =
        update_closed (record { condition = condition c.st; retry_after = c.decision.next_load_at })
          c.gate;
  }

  -- A competing workload restarts the cooldown.
  unfoldable pub note_competing : ℕ → Decision → Ctl → Ctl
  note_competing now d c =
      if d.competing
      then record c {
        timers = record c.timers { last_competing_at = now; last_competing_rule = d.rule };
      }
      else c

  -- The part of a step before the decision.
  unfoldable pub take_in : Inputs P → Ctl → Ctl
  take_in x c = check_setup P x (
      track_telemetry_health P x.now
        (observe P x (expire_mode P x.now (check_gpu_resets P x (absorb_async P x c)))))

  -- The decision, with what the API has asked for and what forbids a load.
  unfoldable pub decide_step : ℕ → Ctl → Decision × Ctl
  decide_step now c =
      let (d, c') = apply_manual P (evaluate P (snapshot now c) c.cfg) c in
      (apply_load_blocked P (apply_zombie P d c') c', c')

  unfoldable pub carry_out : Inputs P → Decision → Ctl → Ctl
  carry_out x d c =
      let c1 = record (note_competing x.now d c) { decision = d; last_evaluated = x.now } in
      publish (check_crash_reset x.now (check_vram_release x.now (act P x.now x.start_result d c1)))

  -- The state is saved after each step, which changes nothing in it.
  unfoldable pub step : Inputs P → Ctl → Ctl
  step x c = let (d, c') = decide_step x.now (take_in x c) in carry_out x d c'
