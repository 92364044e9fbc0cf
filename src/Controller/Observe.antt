-- ===== src/Controller/Observe.antt =====
-- internal/controller/step.go: what a step takes in before it decides: results of goroutines, resets
-- of the GPU, observations, and the check of the setup.
use benchwarmer.Prelude.{
  ℕ, suc, ◌+◌, ◌-◌, ◌*◌, ltb, leb, ◌==◌, Bool, true, false, not, ◌&&◌, ◌||◌, List, [], ◌∷◌, Option,
  none, some, String, if◌then◌else◌, is_some, max,
}
use benchwarmer.Platform.{Platform}
use benchwarmer.Config.{second, minute_ns}
use benchwarmer.State.{preempting, runtime_running, eqb}
use benchwarmer.Policy.Types.{Mode, grown, GpuFacts, AppFacts, SessionFacts}
use benchwarmer.Policy.Rules.{is_none}
use benchwarmer.Controller.Types.{Instance, Controller, set_recovery}
use benchwarmer.Controller.Timing.{escalate}
use benchwarmer.Controller.Stop.{on_stopped, on_zombie_stopped, retry_zombie, on_crash}
use benchwarmer.Controller.Load.{on_load_result}

-- The result of a goroutine that stops a runtime.
pub record StopResult : Type 0 where
  pub failed : Bool
  pub cleanup : Bool

module _ (P : Platform) where
  abbrev Ctl : Type 0
  Ctl = Controller P

  -- What the fact builder makes of the observations.
  pub record Facts : Type 0 where
    pub gpu : GpuFacts P
    pub apps : AppFacts P
    pub session : SessionFacts

  -- What one step finds: results of goroutines, GPU resets (none if they are not watched), the facts
  -- if there is a builder, the answer of the setup check, and what a start of the runtime gives.
  pub record Inputs : Type 0 where
    pub now : ℕ
    pub collect : Bool
    pub load_result : Option (Instance × Bool)
    pub stop_results : List StopResult
    pub exited : Bool
    pub resets : Option (List ℕ)
    pub facts : Option Facts
    pub setup_answer : Option String
    pub start_result : Option Instance

  unfoldable pub absorb_load : ℕ → Option (Instance × Bool) → Ctl → Ctl
  absorb_load now none c = c
  absorb_load now (some (i, failed)) c = on_load_result P now i failed c

  unfoldable pub absorb_stops : ℕ → List StopResult → Ctl → Ctl
  absorb_stops now [] c = c
  absorb_stops now (r ∷ rest) c =
      absorb_stops now rest
        (if r.cleanup then on_zombie_stopped P now r.failed c else on_stopped P now r.failed c)

  unfoldable pub absorb_async : Inputs → Ctl → Ctl
  absorb_async x c =
      let c1 = absorb_stops x.now x.stop_results (absorb_load x.now x.load_result c) in
      let c2 = retry_zombie P x.now c1 in
      if is_some c2.inst && not (eqb c2.st preempting) && x.exited then on_crash P x.now c2 else c2

  abbrev latest : ℕ → List ℕ → ℕ
  latest t [] = t
  latest t (r ∷ rest) = latest (max t r) rest

  -- A new incident: the wait escalates, and the device counts as lost.
  unfoldable pub new_incident : ℕ → Ctl → Ctl
  unfolding set_recovery
  new_incident now c =
      let n = suc c.gpu_resets in
      set_recovery P now (escalate n c.cfg.recovery.device_lost_cooldown (1440 * minute_ns))
        "GPU driver reset"
        (record c {
          last_gpu_reset = now;
          gpu_resets = n;
          power = record c.power { device_lost = true };
        })

  unfoldable pub incident : ℕ → List ℕ → Ctl → Ctl
  incident now [] c =
      if leb (c.last_gpu_check + 30 * second) now then record c { last_gpu_check = now } else c
  incident now (r ∷ rest) c =
      let c' = record c { last_gpu_check = latest (max now r) rest } in
      if not (c.last_gpu_reset == 0) && ltb now (c.last_gpu_reset + 2 * minute_ns)
      then record c' {
        power = record c.power { device_lost = c.power.device_lost || runtime_running c.st };
      }
      else new_incident now c'

  unfoldable pub watch_resets : ℕ → Option (List ℕ) → Ctl → Ctl
  watch_resets now none c = c
  watch_resets now (some resets) c = incident now resets c

  unfoldable pub check_gpu_resets : Inputs → Ctl → Ctl
  check_gpu_resets x c =
      let c' = watch_resets x.now x.resets c in
      if c'.power.device_lost
        && not (runtime_running c'.st)
        && not (is_some c'.inst)
        && not (is_some c'.zombie)
      then record c' { power = record c'.power { device_lost = false } }
      else c'

  abbrev expire : ℕ → Option ℕ → Ctl → Ctl
  expire now none c = c
  expire now (some until) c =
      if ltb now until
      then c
      else record c { mode = record { mode = Mode.auto; until = none }; until_reboot = false }

  unfoldable pub expire_mode : ℕ → Ctl → Ctl
  expire_mode now c = expire now c.mode.until c

  -- Until the release of our own memory is confirmed it is not a competing workload's.
  abbrev own_release : Ctl → Ctl
  own_release c =
      if c.vram.active && ltb 0 c.vram.footprint && not (runtime_running c.st)
      then record c {
        gpu = record c.gpu {
          external_vram_mib = c.gpu.external_vram_mib - c.vram.footprint;
          external_vram_growth_mib = grown 0;
        };
      }
      else c

  abbrev build : Option Facts → Ctl → Ctl
  build none c = c
  build (some f) c = record c { gpu = f.gpu; apps = f.apps; session = f.session }

  unfoldable pub observe : Inputs → Ctl → Ctl
  observe x c = if x.collect || c.last_evaluated == 0 then own_release (build x.facts c) else c

  abbrev telemetry_gone : Ctl → Ctl
  telemetry_gone c =
      if is_none c.gpu.confidence
        && leb c.cfg.telemetry.loss_grace c.gpu.none_for
        && not c.telemetry_lost
      then record c { telemetry_lost = true }
      else c

  unfoldable pub track_telemetry_health : ℕ → Ctl → Ctl
  unfolding set_recovery
  track_telemetry_health now c =
      let c1 = telemetry_gone c in
      let n = suc c1.telemetry_losses in
      if c1.telemetry_lost && not (is_none c1.gpu.confidence)
      then set_recovery P now
          (escalate n c1.cfg.recovery.telemetry_recovery_cooldown c1.cfg.recovery.crash_backoff_max)
          "telemetry recovery" (record c1 { telemetry_lost = false; telemetry_losses = n })
      else c1

  abbrev setup_answered : Option String → Ctl → Ctl
  setup_answered none c = c
  setup_answered (some p) c = record c { setup_problem = p; setup_pending = false }

  -- At most one check of the files is under way, and one starts at most every five seconds.
  unfoldable pub check_setup : Inputs → Ctl → Ctl
  check_setup x c =
      if runtime_running c.st || not c.deps.has_adapter
      then c
      else if c.setup_pending
      then setup_answered x.setup_answer c
      else if not (c.last_setup_check == 0) && ltb x.now (c.last_setup_check + 5 * second)
      then c
      else setup_answered x.setup_answer
          (record c { last_setup_check = x.now; setup_pending = true })
