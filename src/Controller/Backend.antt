-- ===== src/Controller/Backend.antt =====
-- internal/controller/backend.go and controller.go: what the API and the service ask of the
-- controller, the state that is saved, and the start.
pub mod Modes
pub mod Restart
use benchwarmer.Prelude.{
  ℕ, ℤ, pos, negsuc, ◌+◌, ◌-◌, ◌*◌, ltb, leb, ◌==◌, Bool, true, false, not, ◌&&◌, ◌||◌, [], ◌∷◌,
  Option, none, some, String, str_eq, if◌then◌else◌, any,
}
use benchwarmer.Platform.{Platform, codes}
use benchwarmer.Config.{Config, minute_ns}
use benchwarmer.State.{draining, preempting, runtime_running, eqb}
use benchwarmer.Policy.Types.{Mode, auto, pause, ai_priority, ModeFacts, TimerFacts}
use benchwarmer.Policy.Evaluate.{has_prefix}
use benchwarmer.Controller.Types.{Manual, reload, Controller, set_recovery}

-- A day of the calendar
pub record CivilDay : Type 0 where
  pub year : ℕ
  pub month : ℕ
  pub day : ℕ

-- What Go's `time` package answers: `ParseDuration` with none for an error, `LoadLocation` with
-- none for an error, `Local`, the day of `Time.In`, and `Date` for a whole hour of a day, which may be
-- one past the end of its month.
pub record Calendar : Type 1 where
  pub Zone : Type 0
  pub parse_duration : String → Option ℤ
  pub load_location : String → Option Zone
  pub local : Zone
  pub day_in : Zone → ℕ → CivilDay
  pub date : Zone → ℕ → ℕ → ℕ → ℕ → ℕ

-- `untilTomorrowHour`
abbrev until_tomorrow_hour : ℕ
until_tomorrow_hour = 8

module _ (k : Calendar) where
  abbrev or_local : Option k.Zone → k.Zone
  or_local none = k.local
  or_local (some zone) = zone

  -- An hour of the day after this instant's
  abbrev next_day : ℕ → String → ℕ → ℕ
  next_day now tz hour =
      let zone = or_local (k.load_location tz) in
      let l = k.day_in zone now in k.date zone l.year l.month (l.day + 1) hour

  abbrev pub next_local_midnight : ℕ → String → ℕ
  next_local_midnight now tz = next_day now tz 0

  abbrev pub next_local_morning : ℕ → String → ℕ
  next_local_morning now tz = next_day now tz until_tomorrow_hour

-- The part of `Persisted` that the modelled state has.
pub record Persisted : Type 0 where
  pub mode : ModeFacts
  pub until_reboot : Bool
  pub boot_time : ℕ
  pub telemetry_losses : ℕ
  pub gpu_resets : ℕ
  pub last_gpu_check : ℕ
  pub timers : TimerFacts
  pub crash_count : ℕ
  pub footprint : ℕ

unfoldable pub fault_recovery : String → Bool
unfolding has_prefix
fault_recovery reason =
    any (λ p. has_prefix (codes p) (codes reason))
      ("GPU" ∷ "kill" ∷ "crash" ∷ "telemetry" ∷ "device" ∷ [])

abbrev pub is_ai : Mode → Bool
is_ai ai_priority = true
is_ai _ = false

abbrev is_pause : Mode → Bool
is_pause pause = true
is_pause _ = false

-- What happens to a configuration that is saved: the checks and the store refuse it, or it is
-- applied, and the impact says whether the runtime has to be restarted.
pub data Verdict : Type 0 where
  refused : Verdict
  applied : Bool → Verdict

module _ (P : Platform) where
  abbrev Ctl : Type 0
  Ctl = Controller P

  -- No duration that is 0 or below ends a mode.
  abbrev ends_after : ℕ → ℤ → Option (Option ℕ × Bool)
  ends_after now (pos d) = if d == 0 then none else some (some (now + d), false)
  ends_after now (negsuc d) = none

  -- The end of a mode and whether it ends at the reboot; none for an invalid duration.
  unfoldable pub mode_end : Calendar → ℕ → Mode → String → Ctl → Option (Option ℕ × Bool)
  mode_end k now m duration c =
      let cap = some (now + c.cfg.modes.max_ai_priority) in
      if str_eq duration ""
      then some (if is_ai m then cap else none, false)
      else if str_eq duration "until_reboot"
      then some (if is_ai m then cap else none, true)
      else if str_eq duration "until_tomorrow"
      then some (
        some (
            if is_pause m
            then next_local_morning k now c.cfg.timezone
            else next_local_midnight k now c.cfg.timezone),
        false,
      )
      else elim (k.parse_duration duration) [ none ↦ none | some d ↦ ends_after now d ]

  -- An AI Priority mode ends after `max_ai_priority` at the latest.
  abbrev capped : ℕ → Mode → ℕ → Ctl → ℕ
  capped now m until c =
      if is_ai m && ltb c.cfg.modes.max_ai_priority (until - now)
      then now + c.cfg.modes.max_ai_priority
      else until

  abbrev cap_end : ℕ → Mode → Option ℕ → Ctl → Option ℕ
  cap_end now m none c = none
  cap_end now m (some until) c = some (capped now m until c)

  abbrev pub with_mode : ℕ → Mode → Option (Option ℕ × Bool) → Ctl → Option Ctl
  with_mode now m none c = none
  with_mode now m (some (until, reboot)) c = some (record c {
    mode = record { mode = m; until = cap_end now m until c };
    until_reboot = reboot;
  })

  -- None for a mode or a duration that is not valid.
  unfoldable pub set_mode : Calendar → ℕ → Mode → String → Ctl → Option Ctl
  unfolding mode_end
  set_mode k now auto duration c = with_mode now auto (some (none, false)) c
  set_mode k now pause duration c = with_mode now pause (mode_end k now pause duration c) c
  set_mode k now ai_priority duration c =
      with_mode now ai_priority (mode_end k now ai_priority duration c) c
  set_mode k now _ duration c = none

  -- None if the runtime does not run.
  unfoldable pub request_manual : Manual → Ctl → Option Ctl
  request_manual kind c =
      if not (runtime_running c.st)
      then none
      else if eqb c.st draining || eqb c.st preempting
      then some c
      else some (record c { manual_pending = kind })

  -- What `updateConfig` does to the state once the configuration is checked and stored.
  unfoldable pub update_config : Verdict → Config P → Ctl → Ctl
  update_config refused cfg c = c
  update_config (applied restart) cfg c =
      let c1 = record c { cfg = cfg; last_setup_check = 0; setup_pending = false } in
      if restart
      then record c1 {
        footprint = 0;
        manual_pending =
            if runtime_running c.st && not (eqb c.st draining) && not (eqb c.st preempting)
            then reload
            else c.manual_pending;
      }
      else c1

  -- The first part of `prepareSuspend`, and of `Shutdown`; the steps that follow stop the runtime.
  unfoldable pub suspend : Ctl → Ctl
  suspend c = record c { power = record c.power { suspending = true } }

  unfoldable pub shut_down : Ctl → Ctl
  shut_down c = record c { power = record c.power { shutting_down = true } }

  unfoldable pub resumed : ℕ → Ctl → Ctl
  unfolding set_recovery
  resumed now c =
      set_recovery P now c.cfg.recovery.resume_cooldown "resume"
        (record c { power = record c.power { suspending = false } })

  -- What `persist` saves; 0 stands for a boot time that is not known.
  unfoldable pub persisted : ℕ → Ctl → Persisted
  persisted boot c = record {
    mode = c.mode;
    until_reboot = c.until_reboot;
    boot_time = boot;
    telemetry_losses = c.telemetry_losses;
    gpu_resets = c.gpu_resets;
    last_gpu_check = c.last_gpu_check;
    timers = c.timers;
    crash_count = c.crash_count;
    footprint = c.footprint;
  }

  -- The boot times differ by less than two minutes.
  abbrev pub same_boot : Option ℕ → ℕ → Bool
  same_boot none saved = false
  same_boot (some boot) saved =
      not (saved == 0) && ltb saved (boot + 2 * minute_ns) && ltb boot (saved + 2 * minute_ns)

  abbrev pub expired : ℕ → Option ℕ → Bool
  expired now none = false
  expired now (some until) = leb until now

  abbrev pub is_unset : Mode → Bool
  is_unset Mode.unset = true
  is_unset _ = false

  abbrev pub restored_timers : ℕ → TimerFacts → TimerFacts
  restored_timers now t =
      if not (fault_recovery t.recovery_reason) || leb t.recovery_until now
      then record t { recovery_until = 0; recovery_reason = "" }
      else t

  -- `boot` is the present boot time, if it is known.
  unfoldable pub restore : ℕ → Option ℕ → Option Persisted → Ctl → Ctl
  restore now boot none c = c
  restore now boot (some p) c =
      let c1 = record c {
        timers = restored_timers now p.timers;
        crash_count = p.crash_count;
        footprint = p.footprint;
        telemetry_losses = p.telemetry_losses;
        gpu_resets = p.gpu_resets;
      } in
      if (not p.until_reboot || same_boot boot p.boot_time)
        && not (expired now p.mode.until)
        && not (is_unset p.mode.mode)
      then record c1 { mode = p.mode; until_reboot = p.until_reboot }
      else c1

  -- Runtimes of earlier runs are killed by the adapter, outside this state.
  unfoldable pub start : ℕ → Option ℕ → Option Persisted → Ctl → Ctl
  start now boot saved c =
      set_recovery P now c.cfg.recovery.startup_cooldown "startup" (restore now boot saved c)
