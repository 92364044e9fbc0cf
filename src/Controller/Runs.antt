-- ===== src/Controller/Runs.antt =====
-- Requests of the API to the controllers of `Controller.Plain`, and a run from the start.
use benchwarmer.Prelude.{
  ℕ, ◌*◌, ◌+◌, ◌≤◌, max, ◌≡◌, refl, ◌&&◌, [], none, some, arith, ltb, if◌then◌else◌,
}
use benchwarmer.Platform.Plain.{plain}
use benchwarmer.Config.{second, minute_ns}
use benchwarmer.State.{preempting}
use benchwarmer.Policy.Types.{auto, ai_priority}
use benchwarmer.Policy.Rules.{new_eval}
use benchwarmer.Policy.Evaluate.{evaluate}
use benchwarmer.Policy.Safety.{asleep}
use benchwarmer.Controller.Types.{Controller}
use benchwarmer.Controller.Observe.{expire_mode}
use benchwarmer.Controller.Act.{act}
use benchwarmer.Controller.Step.{step, decide_step, snapshot}
use benchwarmer.Controller.Backend.{persisted, suspend, set_mode, start, fault_recovery}
use benchwarmer.Controller.Backend.Modes.{ai_priority_ends}
use benchwarmer.Controller.Backend.Restart.{start-persisted}
use benchwarmer.Controller.Reach.{
  here, next, steps, suspends, none_left, IsSound, IsNew, start_stays-IsSound,
}
use benchwarmer.Controller.Unsafe.{unsafe_stops}
use benchwarmer.Controller.Plain.{clock, idle_controller, serving_controller, nothing_new}

abbrev one_hour : Controller plain
one_hour = record serving_controller {
  mode = record { mode = ai_priority; until = some (1000 * second + 60 * minute_ns) };
}

one_hour_set :
    set_mode plain clock (1000 * second) ai_priority "1h" serving_controller ≡ some one_hour
unfolding set_mode
one_hour_set = refl

ai_priority_ends_example :
    ((until : ℕ) × (one_hour.mode.until ≡ some until) × (until ≤ 1000 * second + 240 * minute_ns))
    × (one_hour.mode.mode ≡ ai_priority)
    × ((expire_mode plain (90_000 * second) one_hour).mode ≡ record { mode = auto; until = none })
ai_priority_ends_example =
    ai_priority_ends plain clock (1000 * second) (90_000 * second) "1h" serving_controller one_hour
      one_hour_set (omega arith)

abbrev crashed : Controller plain
crashed = record serving_controller {
  crash_count = 3;
  timers = record serving_controller.timers {
    recovery_until = 2000 * second;
    recovery_reason = "crash backoff";
  };
}

start-persisted_example :
    let c' = start plain (1000 * second) none (some (persisted plain 5 crashed)) idle_controller in
    (c'.crash_count ≡ 3)
    × (c'.gpu_resets ≡ 0)
    × (c'.telemetry_losses ≡ 0)
    × (c'.footprint ≡ 0)
    × (c'.timers.last_competing_at ≡ crashed.timers.last_competing_at)
    × (c'.timers.last_competing_rule ≡ crashed.timers.last_competing_rule)
    × (c'.timers.preemptions ≡ [])
    × (c'.timers.suppressed_at ≡ 0)
    × (c'.timers.recovery_until
        ≡ max (1000 * second + 30 * second) (
            if fault_recovery "crash backoff" && ltb (1000 * second) (2000 * second)
            then 2000 * second
            else 0))
start-persisted_example = start-persisted plain (1000 * second) 5 none crashed idle_controller

unsafe_stops_example :
    let c = suspend plain serving_controller in
    let (d, c1) = decide_step plain (1000 * second) c in
    (d ≡ evaluate plain (snapshot plain (1000 * second) c) c.cfg)
    × ((act plain (1000 * second) none d c1).st ≡ preempting)
unfolding suspend snapshot new_eval
unsafe_stops_example =
    unsafe_stops plain (1000 * second) none (suspend plain serving_controller) refl (asleep refl)

idle-IsNew : IsNew plain idle_controller
idle-IsNew = record { is_stopped = refl; no_runtime = refl; no_jobs = refl; shut = refl }

abbrev just_started : Controller plain
just_started = start plain (1000 * second) none none idle_controller

abbrev loading_then : Controller plain
loading_then = step plain nothing_new (record just_started { jobs = just_started.jobs })

-- One step after the start, and the announcement of a sleep.
start_stays-IsSound_example : IsSound plain (suspend plain loading_then)
start_stays-IsSound_example =
    start_stays-IsSound plain clock (1000 * second) none none idle_controller idle-IsNew
      (next (next here (steps nothing_new just_started.jobs none_left)) suspends)
