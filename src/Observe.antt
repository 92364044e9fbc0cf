-- ===== src/Observe.antt =====
-- internal/observe/observe.go: the facts about the GPU and the session, with the timers and the window
-- that span ticks; Apps has the applications. An instant before the one that it is measured from is 0
-- apart, where the code has a negative duration.
pub mod State
pub mod Measure
pub mod Apps
pub mod Timers
pub mod Window
pub mod Memory
mod Samples
use benchwarmer.Prelude.{
  ℕ, ◌+◌, ◌-◌, ◌*◌, ◌/◌, ◌%◌, ◌^◌, max, ltb, leb, ◌==◌, Bool, true, false, not, ◌&&◌, ◌||◌, List,
  [], ◌∷◌, ◌++◌, map, Option, none, some, String, str_eq, if◌then◌else◌,
}
use benchwarmer.Platform.{Platform, codes}
use benchwarmer.Config.{second}
use benchwarmer.Policy.Types.{Confidence, GpuFacts, SessionFacts}
use benchwarmer.Classify.{new_rule, classify}
use benchwarmer.Telemetry.{Sample}
use benchwarmer.Observe.State.{
  Observer, reset_windows, run_since, run_for, growth, is_high, is_none, same_confidence,
}
use benchwarmer.Observe.Measure.{AgentReport, Input, own_of, confidence, no_facts, measure}

module _ (P : Platform) where
  open P use {Float, float_le, float_lt, float_add, float_sub, float_mul, float_div, of_int, to_int}

  abbrev pub soft_threshold : Input P → Confidence → Float
  soft_threshold i c =
      if is_high c
      then i.profile.external_util_soft_pct
      else float_mul i.profile.external_util_soft_pct (
          float_sub (of_int 1)
            (float_div (of_int i.config.telemetry.degraded_margin_pct) (of_int 100)))

  abbrev pub reaches : Float → Float → Bool
  reaches threshold u = float_lt (of_int 0) threshold && float_le threshold u

  abbrev pub above_crit : Input P → GpuFacts P → Bool
  above_crit i g = reaches i.config.contention.external_util_critical_pct g.external_util_pct

  abbrev pub above_soft : Input P → GpuFacts P → Bool
  above_soft i g = reaches (soft_threshold i g.confidence) g.external_util_pct

  -- The timers of utilization; a tick that is not trusted ends all three.
  unfoldable pub hysteresis : ℕ → Input P → GpuFacts P → Observer → Observer × GpuFacts P
  hysteresis now i g o =
      let t = g.external_util_trusted in
      let crit = t && above_crit i g in
      let soft = t && above_soft i g in
      let below = t && not (above_soft i g) in
      (
        record o {
          above_crit_since = run_since crit now o.above_crit_since;
          above_soft_since = run_since soft now o.above_soft_since;
          below_soft_since = run_since below now o.below_soft_since;
        },
        record g {
          above_critical_for = run_for crit now o.above_crit_since;
          above_soft_for = run_for soft now o.above_soft_since;
          below_soft_for = run_for below now o.below_soft_since;
        },
      )

  unfoldable pub track_confidence : ℕ → Confidence → Observer → Observer
  track_confidence now c o =
      if is_none c
      then record o {
        healthy_since = 0;
        none_since = if o.none_since == 0 then now else o.none_since;
      }
      else record o {
        none_since = 0;
        healthy_since = if o.healthy_since == 0 then now else o.healthy_since;
      }

  -- What follows for a sample that counts
  abbrev pub counted :
      ℕ → Input P → List ℕ → Sample P → Confidence → Observer → Observer × GpuFacts P
  counted now i own s c o =
      let f = measure P i own s c in
      let vram = if not (same_confidence o.last_conf c) then [] else o.vram in
      let grow = growth now f.external_vram_mib i.config.contention.critical_window vram in
      hysteresis now i
        (record f { healthy_for = now - o.healthy_since; external_vram_growth_mib = grow.1 })
        (record o { last_conf = c; vram = grow.0 })

  abbrev pub graded :
      ℕ → Input P → List ℕ → Option (Sample P) → Confidence → Observer → Observer × GpuFacts P
  graded now i own none c o =
      (reset_windows o, record (no_facts P c) { none_for = now - o.none_since })
  graded now i own (some s) c o =
      if is_none c
      then (
        reset_windows o,
        record (no_facts P c) { none_for = now - o.none_since; temperature_c = s.temperature_c },
      )
      else counted now i own s c o

  -- `Observer.gpu`, without the usage by process
  unfoldable pub gpu : ℕ → Input P → Observer → Observer × GpuFacts P
  unfolding confidence measure growth hysteresis track_confidence reset_windows
  gpu now i o =
      let own = own_of P i in
      let c = confidence P i own i.sample in graded now i own i.sample c (track_confidence now c o)

  -- The longest time between ticks over which a stretch goes on
  abbrev pub longest_gap : Input P → ℕ
  longest_gap i = max (3 * i.config.telemetry.sample_interval) (3 * second)

  abbrev pub is_gap : ℕ → Input P → ℕ → Bool
  is_gap now i last = not (last == 0) && (ltb now last || ltb (longest_gap i) (now - last))

  unfoldable pub after_gap : ℕ → Input P → Observer → Observer
  unfolding reset_windows
  after_gap now i o =
      let o2 =
        if is_gap now i o.last_tick then record (reset_windows o) { healthy_since = 0 } else o in
      record o2 { last_tick = now }

  abbrev unknown_session : SessionFacts
  unknown_session = record {
    known = false;
    user_logged_on = false;
    locked = false;
    foreground_name = "";
    foreground_pid = 0;
    foreground_class = "";
    fullscreen = false;
    idle_for = 0;
  }

  abbrev class_of : Input P → AgentReport P → String
  class_of i r =
      if str_eq r.foreground_name "" && str_eq r.foreground_path ""
      then ""
      else elim (classify P (map (new_rule P) i.config.applications) (codes r.foreground_name)
          (codes r.foreground_path)) [ none ↦ "" | some rule ↦ rule.class ]

  unfoldable pub session : ℕ → Input P → Option (AgentReport P) → SessionFacts
  unfolding classify new_rule
  session now i none = unknown_session
  session now i (some r) =
      if i.agent_at == 0 || leb i.session_stale_after (now - i.agent_at)
      then unknown_session
      else record {
        known = true;
        user_logged_on = true;
        locked = r.locked;
        foreground_name = r.foreground_name;
        foreground_pid = r.foreground_pid;
        foreground_class = class_of i r;
        fullscreen = r.fullscreen;
        idle_for = to_int (float_mul r.idle_seconds (of_int second));
      }

  -- `Observer.Observe`, for the GPU and the session
  unfoldable pub observe : ℕ → Input P → Observer → Observer × (GpuFacts P × SessionFacts)
  unfolding after_gap gpu session
  observe now i o = let (o2, g) = gpu now i (after_gap now i o) in (o2, (g, session now i i.agent))
