-- ===== src/Observe/Samples.antt =====
-- A game beside the runtime, over three ticks.
use benchwarmer.Prelude.{ℕ, ◌*◌, ◌≤◌, ◌≡◌, refl, [], ◌∷◌, true, false, none, some, arith}
use benchwarmer.Platform.Plain.{plain}
use benchwarmer.Config.{second}
use benchwarmer.Config.Plain.{plain_config, normal}
use benchwarmer.Policy.Types.{degraded}
use benchwarmer.Telemetry.{
  Sample, split, busiest, max_of, sum_bytes, engine_sums, last_reading, clamp_pct, process_keys,
  util_by_key,
}
use benchwarmer.Observe.{observe, gpu, after_gap, session, hysteresis, track_confidence}
use benchwarmer.Observe.State.{Point, difference, growth, reset_windows}
use benchwarmer.Observe.Measure.{
  mib, Input, measured_external, measure, confidence, mismatch, runtime_unseen,
}
use benchwarmer.Observe.Timers.{Ticks, after}
use benchwarmer.Observe.Timers.Stretches.{MeasuresAll, observe-MeasuresAll}
use benchwarmer.Observe.Window.{kept_all, last_until, growth-anchor}
use benchwarmer.Observe.Memory.{Counted, measure-Counted}

-- Process 7 is the runtime's and process 9 a game.
abbrev pub busy : Sample plain
busy = record {
  dedicated_total_bytes = 16000 * mib;
  dedicated_used_bytes = 9000 * mib;
  temperature_c = some 60;
  engines = record { key = "0"; util_pct = 90 } ∷ [];
  processes =
      record {
        pid = 7;
        engine_util = ("3D", 5) ∷ [];
        engine_by_key = ("0", 5) ∷ [];
        dedicated_bytes = 6000 * mib;
      }
      ∷ record {
        pid = 9;
        engine_util = ("3D", 85) ∷ [];
        engine_by_key = ("0", 85) ∷ [];
        dedicated_bytes = 3000 * mib;
      }
      ∷ [];
  complete = true;
}

abbrev pub seen : Input plain
seen = record {
  sample = some busy;
  runtime_pid = 7;
  own_pids = [];
  runtime_active = true;
  footprint_mib = 6000;
  profile = normal;
  config = plain_config;
  session_stale_after = 10 * second;
  agent = none;
  agent_at = 0;
}

abbrev two_ticks : Ticks plain
two_ticks = (101 * second, seen) ∷ (100 * second, seen) ∷ []

third_tick :
    (observe plain (103 * second) seen (after plain two_ticks)).1.0.above_critical_for ≡ 3 * second
unfolding observe after gpu after_gap session hysteresis track_confidence growth reset_windows
    measure confidence mismatch runtime_unseen split busiest max_of sum_bytes engine_sums
    last_reading clamp_pct process_keys util_by_key
third_tick = refl

after_a_gap : (observe plain (105 * second) seen (after plain two_ticks)).1.0.above_critical_for ≡ 0
unfolding observe after gpu after_gap session hysteresis track_confidence growth reset_windows
    measure confidence mismatch runtime_unseen split busiest max_of sum_bytes engine_sums
    last_reading clamp_pct process_keys util_by_key
after_a_gap = refl

observe-MeasuresAll_example :
    MeasuresAll plain
      (103 * second)
      seen
      two_ticks
      (observe plain (103 * second) seen (after plain two_ticks)).1.0
observe-MeasuresAll_example =
    observe-MeasuresAll plain (103 * second) seen two_ticks (omega arith)
      (omega arith, (omega arith, tt))

abbrev at : ℕ → ℕ → Point
at t n = record { at = t; size = n }

growth-anchor_example :
    (growth 30 5000 10 (kept_all 10 (at 5 1000 ∷ at 18 2000 ∷ at 25 4000 ∷ []) [])).1
    ≡ difference 5000 2000
unfolding last_until
growth-anchor_example =
    growth-anchor 10 (at 5 1000 ∷ at 18 2000 ∷ at 25 4000 ∷ []) (at 30 5000)
      (omega arith, (omega arith, (omega arith, (omega arith, tt))))

measure-Counted_example :
    let f = measure plain seen (7 ∷ []) busy degraded in
    (measured_external plain (7 ∷ []) busy ≤ f.external_vram_mib) × Counted plain false busy f
measure-Counted_example = measure-Counted plain seen (7 ∷ []) busy degraded
