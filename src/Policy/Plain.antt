-- ===== src/Policy/Plain.antt =====
-- Snapshots for tests: a quiet machine, and the same with the runtime busy, paused or crowded.
use benchwarmer.Prelude.{◌*◌, true, false, [], none, some}
use benchwarmer.Platform.Plain.{plain}
use benchwarmer.Config.{second}
use benchwarmer.State.{State}
use benchwarmer.Policy.Types.{Mode, Confidence, grown, Rule, Snapshot}

-- The snapshot at a time, with the memory that other processes hold.
abbrev pub quiet : Snapshot plain
quiet = record {
  now = 1000 * second;
  mode = record { mode = Mode.auto; until = none };
  runtime = record {
    state = State.stopped;
    pid = 0;
    active_requests = 0;
    oldest_request_age = 0;
    draining_since = 0;
    footprint_mib = 0;
    setup_problem = "";
  };
  gpu = record {
    confidence = Confidence.high;
    none_for = 0;
    healthy_for = 100 * second;
    total_util_pct = 3;
    own_util_pct = 0;
    external_util_pct = 3;
    external_util_trusted = true;
    above_critical_for = 0;
    above_soft_for = 0;
    below_soft_for = 100 * second;
    vram_total_mib = 16000;
    vram_used_mib = 1000;
    vram_free_mib = 15000;
    own_vram_mib = 0;
    external_vram_mib = 1000;
    external_vram_growth_mib = grown 0;
    temperature_c = some 50;
  };
  apps = record {
    games = [];
    launchers = [];
    ordinary = [];
    launcher_children = [];
    process_list_ok = true;
  };
  session = record {
    known = false;
    user_logged_on = false;
    locked = false;
    foreground_name = "";
    foreground_pid = 0;
    foreground_class = "";
    fullscreen = false;
    idle_for = 0;
  };
  power = record { suspending = false; shutting_down = false; device_lost = false };
  timers = record {
    last_competing_at = 0;
    last_competing_rule = Rule.no_rule;
    preemptions = [];
    suppressed_at = 0;
    recovery_until = 0;
    recovery_reason = "";
  };
}

abbrev pub serving : Snapshot plain
serving = record quiet { runtime = record quiet.runtime { state = State.busy } }

-- Other processes hold 7000 MiB.
abbrev pub crowded : Snapshot plain
crowded = record serving { gpu = record serving.gpu { external_vram_mib = 7000 } }

abbrev pub crowded_pause : Snapshot plain
crowded_pause = record crowded { mode = record { mode = Mode.pause; until = none } }

abbrev pub hot : Snapshot plain
hot = record serving { gpu = record serving.gpu { temperature_c = some 99 } }

-- A cooldown that began two minutes ago.
abbrev pub cooling : Snapshot plain
cooling = record quiet {
  timers = record quiet.timers {
    last_competing_at = 880 * second;
    last_competing_rule = Rule.soft_contention;
  };
}
