-- ===== src/Config/Plain.antt =====
-- A configuration for tests, on the plain platform.
use benchwarmer.Prelude.{◌*◌, true, [], ◌∷◌}
use benchwarmer.Platform.Plain.{plain}
use benchwarmer.Config.{Schedule, Profile, Config, second, minute_ns}

-- From half past ten in the evening until six, on Friday.
abbrev pub night : Schedule
night = record {
  name = "night";
  profile = "quiet";
  days = "Fri" ∷ [];
  start = "22:30";
  end = "06:00";
  enabled = true;
}

abbrev pub normal : Profile plain
normal = record {
  description = "";
  grace = 60 * second;
  grace_under_pressure = 10 * second;
  cooldown = 300 * second;
  external_util_soft_pct = 30;
  soft_window = 10 * second;
  external_vram_soft_mib = 2000;
  drain_on_game_process = true;
  drain_on_ambiguous = true;
  drain_on_soft_contention = true;
  game_confirm_util_pct = 20;
  game_confirm_vram_mib = 500;
}

abbrev pub plain_config : Config plain
plain_config = record {
  runtime = record {
    load_timeout = 300 * second;
    required_free_vram_mib = 8000;
    kill_verify_timeout = 10 * second;
    vram_release_timeout = 30 * second;
    vram_release_tolerance_mib = 300;
  };
  telemetry = record {
    adapter = "";
    sample_interval = second;
    loss_grace = 15 * second;
    degraded_margin_pct = 20;
  };
  safety = record { gpu_temp_critical_c = 95; gpu_temp_resume_c = 80 };
  contention = record {
    vram_free_critical_mib = 500;
    external_vram_critical_mib = 6000;
    external_util_critical_pct = 80;
    critical_window = 5 * second;
    clear_window = 30 * second;
  };
  profiles = ("normal", normal) ∷ [];
  default_profile = "normal";
  ai_priority_profile = "normal";
  schedules = night ∷ [];
  timezone = "UTC";
  applications = [];
  anti_thrash = record {
    window = 60 * minute_ns;
    max_preemptions = 3;
    suppress_for = 30 * minute_ns;
  };
  recovery = record {
    startup_cooldown = 30 * second;
    resume_cooldown = 30 * second;
    crash_backoff_initial = 10 * second;
    crash_backoff_max = 600 * second;
    telemetry_recovery_cooldown = 60 * second;
    device_lost_cooldown = 120 * second;
    crash_reset_after = 600 * second;
  };
  modes = record { max_ai_priority = 240 * minute_ns };
}
