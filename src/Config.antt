-- ===== src/Config.antt =====
-- internal/config/config.go: the sections of the configuration that the modelled parts read.
-- Durations are in nanoseconds; the validation admits no negative duration and no negative size.
pub mod Plain
use benchwarmer.Prelude.{
  ℕ, Bool, false, List, [], ◌∷◌, Option, none, some, String, str_eq, if◌then◌else◌,
}
use benchwarmer.Platform.{Platform}

abbrev pub second : ℕ
second = 1_000_000_000

abbrev pub minute_ns : ℕ
minute_ns = 60_000_000_000

pub record Schedule : Type 0 where
  pub name : String
  pub profile : String
  pub days : List String
  pub start : String
  pub end : String
  pub enabled : Bool

pub record AppRule : Type 0 where
  pub id : String
  pub name : String
  pub exe : String
  pub path : String
  pub path_prefix : String
  pub glob : String
  pub class : String

pub record AntiThrash : Type 0 where
  pub window : ℕ
  pub max_preemptions : ℕ
  pub suppress_for : ℕ

pub record Recovery : Type 0 where
  pub startup_cooldown : ℕ
  pub resume_cooldown : ℕ
  pub crash_backoff_initial : ℕ
  pub crash_backoff_max : ℕ
  pub telemetry_recovery_cooldown : ℕ
  pub device_lost_cooldown : ℕ
  pub crash_reset_after : ℕ

-- The field of `Modes` that the controller reads.
pub record Modes : Type 0 where
  pub max_ai_priority : ℕ

-- The fields of `Runtime` that the policy and the controller read.
pub record Runtime : Type 0 where
  pub load_timeout : ℕ
  pub required_free_vram_mib : ℕ
  pub kill_verify_timeout : ℕ
  pub vram_release_timeout : ℕ
  pub vram_release_tolerance_mib : ℕ

pub record Telemetry : Type 0 where
  pub adapter : String
  pub sample_interval : ℕ
  pub loss_grace : ℕ
  pub degraded_margin_pct : ℕ

module _ (P : Platform) where
  open P use {Float}

  pub record Safety : Type 0 where
    pub gpu_temp_critical_c : Float
    pub gpu_temp_resume_c : Float

  pub record Contention : Type 0 where
    pub vram_free_critical_mib : ℕ
    pub external_vram_critical_mib : ℕ
    pub external_util_critical_pct : Float
    pub critical_window : ℕ
    pub clear_window : ℕ

  pub record Profile : Type 0 where
    pub description : String
    pub grace : ℕ
    pub grace_under_pressure : ℕ
    pub cooldown : ℕ
    pub external_util_soft_pct : Float
    pub soft_window : ℕ
    pub external_vram_soft_mib : ℕ
    pub drain_on_game_process : Bool
    pub drain_on_ambiguous : Bool
    pub drain_on_soft_contention : Bool
    pub game_confirm_util_pct : Float
    pub game_confirm_vram_mib : ℕ

  pub record Config : Type 0 where
    pub runtime : Runtime
    pub telemetry : Telemetry
    pub safety : Safety
    pub contention : Contention
    pub profiles : List (String × Profile)
    pub default_profile : String
    pub ai_priority_profile : String
    pub schedules : List Schedule
    pub timezone : String
    pub applications : List AppRule
    pub anti_thrash : AntiThrash
    pub recovery : Recovery
    pub modes : Modes

  -- What Go's map returns for a missing key.
  abbrev pub zero_profile : Profile
  zero_profile = record {
    description = "";
    grace = 0;
    grace_under_pressure = 0;
    cooldown = 0;
    external_util_soft_pct = P.of_int 0;
    soft_window = 0;
    external_vram_soft_mib = 0;
    drain_on_game_process = false;
    drain_on_ambiguous = false;
    drain_on_soft_contention = false;
    game_confirm_util_pct = P.of_int 0;
    game_confirm_vram_mib = 0;
  }

  unfoldable pub find_profile : String → List (String × Profile) → Option Profile
  find_profile name [] = none
  find_profile name ((key, p) ∷ rest) = if str_eq key name then some p else find_profile name rest
