-- ===== src/Policy/Types.antt =====
-- internal/policy/types.go: the facts and the decision. The texts that only people read (reasons,
-- evidence) have no part in the model. An instant is in nanoseconds, 0 being the zero `time.Time`.
use benchwarmer.Prelude.{ℕ, Bool, true, false, List, Option, String}
use benchwarmer.Platform.{Platform}
use benchwarmer.State.{State}
use benchwarmer.Schedule.{Source}

-- `unset` is the empty string, here and in `Confidence`.
pub data Mode : Type 0 where
  auto pause ai_priority unset : Mode

pub data Confidence : Type 0 where
  high degraded none unset : Confidence

-- A change in MiB: `grown n` is n, `shrunk n` is -(n + 1).
pub data Growth : Type 0 where
  grown : ℕ → Growth
  shrunk : ℕ → Growth

pub record ModeFacts : Type 0 where
  pub mode : Mode
  pub until : Option ℕ

pub record RuntimeFacts : Type 0 where
  pub state : State
  pub pid : ℕ
  pub active_requests : ℕ
  pub oldest_request_age : ℕ
  pub draining_since : ℕ
  pub footprint_mib : ℕ
  pub setup_problem : String

pub record SessionFacts : Type 0 where
  pub known : Bool
  pub user_logged_on : Bool
  pub locked : Bool
  pub foreground_name : String
  pub foreground_pid : ℕ
  pub foreground_class : String
  pub fullscreen : Bool
  pub idle_for : ℕ

pub record PowerFacts : Type 0 where
  pub suspending : Bool
  pub shutting_down : Bool
  pub device_lost : Bool

-- The identifiers of the rules. `no_rule` is the empty text; the last four are the controller's.
pub data Rule : Type 0 where
  no_rule shutdown suspend device_lost temperature telemetry_lost paused : Rule
  critical_vram_free critical_vram_ext critical_util : Rule
  game_confirmed launcher_child_gpu fullscreen_gpu game_process ambiguous soft_contention : Rule
  recovery suppressed cooldown no_telemetry no_process_list vram_insufficient setup_required : Rule
  run ai_priority_run : Rule
  manual_drain manual_reload runtime_unverified secrets_unprotected : Rule

pub record TimerFacts : Type 0 where
  pub last_competing_at : ℕ
  pub last_competing_rule : Rule
  pub preemptions : List ℕ
  pub suppressed_at : ℕ
  pub recovery_until : ℕ
  pub recovery_reason : String

pub data Action : Type 0 where
  run hold drain preempt unset : Action

abbrev pub yields : Action → Bool
yields drain = true
yields preempt = true
yields _ = false

pub data Severity : Type 0 where
  info notice warning critical unset : Severity

abbrev pub tier_safety : ℕ
tier_safety = 1

abbrev pub tier_pause : ℕ
tier_pause = 2

abbrev pub tier_critical : ℕ
tier_critical = 3

abbrev pub tier_gaming : ℕ
tier_gaming = 4

abbrev pub tier_ai_priority : ℕ
tier_ai_priority = 5

abbrev pub tier_schedule : ℕ
tier_schedule = 6

abbrev pub tier_default : ℕ
tier_default = 7

abbrev pub tier_eligibility : ℕ
tier_eligibility = 8

pub record Decision : Type 0 where
  pub action : Action
  pub rule : Rule
  pub tier : ℕ
  pub severity : Severity
  pub profile : String
  pub profile_source : Source
  pub mode : Mode
  pub grace : ℕ
  pub competing : Bool
  pub counts_as_preemption : Bool
  pub suppress : Bool
  pub idle_state : State
  pub next_load_at : ℕ
  pub also_matched : List Rule

module _ (P : Platform) where
  open P use {Float}

  pub record GpuFacts : Type 0 where
    pub confidence : Confidence
    pub none_for : ℕ
    pub healthy_for : ℕ
    pub total_util_pct : Float
    pub own_util_pct : Float
    pub external_util_pct : Float
    pub external_util_trusted : Bool
    pub above_critical_for : ℕ
    pub above_soft_for : ℕ
    pub below_soft_for : ℕ
    pub vram_total_mib : ℕ
    pub vram_used_mib : ℕ
    pub vram_free_mib : ℕ
    pub own_vram_mib : ℕ
    pub external_vram_mib : ℕ
    pub external_vram_growth_mib : Growth
    pub temperature_c : Option Float

  pub record AppMatch : Type 0 where
    pub pid : ℕ
    pub name : String
    pub class : String
    pub gpu_util_pct : Float
    pub vram_mib : ℕ
    pub foreground : Bool
    pub fullscreen : Bool
    pub running_for : ℕ

  pub record AppFacts : Type 0 where
    pub games : List AppMatch
    pub launchers : List AppMatch
    pub ordinary : List AppMatch
    pub launcher_children : List AppMatch
    pub process_list_ok : Bool

  pub record Snapshot : Type 0 where
    pub now : ℕ
    pub mode : ModeFacts
    pub runtime : RuntimeFacts
    pub gpu : GpuFacts
    pub apps : AppFacts
    pub session : SessionFacts
    pub power : PowerFacts
    pub timers : TimerFacts
