-- ===== src/Controller/Types.antt =====
-- internal/controller/controller.go: the state of the controller. The gate is part of it, since the
-- controller is the only one that opens and closes it. Events, metrics and logs are left out.
use benchwarmer.Prelude.{ℕ, ◌+◌, ltb, Bool, true, false, List, [], Option, String}
use benchwarmer.Platform.{Platform}
use benchwarmer.Config.{Config}
use benchwarmer.State.{State, Condition, condition, can_transition, eqb}
use benchwarmer.Schedule.{default}
use benchwarmer.Proxy.Gate.{Gate}
use benchwarmer.Prelude.{if◌then◌else◌}
use benchwarmer.Policy.Types.{
  Mode, Action, Severity, no_rule, ModeFacts, PowerFacts, SessionFacts, TimerFacts, GpuFacts,
  AppFacts, Decision,
}

-- A runtime process that the adapter started; `handle` tells two of them apart.
pub record Instance : Type 0 where
  pub handle : ℕ
  pub pid : ℕ
  pub base_url : String

-- What the API has asked for.
pub data Manual : Type 0 where
  nothing drain reload : Manual

pub record VramCheck : Type 0 where
  pub active : Bool
  pub since : ℕ
  pub used_before : ℕ
  pub footprint : ℕ

-- The goroutines that the controller starts, each with one result to come.
pub data Job : Type 0 where
  wait_ready stop cleanup : Instance → Job
  already_exited : Job

-- A decision of no rule, the zero value.
abbrev pub zero_decision : Decision
zero_decision = record {
  action = Action.unset;
  rule = no_rule;
  tier = 0;
  severity = Severity.unset;
  profile = "";
  profile_source = default;
  mode = Mode.unset;
  grace = 0;
  competing = false;
  counts_as_preemption = false;
  suppress = false;
  idle_state = State.unset;
  next_load_at = 0;
  also_matched = [];
}

-- What is fixed for the life of the process: whether there is a runtime adapter, and why no model
-- may be loaded, if that is so.
pub record Deps : Type 0 where
  pub has_adapter : Bool
  pub load_blocked : String

module _ (P : Platform) where
  pub record Controller : Type 0 where
    pub deps : Deps
    pub cfg : Config P
    pub st : State
    pub cond : Condition
    pub inst : Option Instance
    pub load_start : ℕ
    pub loaded_at : ℕ
    pub footprint : ℕ
    pub crash_count : ℕ
    pub baseline : ℕ
    pub drain_start : ℕ
    pub drain_deadline : ℕ
    pub yield : Decision
    pub yield_manual : Manual
    pub vram : VramCheck
    pub timers : TimerFacts
    pub mode : ModeFacts
    pub until_reboot : Bool
    pub power : PowerFacts
    pub gpu : GpuFacts P
    pub apps : AppFacts P
    pub session : SessionFacts
    pub decision : Decision
    pub last_evaluated : ℕ
    pub setup_problem : String
    pub last_setup_check : ℕ
    pub setup_pending : Bool
    pub telemetry_lost : Bool
    pub telemetry_losses : ℕ
    pub gpu_resets : ℕ
    pub last_gpu_check : ℕ
    pub last_gpu_reset : ℕ
    pub manual_pending : Manual
    pub zombie : Option Instance
    pub zombie_stopping : Bool
    pub zombie_retry_at : ℕ
    pub zombie_attempts : ℕ
    pub gate : Gate
    pub jobs : List Job

  -- `transition`: the new state if that is legal, and whether it is in force.
  unfoldable pub transition : State → Controller → Controller × Bool
  transition to c =
      if eqb c.st to
      then (c, true)
      else if can_transition c.st to
      then (record c { st = to; cond = condition to }, true)
      else (c, false)

  unfoldable pub set_recovery : ℕ → ℕ → String → Controller → Controller
  set_recovery now d reason c =
      if ltb c.timers.recovery_until (now + d)
      then record c {
        timers = record c.timers { recovery_until = now + d; recovery_reason = reason };
      }
      else c
