-- ===== src/Policy/Rules.antt =====
-- internal/policy/evaluate.go: the rules that make the worker yield, in the order of the code.
use benchwarmer.Prelude.{
  ℕ, ltb, leb, Bool, true, false, not, ◌&&◌, ◌||◌, List, [], ◌∷◌, ◌++◌, any, when, Option, none,
  some, String, str_eq, if◌then◌else◌,
}
use benchwarmer.Platform.{Platform}
use benchwarmer.Config.{Profile, Config, zero_profile, find_profile}
use benchwarmer.State.{State, stopped, cooldown, disabled, error, runtime_running}
use benchwarmer.Schedule.{Source, active, schedule, ai_priority}
use benchwarmer.Policy.Types.{
  Mode, Confidence, Growth, grown, shrunk, Rule, shutdown, suspend, device_lost, temperature,
  telemetry_lost, paused, critical_vram_free, critical_vram_ext, critical_util, game_confirmed,
  launcher_child_gpu, fullscreen_gpu, game_process, ambiguous, soft_contention, Action, drain,
  preempt, hold, Severity, notice, warning, critical, tier_safety, tier_pause, tier_critical,
  tier_gaming, tier_ai_priority, tier_schedule, tier_default, AppMatch, Snapshot,
}

-- `preempts` says that the match counts toward anti-thrashing.
pub record Match : Type 0 where
  pub action : Action
  pub rule : Rule
  pub tier : ℕ
  pub severity : Severity
  pub competing : Bool
  pub preempts : Bool
  pub idle : State

-- A match of a safety rule or of the pause, which is no competing workload.
abbrev pub safety : Action → Rule → ℕ → Severity → State → Match
safety a r t v s = record {
  action = a;
  rule = r;
  tier = t;
  severity = v;
  competing = false;
  preempts = false;
  idle = s;
}

-- A match of a competing workload.
abbrev pub contention : Action → Rule → ℕ → Severity → Match
contention a r t v = record {
  action = a;
  rule = r;
  tier = t;
  severity = v;
  competing = true;
  preempts = true;
  idle = cooldown;
}

abbrev pub is_none : Confidence → Bool
is_none Confidence.none = true
is_none _ = false

abbrev pub is_degraded : Confidence → Bool
is_degraded Confidence.degraded = true
is_degraded _ = false

abbrev pub is_high : Confidence → Bool
is_high Confidence.high = true
is_high _ = false

abbrev pub is_pause : Mode → Bool
is_pause Mode.pause = true
is_pause _ = false

abbrev pub is_ai_priority : Mode → Bool
is_ai_priority Mode.ai_priority = true
is_ai_priority _ = false

abbrev or_auto : Mode → Mode
or_auto Mode.unset = Mode.auto
or_auto m = m

abbrev grows : Growth → Bool
grows (grown n) = ltb 0 n
grows (shrunk n) = false

abbrev pub is_empty {ℓ} : {A : Type ℓ} → List A → Bool
is_empty [] = true
is_empty (_ ∷ _) = false

-- The rules after which the clear window applies.
unfoldable pub is_util_rule : Rule → Bool
is_util_rule soft_contention = true
is_util_rule critical_util = true
is_util_rule fullscreen_gpu = true
is_util_rule _ = false

-- The tier of a source that `schedule.Active` returns.
abbrev pub source_tier : Source → ℕ
source_tier (schedule _) = tier_schedule
source_tier _ = tier_default

module _ (P : Platform) where
  open P use {Float, float_le, float_lt, float_sub, float_mul, float_div, of_int, to_int}

  pub record Eval : Type 0 where
    pub s : Snapshot P
    pub c : Config P
    pub p : Profile P
    pub profile_name : String
    pub profile_source : Source
    pub profile_tier : ℕ
    pub mode : Mode
    pub running : Bool
    pub soft_util : Float
    pub soft_vram : ℕ

  abbrev or_zero : Option (Profile P) → Profile P
  or_zero none = zero_profile P
  or_zero (some p) = p

  abbrev or_default : Config P → Option (Profile P) → Profile P
  or_default c none = or_zero (find_profile P c.default_profile c.profiles)
  or_default c (some p) = p

  -- The factor by which the soft thresholds shrink without attribution.
  abbrev margin : Config P → Float
  margin c = float_sub (of_int 1) (float_div (of_int c.telemetry.degraded_margin_pct) (of_int 100))

  abbrev choose_profile : Snapshot P → Config P → Mode → String × Source × ℕ
  choose_profile s c mode =
      if is_ai_priority mode
      then (c.ai_priority_profile, ai_priority, tier_ai_priority)
      else let (name, source) = active P c s.now in (name, source, source_tier source)

  unfoldable pub new_eval : Snapshot P → Config P → Eval
  new_eval s c =
      let mode = or_auto s.mode.mode in
      let chosen = choose_profile s c mode in
      let p = or_default c (find_profile P chosen.0 c.profiles) in
      let degraded = is_degraded s.gpu.confidence in
      record {
        s = s;
        c = c;
        p = p;
        profile_name = chosen.0;
        profile_source = chosen.1;
        profile_tier = chosen.2;
        mode = mode;
        running = runtime_running s.runtime.state;
        soft_util =
            if degraded
            then float_mul p.external_util_soft_pct (margin c)
            else p.external_util_soft_pct;
        soft_vram =
            if degraded
            then to_int (float_mul (of_int p.external_vram_soft_mib) (margin c))
            else p.external_vram_soft_mib;
      }

  abbrev pub telemetry_usable : Eval → Bool
  telemetry_usable e = not (is_none e.s.gpu.confidence)

  abbrev temperature_rules : Eval → Option Float → List Match
  temperature_rules e none = []
  temperature_rules e (some t) =
      if float_le e.c.safety.gpu_temp_critical_c t
      then safety preempt temperature tier_safety critical cooldown ∷ []
      else when (not e.running && float_le e.c.safety.gpu_temp_resume_c t)
          (safety hold temperature tier_safety warning cooldown)

  -- Tier 1: hard safety.
  unfoldable pub safety_rules : Eval → List Match
  safety_rules e =
      when e.s.power.shutting_down (safety preempt shutdown tier_safety notice stopped)
      ++ (when e.s.power.suspending (safety preempt suspend tier_safety notice stopped)
          ++ (when e.s.power.device_lost (safety preempt device_lost tier_safety critical error)
              ++ (temperature_rules e e.s.gpu.temperature_c
                  ++ when
                      (is_none e.s.gpu.confidence
                        && leb e.c.telemetry.loss_grace e.s.gpu.none_for
                        && (e.running || str_eq e.s.runtime.setup_problem ""))
                      (safety preempt telemetry_lost tier_safety warning error))))

  -- Tier 2: manual pause.
  unfoldable pub pause_rules : Eval → List Match
  pause_rules e = when (is_pause e.mode) (safety drain paused tier_pause notice disabled)

  -- Tier 3: critical external contention.
  unfoldable pub critical_rules : Eval → List Match
  critical_rules e =
      let g = e.s.gpu in
      let k = e.c.contention in
      if telemetry_usable e
      then when
          (e.running
            && ltb 0 g.vram_total_mib
            && ltb g.vram_free_mib k.vram_free_critical_mib
            && grows g.external_vram_growth_mib)
          (contention preempt critical_vram_free tier_critical critical)
        ++ (when (leb k.external_vram_critical_mib g.external_vram_mib)
              (contention preempt critical_vram_ext tier_critical critical)
            ++ when
                (g.external_util_trusted
                  && float_lt (of_int 0) k.external_util_critical_pct
                  && ltb 0 g.above_critical_for
                  && leb k.critical_window g.above_critical_for)
                (contention preempt critical_util tier_critical critical))
      else []

  -- `gameConfirmation` gives a reason.
  abbrev pub game_confirmation : Eval → AppMatch P → Bool
  game_confirmation e a =
      a.foreground
      || a.fullscreen
      || float_le e.p.game_confirm_util_pct a.gpu_util_pct
      || leb e.p.game_confirm_vram_mib a.vram_mib
      || not (is_high e.s.gpu.confidence)

  abbrev pub confirmed_child : Eval → AppMatch P → Bool
  confirmed_child e a = a.foreground || a.fullscreen || leb e.p.game_confirm_vram_mib a.vram_mib

  -- An unclassified full-screen application is in front of the user.
  abbrev pub unknown_fullscreen : Eval → Bool
  unknown_fullscreen e =
      e.s.session.known
      && not e.s.session.locked
      && e.s.session.fullscreen
      && str_eq e.s.session.foreground_class ""

  -- Tier 4: confirmed gaming or strong interactive demand.
  unfoldable pub gaming_rules : Eval → List Match
  gaming_rules e =
      when (any (game_confirmation e) e.s.apps.games)
        (contention drain game_confirmed tier_gaming warning)
      ++ (when (any (confirmed_child e) e.s.apps.launcher_children)
            (contention drain launcher_child_gpu tier_gaming warning)
          ++ when
              (unknown_fullscreen e
                && e.s.gpu.external_util_trusted
                && float_le e.soft_util e.s.gpu.external_util_pct)
              (contention drain fullscreen_gpu tier_gaming warning))

  -- `softContention`
  unfoldable pub soft_contended : Eval → Bool
  unfolding is_util_rule
  soft_contended e =
      let g = e.s.gpu in
      (if g.external_util_trusted && ltb 0 g.above_soft_for && leb e.p.soft_window g.above_soft_for
        then true
        else not e.running
          && g.external_util_trusted
          && ltb g.below_soft_for e.c.contention.clear_window
          && is_util_rule e.s.timers.last_competing_rule)
      || leb e.soft_vram g.external_vram_mib

  -- Tiers 5 to 7: the rules of the active profile.
  unfoldable pub profile_rules : Eval → List Match
  unfolding soft_contended
  profile_rules e =
      when (e.p.drain_on_game_process && not (is_empty e.s.apps.games))
        (contention drain game_process e.profile_tier notice)
      ++ (when
            (e.p.drain_on_ambiguous
              && (unknown_fullscreen e || not (is_empty e.s.apps.launcher_children)))
            (contention drain ambiguous e.profile_tier notice)
          ++ when (e.p.drain_on_soft_contention && telemetry_usable e && soft_contended e)
              (contention drain soft_contention e.profile_tier notice))

  unfoldable pub yield_rules : Eval → List Match
  yield_rules e =
      safety_rules e ++ (pause_rules e ++ (critical_rules e ++ (gaming_rules e ++ profile_rules e)))
