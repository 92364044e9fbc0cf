-- ===== src/Policy/Evaluate.antt =====
-- internal/policy/evaluate.go: load eligibility, the timers, and Evaluate.
use benchwarmer.Prelude.{
  ℕ, suc, ◌+◌, ltb, leb, ◌==◌, Bool, true, false, not, ◌&&◌, ◌||◌, List, [], ◌∷◌, any, Option, none,
  some, String, str_eq, if◌then◌else◌,
}
use benchwarmer.Platform.{Platform, codes}
use benchwarmer.Config.{Config}
use benchwarmer.State.{State, stopped, cooldown, suppressed, error, unset, eqb}
use benchwarmer.Policy.Types.{
  Rule, Action, run, hold, drain, Severity, info, notice, warning, tier_eligibility, Decision,
  Snapshot, yields,
}
use benchwarmer.Policy.Rules.{
  Match, safety, is_ai_priority, Eval, new_eval, telemetry_usable, yield_rules,
}

abbrev tag : Rule → ℕ
tag Rule.no_rule = 0
tag Rule.shutdown = 1
tag Rule.suspend = 2
tag Rule.device_lost = 3
tag Rule.temperature = 4
tag Rule.telemetry_lost = 5
tag Rule.paused = 6
tag Rule.critical_vram_free = 7
tag Rule.critical_vram_ext = 8
tag Rule.critical_util = 9
tag Rule.game_confirmed = 10
tag Rule.launcher_child_gpu = 11
tag Rule.fullscreen_gpu = 12
tag Rule.game_process = 13
tag Rule.ambiguous = 14
tag Rule.soft_contention = 15
tag Rule.recovery = 16
tag Rule.suppressed = 17
tag Rule.cooldown = 18
tag Rule.no_telemetry = 19
tag Rule.no_process_list = 20
tag Rule.vram_insufficient = 21
tag Rule.setup_required = 22
tag Rule.run = 23
tag Rule.ai_priority_run = 24
tag Rule.manual_drain = 25
tag Rule.manual_reload = 26
tag Rule.runtime_unverified = 27
tag Rule.secrets_unprotected = 28

abbrev pub rule_eqb : Rule → Rule → Bool
rule_eqb r s = tag r == tag s

-- `strings.HasPrefix`
unfoldable pub has_prefix : List ℕ → List ℕ → Bool
has_prefix [] s = true
has_prefix (p ∷ ps) [] = false
has_prefix (p ∷ ps) (c ∷ s) = p == c && has_prefix ps s

-- The prefixes of a recovery reason that tell of a fault.
abbrev pub fault_prefixes : List String
fault_prefixes = "crash" ∷ "device" ∷ "telemetry" ∷ "kill" ∷ "GPU" ∷ []

unfoldable pub fault_reason : String → Bool
unfolding has_prefix
fault_reason reason = any (λ p. has_prefix (codes p) (codes reason)) fault_prefixes

-- A deadline that is set and has not passed.
abbrev pub pending : ℕ → ℕ → Bool
pending now deadline = not (deadline == 0) && ltb now deadline

abbrev after_start : ℕ → ℕ → ℕ
after_start start length = if start == 0 then 0 else start + length

-- The later of two times, the first if it is not after `now`.
abbrev later : ℕ → ℕ → ℕ → ℕ
later now next t = if ltb now t && ltb next t then t else next

abbrev gate : Rule → Severity → State → Match
gate r v idle = safety hold r tier_eligibility v idle

-- Preemptions of the window up to `now`.
unfoldable pub recent : ℕ → ℕ → List ℕ → ℕ
recent now window [] = 0
recent now window (t ∷ ts) =
    let rest = recent now window ts in if leb t now && leb now (t + window) then suc rest else rest

module _ (P : Platform) where
  open P use {float_le}

  abbrev pub cooldown_end : Eval P → ℕ
  cooldown_end e = after_start e.s.timers.last_competing_at e.p.cooldown

  abbrev pub suppress_end : Eval P → ℕ
  suppress_end e = after_start e.s.timers.suppressed_at e.c.anti_thrash.suppress_for

  -- The first gate that fails.
  unfoldable pub eligibility : Eval P → Option Match
  eligibility e =
      let now = e.s.now in
      let need = e.c.runtime.required_free_vram_mib in
      if not (str_eq e.s.runtime.setup_problem "")
      then some (gate Rule.setup_required warning stopped)
      else if pending now e.s.timers.recovery_until
      then some (
          gate Rule.recovery info
            (if fault_reason e.s.timers.recovery_reason then error else cooldown))
      else if pending now (suppress_end e)
      then some (gate Rule.suppressed notice suppressed)
      else if pending now (cooldown_end e)
      then some (gate Rule.cooldown info cooldown)
      else if not (telemetry_usable P e)
      then some (gate Rule.no_telemetry warning stopped)
      else if not e.s.apps.process_list_ok
      then some (gate Rule.no_process_list warning stopped)
      else if ltb 0 need && ltb e.s.gpu.vram_free_mib need
      then some (gate Rule.vram_insufficient info stopped)
      else none

  unfoldable pub run_match : Eval P → Match
  run_match e = record {
    action = run;
    rule = if is_ai_priority e.mode then Rule.ai_priority_run else Rule.run;
    tier = e.profile_tier;
    severity = info;
    competing = false;
    preempts = false;
    idle = stopped;
  }

  -- The end of a pause counts too, if it has one.
  abbrev with_pause : ℕ → Option ℕ → ℕ → ℕ
  with_pause now none next = 0
  with_pause now (some until) next = later now next until

  unfoldable pub next_load_at : Eval P → Match → ℕ
  next_load_at e win =
      let now = e.s.now in
      let next =
        later now (later now (later now 0 e.s.timers.recovery_until) (suppress_end e))
          (cooldown_end e) in
      if win.competing
      then 0
      else if rule_eqb win.rule Rule.paused
      then with_pause now e.s.mode.until next
      else next

  unfoldable pub drain_grace : Eval P → ℕ
  drain_grace e =
      if telemetry_usable P e
        && ((e.s.gpu.external_util_trusted && float_le e.soft_util e.s.gpu.external_util_pct)
            || leb e.soft_vram e.s.gpu.external_vram_mib)
      then e.p.grace_under_pressure
      else e.p.grace

  unfoldable pub would_suppress : Eval P → Bool
  would_suppress e =
      leb e.c.anti_thrash.max_preemptions
        (suc (recent e.s.now e.c.anti_thrash.window e.s.timers.preemptions))

  abbrev or_run : Eval P → Option Match → Match
  or_run e none = run_match e
  or_run e (some g) = g

  -- The match that decides, from all that yield.
  unfoldable pub winner : Eval P → List Match → Match
  winner e (m ∷ rest) = m
  winner e [] = if e.running then run_match e else or_run e (eligibility e)

  unfoldable pub also_matched : Rule → List Match → List Rule
  also_matched r [] = []
  also_matched r (m ∷ matches) =
      let rest = also_matched r matches in if rule_eqb m.rule r then rest else m.rule ∷ rest

  -- Nothing to stop: to yield while idle is not to load.
  abbrev pub final_action : Bool → Action → Action
  final_action running a = if not running && yields a then hold else a

  abbrev is_drain : Action → Bool
  is_drain drain = true
  is_drain _ = false

  abbrev final_idle : Bool → State → State
  final_idle suppressing idle =
      let idle' = if eqb idle unset then stopped else idle in
      if suppressing && eqb idle' cooldown then suppressed else idle'

  unfoldable pub decide : Eval P → Match → List Match → Decision
  decide e win matches =
      let action = final_action e.running win.action in
      let counts = e.running && yields action && win.preempts in
      record {
        action = action;
        rule = win.rule;
        tier = win.tier;
        severity = win.severity;
        profile = e.profile_name;
        profile_source = e.profile_source;
        mode = e.mode;
        grace = if is_drain action then drain_grace e else 0;
        competing = win.competing;
        counts_as_preemption = counts;
        suppress = counts && would_suppress e;
        idle_state = final_idle (pending e.s.now (suppress_end e)) win.idle;
        next_load_at = next_load_at e win;
        also_matched = also_matched win.rule matches;
      }

  unfoldable pub evaluate_eval : Eval P → Decision
  unfolding decide
  evaluate_eval e = let matches = yield_rules P e in decide e (winner e matches) matches

  unfoldable pub evaluate : Snapshot P → Config P → Decision
  unfolding evaluate_eval
  evaluate s c = evaluate_eval (new_eval P s c)
