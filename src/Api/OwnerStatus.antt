-- ===== src/Api/OwnerStatus.antt =====
-- internal/api/owner.go: a status, what it means to the owner, and the texts that it is read by. Free texts
-- are lists of code points.
use benchwarmer.Prelude.{
  ℕ, Bool, false, ◌||◌, any, List, [], ◌∷◌, Option, none, String, str_eq, if◌then◌else◌,
}
use benchwarmer.Platform.{codes, same}
use benchwarmer.State.{State}
use benchwarmer.Policy.Types.{
  Rule, no_rule, shutdown, suspend, device_lost, temperature, telemetry_lost, critical_vram_free,
  critical_vram_ext, critical_util, game_confirmed, launcher_child_gpu, fullscreen_gpu,
  game_process, ambiguous, soft_contention, recovery, suppressed, cooldown, no_telemetry,
  no_process_list, vram_insufficient, setup_required, ai_priority_run, manual_drain, manual_reload,
  runtime_unverified, secrets_unprotected,
}
use benchwarmer.Policy.Evaluate.{has_prefix}

abbrev pub Text : Type 0
Text = List ℕ

-- The identifiers of the rules (internal/policy/evaluate.go), with those that the controller adds
abbrev pub rule_text : Rule → String
rule_text no_rule = ""
rule_text shutdown = "safety.shutdown"
rule_text suspend = "safety.suspend"
rule_text device_lost = "safety.device_lost"
rule_text temperature = "safety.temperature"
rule_text telemetry_lost = "safety.telemetry_lost"
rule_text Rule.paused = "manual.pause"
rule_text critical_vram_free = "contention.critical_vram_free"
rule_text critical_vram_ext = "contention.critical_external_vram"
rule_text critical_util = "contention.critical_external_util"
rule_text game_confirmed = "gaming.confirmed"
rule_text launcher_child_gpu = "gaming.launcher_child"
rule_text fullscreen_gpu = "interactive.fullscreen_gpu"
rule_text game_process = "profile.game_process"
rule_text ambiguous = "profile.ambiguous_interactive"
rule_text soft_contention = "profile.soft_contention"
rule_text recovery = "eligibility.recovery"
rule_text suppressed = "eligibility.suppressed"
rule_text cooldown = "eligibility.cooldown"
rule_text no_telemetry = "eligibility.telemetry_unavailable"
rule_text no_process_list = "eligibility.process_list_unavailable"
rule_text vram_insufficient = "eligibility.vram_insufficient"
rule_text setup_required = "eligibility.setup_required"
rule_text Rule.run = "profile.run"
rule_text ai_priority_run = "mode.ai_priority"
rule_text manual_drain = "manual.drain"
rule_text manual_reload = "manual.reload"
rule_text runtime_unverified = "safety.runtime_unverified"
rule_text secrets_unprotected = "safety.secrets_unprotected"

pub data OwnerKind : Type 0 where
  available : OwnerKind
  starting : OwnerKind
  waiting : OwnerKind
  paused : OwnerKind
  problem : OwnerKind
  unknown : OwnerKind

pub data OwnerSeverity : Type 0 where
  ok : OwnerSeverity
  wait : OwnerSeverity
  paused : OwnerSeverity
  attention : OwnerSeverity
  problem : OwnerSeverity
  unknown : OwnerSeverity

pub record OwnerStatus : Type 0 where
  pub kind : OwnerKind
  pub severity : OwnerSeverity
  pub cause : String
  pub after : String
  pub app : Text
  pub detail : Text
  pub yielding : Bool
  pub return_at : Option ℕ
  pub resume_delay_seconds : ℕ
  pub config_fallback : Bool

pub record Evidence : Type 0 where
  pub name : String
  pub value : Text
  pub threshold : Text

-- What `DeriveOwner` reads of a status
pub record Status : Type 0 where
  pub state : State
  pub rule : String
  pub reason : Text
  pub evidence : List Evidence
  pub next_load_at : Option ℕ
  pub vram_total_mib : ℕ
  pub config_source : String

abbrev pub status_of : OwnerKind → OwnerSeverity → String → OwnerStatus
status_of k s cause = record {
  kind = k;
  severity = s;
  cause = cause;
  after = "";
  app = [];
  detail = [];
  yielding = false;
  return_at = none;
  resume_delay_seconds = 0;
  config_fallback = false;
}

-- `strings.TrimPrefix`
unfoldable pub trim_prefix : Text → Text → Text
unfolding has_prefix
trim_prefix p s = if has_prefix p s then after_prefix p s else s
  where
    after_prefix : Text → Text → Text
    after_prefix (x ∷ xs) (y ∷ ys) = after_prefix xs ys
    after_prefix _ s = s

-- What stands before the separator, or all
unfoldable pub before_first : Text → Text → Text
unfolding has_prefix
before_first sep [] = []
before_first sep (c ∷ s) =
    let rest = before_first sep s in if has_prefix sep (c ∷ s) then [] else c ∷ rest

unfoldable pub evidence_value : List Evidence → List String → Text
evidence_value [] names = []
evidence_value (e ∷ es) names =
    if any (λ n. str_eq e.name n) names then e.value else evidence_value es names

unfoldable pub evidence_threshold : (Text → ℕ) → List Evidence → String → ℕ
evidence_threshold atoi [] name = 0
evidence_threshold atoi (e ∷ es) name =
    if str_eq e.name name then atoi e.threshold else evidence_threshold atoi es name

abbrev pub starts_with : String → Text → Bool
starts_with p s = has_prefix (codes p) s

abbrev pub is_rule : String → Rule → Bool
is_rule s r = str_eq s (rule_text r)

abbrev is_contention : Text → Bool
is_contention s = starts_with "contention." s || same s (codes (rule_text soft_contention))

abbrev is_game : Text → Bool
is_game s =
    starts_with "gaming." s
    || same s (codes (rule_text fullscreen_gpu))
    || same s (codes (rule_text game_process))
    || same s (codes (rule_text ambiguous))

unfoldable pub cooldown_after : Text → String
unfolding has_prefix same
cooldown_after rule =
    if is_game rule
    then "game"
    else if is_contention rule
    then "gpu_busy"
    else if same rule (codes (rule_text temperature))
    then "heat"
    else "other"
