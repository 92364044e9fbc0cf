-- ===== src/Api/Owner.antt =====
-- internal/api/owner.go: what a status means to the owner of the PC. Free texts are lists of code points.
pub mod Shown
pub mod Rules
mod Samples
use benchwarmer.Prelude.{
  ℕ, ◌/◌, ltb, ◌==◌, Bool, true, false, not, ◌&&◌, ◌||◌, List, [], ◌∷◌, String, str_eq,
  if◌then◌else◌,
}
use benchwarmer.Platform.{codes, same}
use benchwarmer.Config.{second}
use benchwarmer.State.{State, ready, busy, loading, draining, preempting, error}
use benchwarmer.Policy.Types.{
  Rule, shutdown, suspend, device_lost, temperature, telemetry_lost, fullscreen_gpu, game_process,
  ambiguous, soft_contention, recovery, suppressed, cooldown, no_telemetry, no_process_list,
  vram_insufficient, setup_required, ai_priority_run,
}
use benchwarmer.Policy.Evaluate.{has_prefix}
use benchwarmer.Api.OwnerStatus.{
  Text, OwnerKind, available, starting, waiting, OwnerSeverity, ok, wait, attention, OwnerStatus,
  Evidence, Status, status_of, trim_prefix, before_first, evidence_value, evidence_threshold,
  starts_with, is_rule, cooldown_after,
}

abbrev pub bad : String → OwnerStatus → OwnerStatus
bad cause o = record o { kind = OwnerKind.problem; severity = OwnerSeverity.problem; cause = cause }

-- `recovery`
unfoldable pub recovery_status : Text → OwnerStatus → OwnerStatus
unfolding has_prefix
recovery_status reason o =
    if starts_with "startup" reason
    then record o { cause = "startup" }
    else if starts_with "resume" reason
    then record o { cause = "resume" }
    else if starts_with "manual drain" reason
    then record o { cause = "drained" }
    else if starts_with "crash" reason || starts_with "kill" reason
    then bad "crash" o
    else if starts_with "GPU" reason || starts_with "device" reason
    then bad "gpu_fault" o
    else if starts_with "telemetry recovery" reason
    then record o { cause = "telemetry_recovered" }
    else if starts_with "telemetry" reason
    then bad "no_gpu_readings" o
    else record o { cause = "recovering" }

abbrev or_text : Text → Text → Text
or_text [] t = t
or_text (c ∷ s) t = c ∷ s

-- The application that a contention names
abbrev contending_app : List Evidence → Text
contending_app es =
    or_text (evidence_value es ("process" ∷ []))
      (before_first (codes " (") (evidence_value es ("top_external_process" ∷ [])))

abbrev pub is_error : State → Bool
is_error error = true
is_error _ = false

abbrev pub waits : Bool → OwnerStatus
waits yielding = record (status_of OwnerKind.waiting OwnerSeverity.wait "") { yielding = yielding }

abbrev pub more_urgent : OwnerSeverity → OwnerSeverity
more_urgent ok = attention
more_urgent s = s

module _ (atoi : Text → ℕ) where
  -- More memory is needed than the GPU has.
  abbrev pub lacks_vram : Status → Bool
  lacks_vram s =
      let need = evidence_threshold atoi s.evidence "vram_free_mib" in
      ltb 0 need && ltb 0 s.vram_total_mib && ltb s.vram_total_mib need

  -- The rules, in the order of the switch in `classify`
  unfoldable pub by_rule : Status → ℕ → OwnerStatus → OwnerStatus
  unfolding has_prefix same trim_prefix before_first evidence_value evidence_threshold
      cooldown_after recovery_status
  by_rule s delay o =
      let is = is_rule s.rule in
      let rule = codes s.rule in
      if is shutdown
      then record o { cause = "stopping" }
      else if is suspend
      then record o { cause = "sleeping" }
      else if is device_lost
      then bad "gpu_fault" o
      else if is temperature
      then bad "too_hot" o
      else if is telemetry_lost || is no_telemetry
      then bad "no_gpu_readings" o
      else if is no_process_list
      then bad "no_process_list" o
      else if is setup_required
      then record (bad "setup" o) { detail = trim_prefix (codes "Setup required: ") s.reason }
      else if is Rule.paused
      then record o {
        kind = OwnerKind.paused;
        severity = OwnerSeverity.paused;
        cause = "paused";
        return_at = s.next_load_at;
      }
      else if starts_with "contention." rule || is soft_contention
      then record o {
        cause = "gpu_busy";
        app = contending_app s.evidence;
        resume_delay_seconds = delay / second;
      }
      else if starts_with "gaming." rule || is fullscreen_gpu || is game_process || is ambiguous
      then record o {
        cause = "game";
        app = evidence_value s.evidence ("process" ∷ "foreground" ∷ []);
        resume_delay_seconds = delay / second;
      }
      else if is suppressed
      then record o { cause = "suppressed"; return_at = s.next_load_at }
      else if is cooldown
      then record o {
        cause = "cooldown";
        return_at = s.next_load_at;
        after = cooldown_after (evidence_value s.evidence ("last_competing_rule" ∷ []));
      }
      else if is vram_insufficient
      then (if lacks_vram s then bad "vram_too_small" o else record o { cause = "low_vram" })
      else if is recovery
      then recovery_status (evidence_value s.evidence ("recovery_reason" ∷ []))
          (record o { return_at = s.next_load_at })
      else if is Rule.run || is ai_priority_run
      then (if is_error s.state then bad "crash" o else record o { cause = "starting" })
      else status_of OwnerKind.unknown OwnerSeverity.unknown "unknown"

  unfoldable pub owner_classify : State → Status → ℕ → OwnerStatus
  unfolding by_rule
  owner_classify ready s delay = status_of available ok "ready"
  owner_classify busy s delay = status_of available ok "busy"
  owner_classify loading s delay = status_of starting ok "loading"
  owner_classify draining s delay = by_rule s delay (waits true)
  owner_classify preempting s delay = by_rule s delay (waits true)
  owner_classify _ s delay = by_rule s delay (waits false)

  -- `DeriveOwner`
  unfoldable pub derive_owner : Status → ℕ → OwnerStatus
  unfolding owner_classify
  derive_owner s delay =
      let o = owner_classify s.state s delay in
      if not (str_eq s.config_source "") && not (str_eq s.config_source "primary")
      then record o { config_fallback = true; severity = more_urgent o.severity }
      else o
