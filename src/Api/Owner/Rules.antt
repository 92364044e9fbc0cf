-- ===== src/Api/Owner/Rules.antt =====
-- internal/api/owner.go: what each rule of the policy comes to.
use benchwarmer.Prelude.{ℕ, ◌≡◌, refl, Bool, true, false, ◌||◌, [], ◌∷◌, if◌then◌else◌, arith}
use benchwarmer.Platform.{same}
use benchwarmer.Policy.Types.{
  Rule, no_rule, shutdown, suspend, device_lost, temperature, telemetry_lost, critical_vram_free,
  critical_vram_ext, critical_util, game_confirmed, launcher_child_gpu, fullscreen_gpu,
  game_process, ambiguous, soft_contention, recovery, suppressed, cooldown, no_telemetry,
  no_process_list, vram_insufficient, setup_required, ai_priority_run, manual_drain, manual_reload,
  runtime_unverified, secrets_unprotected,
}
use benchwarmer.Policy.Evaluate.{has_prefix}
use benchwarmer.Api.OwnerStatus.{
  Text, rule_text, OwnerKind, available, starting, waiting, OwnerSeverity, ok, wait, attention,
  OwnerStatus, Status, starts_with, evidence_value,
}
use benchwarmer.Api.Owner.{bad, recovery_status, is_error, lacks_vram, by_rule}

-- The rules that the policy decides by; the controller adds others.
abbrev pub of_policy : Rule → Bool
of_policy no_rule = false
of_policy manual_drain = false
of_policy manual_reload = false
of_policy runtime_unverified = false
of_policy secrets_unprotected = false
of_policy _ = true

abbrev pub severity_of : Bool → OwnerKind → OwnerSeverity
severity_of fallback available = if fallback then attention else ok
severity_of fallback starting = if fallback then attention else ok
severity_of fallback waiting = wait
severity_of fallback OwnerKind.paused = OwnerSeverity.paused
severity_of fallback OwnerKind.problem = OwnerSeverity.problem
severity_of fallback OwnerKind.unknown = OwnerSeverity.unknown

-- A wait, a pause or a problem
abbrev pub is_plain : OwnerKind → Bool
is_plain waiting = true
is_plain OwnerKind.paused = true
is_plain OwnerKind.problem = true
is_plain _ = false

abbrev pub IsPlain : OwnerStatus → Type 0
IsPlain o = (is_plain o.kind ≡ true) × (o.severity ≡ severity_of false o.kind)

if-IsPlain : (b : Bool) (x y : OwnerStatus) → IsPlain x → IsPlain y → IsPlain (if b then x else y)
if-IsPlain true x y h k = h
if-IsPlain false x y h k = k

-- One that waits
abbrev pub Waits : OwnerStatus → Type 0
Waits o = (o.kind ≡ waiting) × (o.severity ≡ wait)

Waits-IsPlain : (o : OwnerStatus) → Waits o → IsPlain o
Waits-IsPlain o h = ground arith

recovery_status-IsPlain :
    (reason : Text) (o : OwnerStatus) → Waits o → IsPlain (recovery_status reason o)
unfolding recovery_status
recovery_status-IsPlain reason o h =
    let p = Waits-IsPlain o h in
    if-IsPlain (starts_with "startup" reason) _ _ p (
      if-IsPlain (starts_with "resume" reason) _ _ p (
        if-IsPlain (starts_with "manual drain" reason) _ _ p (
          if-IsPlain (starts_with "crash" reason || starts_with "kill" reason) _ _ (refl, refl)
            (if-IsPlain (starts_with "GPU" reason || starts_with "device" reason) _ _ (refl, refl)
              (if-IsPlain (starts_with "telemetry recovery" reason) _ _ p
                (if-IsPlain (starts_with "telemetry" reason) _ _ (refl, refl) p))))))

module _ (atoi : Text → ℕ) where
  pub by_rule-IsPlain :
      (r : Rule) (s : Status) (delay : ℕ) (o : OwnerStatus)
      → of_policy r ≡ true
      → Waits o
      → IsPlain (by_rule atoi (record s { rule = rule_text r }) delay o)
  unfolding by_rule has_prefix same
  by_rule-IsPlain no_rule s delay o h w = absurd (ground (arith, h))
  by_rule-IsPlain manual_drain s delay o h w = absurd (ground (arith, h))
  by_rule-IsPlain manual_reload s delay o h w = absurd (ground (arith, h))
  by_rule-IsPlain runtime_unverified s delay o h w = absurd (ground (arith, h))
  by_rule-IsPlain secrets_unprotected s delay o h w = absurd (ground (arith, h))
  by_rule-IsPlain device_lost s delay o h w = (refl, refl)
  by_rule-IsPlain temperature s delay o h w = (refl, refl)
  by_rule-IsPlain telemetry_lost s delay o h w = (refl, refl)
  by_rule-IsPlain no_telemetry s delay o h w = (refl, refl)
  by_rule-IsPlain no_process_list s delay o h w = (refl, refl)
  by_rule-IsPlain setup_required s delay o h w = (refl, refl)
  by_rule-IsPlain Rule.paused s delay o h w = (refl, refl)
  by_rule-IsPlain vram_insufficient s delay o h w =
      if-IsPlain (lacks_vram atoi s) (bad "vram_too_small" o) (record o { cause = "low_vram" })
        (refl, refl) (Waits-IsPlain o w)
  by_rule-IsPlain recovery s delay o h w =
      recovery_status-IsPlain (evidence_value s.evidence ("recovery_reason" ∷ []))
        (record o { return_at = s.next_load_at }) w
  by_rule-IsPlain Rule.run s delay o h w =
      if-IsPlain (is_error s.state) (bad "crash" o) (record o { cause = "starting" }) (refl, refl)
        (Waits-IsPlain o w)
  by_rule-IsPlain ai_priority_run s delay o h w =
      if-IsPlain (is_error s.state) (bad "crash" o) (record o { cause = "starting" }) (refl, refl)
        (Waits-IsPlain o w)
  by_rule-IsPlain shutdown s delay o h w = Waits-IsPlain o w
  by_rule-IsPlain suspend s delay o h w = Waits-IsPlain o w
  by_rule-IsPlain critical_vram_free s delay o h w = Waits-IsPlain o w
  by_rule-IsPlain critical_vram_ext s delay o h w = Waits-IsPlain o w
  by_rule-IsPlain critical_util s delay o h w = Waits-IsPlain o w
  by_rule-IsPlain game_confirmed s delay o h w = Waits-IsPlain o w
  by_rule-IsPlain launcher_child_gpu s delay o h w = Waits-IsPlain o w
  by_rule-IsPlain fullscreen_gpu s delay o h w = Waits-IsPlain o w
  by_rule-IsPlain game_process s delay o h w = Waits-IsPlain o w
  by_rule-IsPlain ambiguous s delay o h w = Waits-IsPlain o w
  by_rule-IsPlain soft_contention s delay o h w = Waits-IsPlain o w
  by_rule-IsPlain suppressed s delay o h w = Waits-IsPlain o w
  by_rule-IsPlain cooldown s delay o h w = Waits-IsPlain o w
