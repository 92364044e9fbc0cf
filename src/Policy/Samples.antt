-- ===== src/Policy/Samples.antt =====
-- Decisions about the snapshots of `Policy.Plain`.
use benchwarmer.Prelude.{◌*◌, ◌≤◌, ◌≡◌, ◌↔◌, ◌⊎◌, refl, false, All, []}
use benchwarmer.Platform.Plain.{plain}
use benchwarmer.Config.{second, find_profile}
use benchwarmer.Config.Plain.{plain_config}
use benchwarmer.Schedule.{
  active, active_in, first_match, in_window, clock_minutes, has_day, weekday, in_minutes,
}
use benchwarmer.Policy.Types.{run, drain, preempt, Rule, Snapshot, Decision}
use benchwarmer.Policy.Rules.{
  new_eval, yield_rules, safety_rules, pause_rules, critical_rules, gaming_rules, profile_rules,
}
use benchwarmer.Policy.Evaluate.{
  evaluate, winner, eligibility, run_match, next_load_at, drain_grace, would_suppress, recent,
  also_matched,
}
use benchwarmer.Policy.Precedence.{InOrder, evaluate_precedence}
use benchwarmer.Policy.Threats.{IsUnthreatened}
use benchwarmer.Policy.Eligible.{MayLoad, evaluate_load, evaluate-run-IsUnthreatened}
use benchwarmer.Policy.Safety.{IsUnsafe, evaluate_unsafe, evaluate_pause_grace}
use benchwarmer.Policy.Plain.{quiet, serving, crowded, crowded_pause, hot, cooling}

-- Evaluate on the plain configuration, open for tests.
decided : Snapshot plain → Decision
unfolding evaluate new_eval active active_in first_match in_window clock_minutes has_day weekday
    in_minutes find_profile yield_rules safety_rules pause_rules critical_rules gaming_rules
    profile_rules winner eligibility run_match next_load_at drain_grace would_suppress recent
    also_matched
decided s = evaluate plain s plain_config

quiet_loads : (decided quiet).action ≡ run
unfolding decided
quiet_loads = refl

crowded_preempts : (decided crowded).action ≡ preempt
unfolding decided
crowded_preempts = refl

crowded_pause_grace : (decided crowded_pause).grace ≡ 10 * second
unfolding decided
crowded_pause_grace = refl

cooling_holds : (decided cooling).next_load_at ≡ 1180 * second
unfolding decided
cooling_holds = refl

evaluate_precedence_example :
    let ms = yield_rules plain (new_eval plain crowded_pause plain_config) in
    InOrder ms × All (λ m. (evaluate plain crowded_pause plain_config).tier ≤ m.tier) ms
evaluate_precedence_example = evaluate_precedence plain crowded_pause plain_config

evaluate_load_example : ((evaluate plain quiet plain_config).action ≡ run) ↔ (
    (yield_rules plain (new_eval plain quiet plain_config) ≡ [])
    × MayLoad plain (new_eval plain quiet plain_config))
evaluate_load_example = evaluate_load plain quiet plain_config refl

evaluate-run-IsUnthreatened_example : IsUnthreatened plain (new_eval plain serving plain_config)
unfolding decided
evaluate-run-IsUnthreatened_example = evaluate-run-IsUnthreatened plain serving plain_config refl

evaluate_unsafe_example :
    let d = evaluate plain hot plain_config in
    (d.action ≡ preempt) × (d.competing ≡ false) × (d.counts_as_preemption ≡ false)
unfolding new_eval
evaluate_unsafe_example = evaluate_unsafe plain hot plain_config refl (IsUnsafe.hot 99 refl refl)

evaluate_pause_grace_example :
    let e = new_eval plain crowded_pause plain_config in
    let d = evaluate plain crowded_pause plain_config in
    (d.action ≡ drain)
    × (d.rule ≡ Rule.paused)
    × ((d.grace ≡ e.p.grace) ⊎ (d.grace ≡ e.p.grace_under_pressure))
unfolding decided
evaluate_pause_grace_example = evaluate_pause_grace plain crowded_pause plain_config refl refl refl
