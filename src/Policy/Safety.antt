-- ===== src/Policy/Safety.antt =====
-- internal/policy/evaluate.go: how fast the runtime stops, by the tier of the reason.
use benchwarmer.Prelude.{◌≤◌, ◌≡◌, true, false, ◌⊎◌, List, [], ◌∷◌, ◌++◌, arith, some}
use benchwarmer.Platform.{Platform}
use benchwarmer.Config.{Config}
use benchwarmer.State.{runtime_running}
use benchwarmer.Policy.Types.{pause, drain, preempt, Rule, Snapshot}
use benchwarmer.Policy.Rules.{
  Match, Eval, new_eval, safety_rules, pause_rules, critical_rules, yield_rules, is_none, is_pause,
}
use benchwarmer.Policy.Evaluate.{winner, decide, evaluate, drain_grace}

module _ (P : Platform) where
  -- A hard limit of the first tier is crossed.
  pub data IsUnsafe (e : Eval P) : Type 0 where
    down : e.s.power.shutting_down ≡ true → IsUnsafe e
    asleep : e.s.power.suspending ≡ true → IsUnsafe e
    lost : e.s.power.device_lost ≡ true → IsUnsafe e
    hot :
        (t : P.Float)
        → e.s.gpu.temperature_c ≡ some t
        → P.float_le e.c.safety.gpu_temp_critical_c t ≡ true
        → IsUnsafe e
    unmeasured :
        is_none e.s.gpu.confidence ≡ true → e.c.telemetry.loss_grace ≤ e.s.gpu.none_for → IsUnsafe e

  -- The first match of the list preempts without being a competing workload.
  abbrev PreemptsFirst : List Match → Type 0
  PreemptsFirst [] = ⊥
  PreemptsFirst (m ∷ ms) = (m.action ≡ preempt) × (m.competing ≡ false) × (m.preempts ≡ false)

  PreemptsFirst-append : (xs ys : List Match) → PreemptsFirst xs → PreemptsFirst (xs ++ ys)
  PreemptsFirst-append [] ys h = absurd h
  PreemptsFirst-append (x ∷ xs) ys h = h

  safety_rules-PreemptsFirst :
      (e : Eval P) → e.running ≡ true → IsUnsafe e → PreemptsFirst (safety_rules P e)
  unfolding safety_rules
  safety_rules-PreemptsFirst e r (down h) = ground arith
  safety_rules-PreemptsFirst e r (asleep h) = ground arith
  safety_rules-PreemptsFirst e r (lost h) = ground arith
  safety_rules-PreemptsFirst e r (hot t h k) = ground arith
  safety_rules-PreemptsFirst e r (unmeasured h k) = ground arith

  decide-PreemptsFirst :
      (e : Eval P) (ms : List Match)
      → e.running ≡ true
      → PreemptsFirst ms
      → let d = decide P e (winner P e ms) ms in
        (d.action ≡ preempt) × (d.competing ≡ false) × (d.counts_as_preemption ≡ false)
  unfolding decide winner
  decide-PreemptsFirst e [] r h = absurd h
  decide-PreemptsFirst e (m ∷ ms) r h = ground arith

  -- When the service stops, the system goes to sleep, the GPU is lost or at its critical temperature,
  -- or telemetry is lost for the time allowed, a running runtime is stopped at once, in every mode,
  -- and that is neither a competing workload nor a preemption that counts.
  pub evaluate_unsafe :
      (s : Snapshot P) (c : Config P)
      → runtime_running s.runtime.state ≡ true
      → IsUnsafe (new_eval P s c)
      → let d = evaluate P s c in
        (d.action ≡ preempt) × (d.competing ≡ false) × (d.counts_as_preemption ≡ false)
  unfolding evaluate new_eval yield_rules
  evaluate_unsafe s c r h =
      let e = new_eval P s c in
      decide-PreemptsFirst e (yield_rules P e) r
        (PreemptsFirst-append (safety_rules P e) _ (safety_rules-PreemptsFirst e r h))

  -- The first match is one.
  abbrev Heads : (Match → Type 0) → List Match → Type 0
  Heads Q [] = ⊥
  Heads Q (m ∷ ms) = Q m

  abbrev IsPaused : Match → Type 0
  IsPaused m = (m.action ≡ drain) × (m.rule ≡ Rule.paused)

  pause_rules-IsPaused :
      (e : Eval P) (rest : List Match) → e.mode ≡ pause → Heads IsPaused (pause_rules P e ++ rest)
  unfolding pause_rules
  pause_rules-IsPaused e rest p = ground arith

  decide_paused :
      (e : Eval P) (ms : List Match)
      → e.running ≡ true
      → Heads IsPaused ms
      → let d = decide P e (winner P e ms) ms in
        (d.action ≡ drain) × (d.rule ≡ Rule.paused) × (d.grace ≡ drain_grace P e)
  unfolding decide winner
  decide_paused e [] r h = absurd h
  decide_paused e (m ∷ ms) r h = ground arith

  new_eval_pause :
      (s : Snapshot P) (c : Config P) → s.mode.mode ≡ pause → (new_eval P s c).mode ≡ pause
  unfolding new_eval
  new_eval_pause s c p = ground arith

  drain_grace-cases :
      (e : Eval P) → (drain_grace P e ≡ e.p.grace) ⊎ (drain_grace P e ≡ e.p.grace_under_pressure)
  unfolding drain_grace
  drain_grace-cases e = ground arith

  -- While the mode is a pause and no hard limit of the first tier is crossed, a running runtime
  -- drains under the pause with a period of grace, whatever the critical contention.
  pub evaluate_pause_grace :
      (s : Snapshot P) (c : Config P)
      → runtime_running s.runtime.state ≡ true
      → s.mode.mode ≡ pause
      → let e = new_eval P s c in
        safety_rules P e ≡ []
        → let d = evaluate P s c in
          (d.action ≡ drain)
          × (d.rule ≡ Rule.paused)
          × ((d.grace ≡ e.p.grace) ⊎ (d.grace ≡ e.p.grace_under_pressure))
  unfolding evaluate new_eval yield_rules
  evaluate_pause_grace s c r p safe =
      let e = new_eval P s c in
      let d =
        decide_paused e (yield_rules P e) r
          (rw safe (pause_rules-IsPaused e _ (new_eval_pause s c p))) in
      ground (arith, drain_grace-cases e)

  -- Critical contention: other processes hold the critical amount of memory.
  abbrev IsCritical : Match → Type 0
  IsCritical m = (m.action ≡ preempt) × (m.competing ≡ true) × (m.preempts ≡ true)

  critical_rules-IsCritical :
      (e : Eval P) (rest : List Match)
      → is_none e.s.gpu.confidence ≡ false
      → e.c.contention.external_vram_critical_mib ≤ e.s.gpu.external_vram_mib
      → Heads IsCritical (critical_rules P e ++ rest)
  unfolding critical_rules
  critical_rules-IsCritical e rest u h = ground arith

  pause_rules-off : (e : Eval P) → is_pause e.mode ≡ false → pause_rules P e ≡ []
  unfolding pause_rules
  pause_rules-off e h = ground arith

  decide_critical :
      (e : Eval P) (ms : List Match)
      → e.running ≡ true
      → Heads IsCritical ms
      → let d = decide P e (winner P e ms) ms in
        (d.action ≡ preempt) × (d.competing ≡ true) × (d.counts_as_preemption ≡ true)
  unfolding decide winner
  decide_critical e [] r h = absurd h
  decide_critical e (m ∷ ms) r h = ground arith

  -- When other processes hold the critical amount of memory, in every mode but a pause and unless a
  -- hard limit of the first tier is crossed, a running runtime is stopped at once, and that counts
  -- as a preemption by a competing workload.
  evaluate_critical :
      (s : Snapshot P) (c : Config P)
      → let e = new_eval P s c in
        runtime_running s.runtime.state ≡ true
        → safety_rules P e ≡ []
        → is_pause e.mode ≡ false
        → is_none s.gpu.confidence ≡ false
        → c.contention.external_vram_critical_mib ≤ s.gpu.external_vram_mib
        → let d = evaluate P s c in
          (d.action ≡ preempt) × (d.competing ≡ true) × (d.counts_as_preemption ≡ true)
  unfolding evaluate new_eval yield_rules
  evaluate_critical s c r safe unpaused measured over =
      let e = new_eval P s c in
      decide_critical e (yield_rules P e) r
        (rw (safe, pause_rules-off e unpaused) (critical_rules-IsCritical e _ measured over))
