-- ===== src/Controller/Same.antt =====
-- internal/controller/step.go: the parts of a step that leave the state, the runtime and the
-- openness of the gate as they are.
use benchwarmer.Prelude.{
  ℕ, ◌+◌, refl, inl, inr, Option, none, some, arith, not, ◌&&◌, is_some, Bool-cases, ltb, ◌==◌, ◌*◌,
  List, [], ◌∷◌,
}
use benchwarmer.Platform.{Platform}
use benchwarmer.Config.{minute_ns}
use benchwarmer.State.{runtime_running}
use benchwarmer.Policy.Types.{Decision}
use benchwarmer.Controller.Types.{Controller}
use benchwarmer.Controller.Observe.{
  Inputs, new_incident, incident, watch_resets, check_gpu_resets, expire_mode, observe,
  track_telemetry_health, check_setup,
}
use benchwarmer.Controller.Step.{check_vram_release, check_crash_reset, publish, note_competing}
use benchwarmer.Controller.Gate.{Same}

module _ (P : Platform) where
  pub new_incident-Same : (now : ℕ) (c : Controller P) → Same P c (new_incident P now c)
  unfolding new_incident
  new_incident-Same now c = ground arith

  pub watch_resets-Same :
      (now : ℕ) (r : Option (List ℕ)) (c : Controller P) → Same P c (watch_resets P now r c)
  unfolding watch_resets incident
  watch_resets-Same now none c = (refl, refl, refl, refl)
  watch_resets-Same now (some []) c = ground arith
  watch_resets-Same now (some (r ∷ rest)) c =
      elim (Bool-cases
        (not (c.last_gpu_reset == 0) && ltb now (c.last_gpu_reset + 2 * minute_ns))) [
          | inl same ↦ rw same (refl, refl, refl, refl)
          | inr new ↦ rw new (new_incident-Same now _)
        ]

  pub check_gpu_resets-Same : (x : Inputs P) (c : Controller P) → Same P c (check_gpu_resets P x c)
  unfolding check_gpu_resets
  check_gpu_resets-Same x c =
      let c' = watch_resets P x.now x.resets c in
      let same = watch_resets-Same x.now x.resets c in
      elim (Bool-cases (
        c'.power.device_lost
        && not (runtime_running c'.st)
        && not (is_some c'.inst)
        && not (is_some c'.zombie))) [ inl cleared ↦ rw cleared same | inr kept ↦ rw kept same ]

  pub expire_mode-Same : (now : ℕ) (c : Controller P) → Same P c (expire_mode P now c)
  unfolding expire_mode
  expire_mode-Same now c = ground arith

  pub observe-Same : (x : Inputs P) (c : Controller P) → Same P c (observe P x c)
  unfolding observe
  observe-Same x c = ground arith

  pub track_telemetry_health-Same :
      (now : ℕ) (c : Controller P) → Same P c (track_telemetry_health P now c)
  unfolding track_telemetry_health
  track_telemetry_health-Same now c = ground arith

  pub check_setup-Same : (x : Inputs P) (c : Controller P) → Same P c (check_setup P x c)
  unfolding check_setup
  check_setup-Same x c = ground arith

  pub check_vram_release-Same : (now : ℕ) (c : Controller P) → Same P c (check_vram_release P now c)
  unfolding check_vram_release
  check_vram_release-Same now c = ground arith

  pub check_crash_reset-Same : (now : ℕ) (c : Controller P) → Same P c (check_crash_reset P now c)
  unfolding check_crash_reset
  check_crash_reset-Same now c = ground arith

  pub publish-Same : (c : Controller P) → Same P c (publish P c)
  unfolding publish
  publish-Same c = ground arith

  pub note_competing-Same :
      (now : ℕ) (d : Decision) (c : Controller P)
      → Same P c (record (note_competing P now d c) { decision = d; last_evaluated = now })
  unfolding note_competing
  note_competing-Same now d c = ground arith
