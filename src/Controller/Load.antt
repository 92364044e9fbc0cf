-- ===== src/Controller/Load.antt =====
-- internal/controller/step.go: starting the runtime and the result of a load.
use benchwarmer.Prelude.{
  ℕ, ◌==◌, Bool, true, false, not, ◌||◌, ◌∷◌, Option, none, some, if◌then◌else◌,
}
use benchwarmer.Platform.{Platform}
use benchwarmer.State.{stopped, loading, ready, error, eqb}
use benchwarmer.Controller.Types.{Instance, wait_ready, Controller, transition}
use benchwarmer.Controller.Timing.{backoff}
use benchwarmer.Controller.Stop.{close_gate, retry_zombie}

module _ (P : Platform) where
  abbrev Ctl : Type 0
  Ctl = Controller P

  unfoldable pub load_failed : ℕ → Ctl → Ctl
  load_failed now c = (transition P error (backoff P now c)).0

  -- What `Adapter.Start` gives: an instance, or an error.
  unfoldable pub started : ℕ → Option Instance → Ctl → Ctl
  started now none c = load_failed now c
  started now (some i) c =
      let (c', _) = transition P loading (record c { inst = some i; load_start = now }) in
      record c' { jobs = wait_ready i ∷ c'.jobs }

  -- Only `stopped` starts a load, so another idle state goes there first.
  unfoldable pub to_stopped : Ctl → Ctl × Bool
  to_stopped c = if eqb c.st stopped then (c, true) else transition P stopped c

  -- Orphans of earlier runs are cleared by the adapter before the start, outside this state.
  unfoldable pub start_load : ℕ → Option Instance → Ctl → Ctl
  start_load now result c =
      let (c', ok) = to_stopped c in
      if not ok || not c'.deps.has_adapter
      then c'
      else started now result (record c' { baseline = c'.gpu.vram_used_mib })

  abbrev is_current : Option Instance → ℕ → Bool
  is_current none handle = false
  is_current (some i) handle = i.handle == handle

  -- The load failed: the process becomes a runtime that is not verified to be gone.
  unfoldable pub load_broken : ℕ → Instance → Ctl → Ctl
  load_broken now i c =
      let c' =
        retry_zombie P now
          (record c { inst = none; zombie = some i; zombie_attempts = 0; zombie_retry_at = now }) in
      load_failed now (close_gate P c.decision c').0

  -- A result of a load that was cancelled is ignored.
  unfoldable pub on_load_result : ℕ → Instance → Bool → Ctl → Ctl
  on_load_result now i failed c =
      if not (is_current c.inst i.handle) || not (eqb c.st loading)
      then c
      else if failed
      then load_broken now i c
      else (transition P ready (record c { loaded_at = now })).0
