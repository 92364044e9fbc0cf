-- ===== src/State/Samples.antt =====
-- Runs of the transition table.
use benchwarmer.Prelude.{◌≡◌, refl, true, false, [], ◌∷◌}
use benchwarmer.State.{
  stopped, loading, ready, draining, preempting, cooldown, can_transition, valid, unset,
}
use benchwarmer.State.Paths.{
  Run, start, move, enters_after, drain_admits_after_reload, can_transition-valid,
}

stopped_loads : can_transition stopped loading ≡ true
unfolding can_transition
stopped_loads = refl

cooldown_does_not_load : can_transition cooldown loading ≡ false
unfolding can_transition
cooldown_does_not_load = refl

unset_is_not_valid : valid unset ≡ false
unfolding valid
unset_is_not_valid = refl

reloads : Run draining (ready ∷ loading ∷ stopped ∷ preempting ∷ []) ready
unfolding can_transition
reloads = move ready (move loading (move stopped (move preempting start refl) refl) refl) refl

drain_admits_after_reload_example :
    enters_after loading stopped (ready ∷ loading ∷ stopped ∷ preempting ∷ []) ≡ true
drain_admits_after_reload_example = drain_admits_after_reload reloads refl

can_transition-valid_example : (valid stopped ≡ true) × (valid loading ≡ true)
can_transition-valid_example = can_transition-valid stopped loading stopped_loads
