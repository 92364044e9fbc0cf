-- ===== src/State.antt =====
-- internal/state/state.go: the lifecycle states, their conditions and the legal transitions.
pub mod Paths
mod Samples
use benchwarmer.Prelude.{
  ℕ, ◌==◌, if◌then◌else◌, Bool, true, false, ◌&&◌, ◌||◌, List, [], ◌∷◌, ◌++◌, map, any,
}

-- `unset` is the empty string, the zero value of the Go type.
pub data State : Type 0 where
  stopped cooldown loading ready busy draining preempting suppressed disabled error unset : State

pub data Condition : Type 0 where
  available yielding unavailable : Condition

-- A number for each state, by which two states are compared.
abbrev tag : State → ℕ
tag stopped = 0
tag cooldown = 1
tag loading = 2
tag ready = 3
tag busy = 4
tag draining = 5
tag preempting = 6
tag suppressed = 7
tag disabled = 8
tag error = 9
tag unset = 10

abbrev pub eqb : State → State → Bool
eqb s t = tag s == tag t

-- `All`
abbrev pub all_states : List State
all_states =
    stopped ∷ cooldown ∷ loading ∷ ready ∷ busy ∷ draining ∷ preempting ∷ suppressed ∷ disabled
    ∷ error ∷ []

unfoldable pub condition : State → Condition
condition loading = available
condition ready = available
condition busy = available
condition draining = yielding
condition preempting = yielding
condition _ = unavailable

abbrev pub runtime_running : State → Bool
runtime_running loading = true
runtime_running ready = true
runtime_running busy = true
runtime_running draining = true
runtime_running preempting = true
runtime_running _ = false

abbrev pub admitting : State → Bool
admitting s = eqb s ready || eqb s busy

unfoldable pub valid : State → Bool
valid s = any (eqb s) all_states

-- The states in which the runtime is not running.
abbrev pub idle : List State
idle = stopped ∷ cooldown ∷ suppressed ∷ disabled ∷ error ∷ []

-- The map that `allow` fills, as the list of its calls.
abbrev allowed : List (State × List State)
allowed =
    map (λ s. (s, idle)) idle
    ++ ((stopped, loading ∷ [])
        ∷ (loading, ready ∷ preempting ∷ error ∷ [])
        ∷ (ready, busy ∷ draining ∷ preempting ∷ error ∷ [])
        ∷ (busy, ready ∷ draining ∷ preempting ∷ error ∷ [])
        ∷ (draining, preempting ∷ error ∷ [])
        ∷ (preempting, idle)
        ∷ [])

abbrev leads : State → State → List (State × List State) → Bool
leads from to [] = false
leads from to ((s, targets) ∷ rest) = (eqb s from && any (eqb to) targets) || leads from to rest

unfoldable pub can_transition : State → State → Bool
can_transition from to = leads from to allowed
