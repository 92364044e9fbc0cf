-- ===== src/State/Paths.antt =====
-- internal/state/state.go: what any sequence of legal transitions can and cannot do.
use benchwarmer.Prelude.{
  ◌≡◌, ◌≢◌, refl, ◌⊎◌, inl, inr, Bool, true, false, ◌&&◌, ◌||◌, List, [], ◌∷◌, any, arith,
}
use benchwarmer.State.{
  State, stopped, loading, draining, preempting, error, runtime_running, admitting, valid,
  can_transition, eqb, idle,
}

-- A run of legal transitions from `s`; the list holds the states it enters, the last one first.
pub data Run (s : State) : List State → State → Type 0 where
  start : Run s [] s
  move :
      {visited : List State} {t : State} (u : State)
      → Run s visited t
      → can_transition t u ≡ true
      → Run s (u ∷ visited) u

abbrev pub enters : State → List State → Bool
enters s visited = any (λ t. eqb t s) visited

-- The run enters `late` at some time after it entered `early`.
abbrev pub enters_after : State → State → List State → Bool
enters_after late early [] = false
enters_after late early (s ∷ before) =
    (eqb s late && enters early before) || enters_after late early before

-- No load since the drain: not loading, not admitting, and `stopped` only if it was entered.
abbrev Unloaded : State → List State → Type 0
Unloaded u visited =
    (eqb u loading ≡ false)
    × (admitting u ≡ false)
    × ((eqb u stopped ≡ false) ⊎ (enters stopped visited ≡ true))

move-Unloaded :
    (t u : State) (visited : List State)
    → can_transition t u ≡ true
    → Unloaded t visited
    → (enters_after loading stopped (u ∷ visited) ≡ true) ⊎ Unloaded u (u ∷ visited)
unfolding can_transition
move-Unloaded t u visited ok h = ground arith

Run-Unloaded :
    {visited : List State} {u : State}
    → Run draining visited u
    → (enters_after loading stopped visited ≡ true) ⊎ Unloaded u visited
Run-Unloaded start = inr (refl, refl, inl refl)
Run-Unloaded (move {visited} {t} u run ok) = elim (Run-Unloaded run) [
  | inl reloaded ↦ inl (ground arith)
  | inr h ↦ move-Unloaded t u visited ok h
]

-- A worker that began to drain admits requests again only after it was stopped and, later, loading.
pub drain_admits_after_reload :
    {visited : List State} {u : State}
    → Run draining visited u
    → admitting u ≡ true
    → enters_after loading stopped visited ≡ true
drain_admits_after_reload run h = ground (arith, Run-Unloaded run)

-- The legal transitions lead from a valid state to a valid other state or, between states in which
-- the runtime does not run, to any of these.
pub can_transition-valid :
    (s t : State) → can_transition s t ≡ true → (valid s ≡ true) × (valid t ≡ true)
unfolding can_transition valid
can_transition-valid s t h = ground arith

-- The runtime starts in one way, from `stopped` to `loading`; it stops in two, from `preempting`
-- to a state in which it does not run or, from any other running state, to `error`.
runtime_starts_and_stops :
    (s t : State)
    → can_transition s t ≡ true
    → runtime_running s ≢ runtime_running t
    → ((s ≡ stopped) × (t ≡ loading))
      ⊎ ((s ≡ preempting) × (any (eqb t) idle ≡ true))
      ⊎ (runtime_running s ≡ true) × (t ≡ error)
unfolding can_transition
runtime_starts_and_stops s t h changes = ground arith
