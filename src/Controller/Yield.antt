-- ===== src/Controller/Yield.antt =====
-- internal/controller/step.go: a decision to yield shuts the gate in the same step.
use benchwarmer.Prelude.{
  ℕ, ◌≡◌, refl, ap, ◌∙◌, true, false, inl, inr, Option, arith, any, Bool-cases, subst, ltb, ◌==◌,
}
use benchwarmer.Platform.{Platform}
use benchwarmer.State.{
  State, stopped, cooldown, loading, ready, busy, draining, preempting, suppressed, disabled, error,
  unset, admitting, runtime_running, can_transition, eqb, idle,
}
use benchwarmer.Policy.Types.{Action, drain, preempt, yields, Decision}
use benchwarmer.Controller.Types.{Instance, Controller, transition}
use benchwarmer.Controller.Stop.{close_gate}
use benchwarmer.Controller.Act.{
  act, act_in, act_idle, act_loading, act_loaded, start_drain, begin_drain,
}
use benchwarmer.Controller.Gate.{IsSafe, close_gate-shut}
use benchwarmer.Controller.Running.{act-IsSafe}
use benchwarmer.Controller.Drain.{begin_stop_preempts, force_stop_preempts, act_drains}

module _ (P : Platform) where
  idle_Shuts :
      (now : ℕ) (result : Option Instance) (d : Decision) (c : Controller P)
      → any (eqb c.st) idle ≡ true
      → any (eqb d.idle_state) idle ≡ true
      → yields d.action ≡ true
      → admitting (act_idle P now result d c).st ≡ false
  unfolding act_idle transition can_transition
  idle_Shuts now result d c s i y = ground arith

  loading_Shuts :
      (d : Decision) (c : Controller P)
      → c.st ≡ loading
      → yields d.action ≡ true
      → admitting (act_loading P d c).st ≡ false
  unfolding act_loading
  loading_Shuts d c s y =
      let (shut, st, inst) = close_gate-shut P d c in
      let stops = begin_stop_preempts P d (close_gate P d c).0 (ap runtime_running (st ∙ s)) in
      rw y (ap admitting stops)

  begin_drain_lem :
      (now : ℕ) (d : Decision) (c : Controller P)
      → admitting c.st ≡ true
      → (begin_drain P now d c).st ≡ draining
  unfolding begin_drain transition can_transition
  begin_drain_lem now d c a = ground arith

  admitting_runs : (s : State) → admitting s ≡ true → runtime_running s ≡ true
  admitting_runs s a = ground arith

  loaded_Shuts :
      (now : ℕ) (d : Decision) (a : Action) (c : Controller P)
      → admitting c.st ≡ true
      → yields a ≡ true
      → admitting (act_loaded P now d a c).st ≡ false
  unfolding act_loaded start_drain
  loaded_Shuts now d preempt c a y =
      let c' = (close_gate P d c).0 in
      let r : runtime_running c'.st ≡ true =
        ap runtime_running (close_gate-shut P d c).1 ∙ admitting_runs c.st a in
      elim (Bool-cases (ltb 0 (close_gate P d c).1)) [
        | inl cut ↦ rw cut (ap admitting (force_stop_preempts P d c' r))
        | inr whole ↦ rw whole (ap admitting (begin_stop_preempts P d c' r))
      ]
  loaded_Shuts now d drain c a y =
      let c' = (close_gate P d c).0 in
      let still : admitting c'.st ≡ true = ap admitting (close_gate-shut P d c).1 ∙ a in
      elim (Bool-cases ((close_gate P d c).1 == 0)) [
        | inl none_left ↦
            rw none_left (ap admitting (begin_stop_preempts P d c' (admitting_runs c'.st still)))
        | inr some_left ↦ rw some_left (ap admitting (begin_drain_lem now d c' still))
      ]
  loaded_Shuts now d _ c a y = ground arith

  draining_Shuts :
      (now : ℕ) (result : Option Instance) (d : Decision) (c : Controller P)
      → c.st ≡ draining
      → admitting (act P now result d c).st ≡ false
  draining_Shuts now result d c s = elim (act_drains P now result d c s) [
    | inl p ↦ ap admitting p
    | inr (n, (st, before, less, same)) ↦ ap admitting st
  ]

  act_Shuts :
      (s : State) (now : ℕ) (result : Option Instance) (d : Decision) (c : Controller P)
      → c.st ≡ s
      → any (eqb d.idle_state) idle ≡ true
      → yields d.action ≡ true
      → admitting (act_in P s now result d c).st ≡ false
  unfolding act act_in
  act_Shuts stopped now result d c e i y =
      idle_Shuts now result d c (ap (λ t. any (eqb t) idle) e) i y
  act_Shuts cooldown now result d c e i y =
      idle_Shuts now result d c (ap (λ t. any (eqb t) idle) e) i y
  act_Shuts suppressed now result d c e i y =
      idle_Shuts now result d c (ap (λ t. any (eqb t) idle) e) i y
  act_Shuts disabled now result d c e i y =
      idle_Shuts now result d c (ap (λ t. any (eqb t) idle) e) i y
  act_Shuts error now result d c e i y =
      idle_Shuts now result d c (ap (λ t. any (eqb t) idle) e) i y
  act_Shuts loading now result d c e i y = loading_Shuts d c e y
  act_Shuts ready now result d c e i y = loaded_Shuts now d d.action c (ap admitting e) y
  act_Shuts busy now result d c e i y = loaded_Shuts now d d.action c (ap admitting e) y
  act_Shuts draining now result d c e i y =
      subst (λ s. admitting (act_in P s now result d c).st ≡ false) e
        (draining_Shuts now result d c e)
  act_Shuts preempting now result d c e i y = ap admitting e
  act_Shuts unset now result d c e i y = ap admitting e

  -- A decision to drain or to preempt, whose idle state is one, shuts the gate in the step that acts
  -- on it and leads to a state that does not admit, from every state of a controller whose gate is
  -- open only while it admits, and whatever the adapter answers.
  pub act_yield_shuts :
      (now : ℕ) (result : Option Instance) (d : Decision) (c : Controller P)
      → any (eqb d.idle_state) idle ≡ true
      → IsSafe P c
      → yields d.action ≡ true
      → let c' = act P now result d c in (c'.gate.is_open ≡ false) × (admitting c'.st ≡ false)
  unfolding act
  act_yield_shuts now result d c i h y =
      let st = act_Shuts c.st now result d c refl i y in
      let safe = act-IsSafe P now result d c i h in (ground (arith, safe.open_admits), st)
