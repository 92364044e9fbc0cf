-- ===== src/Controller/Act.antt =====
-- internal/controller/step.go: what the controller adds to a decision, and how it acts on it.
use benchwarmer.Prelude.{
  ℕ, ◌+◌, ltb, ◌==◌, Bool, true, false, not, ◌&&◌, ◌||◌, Option, none, some, str_eq, if◌then◌else◌,
  length, is_some,
}
use benchwarmer.Platform.{Platform}
use benchwarmer.State.{
  State, stopped, cooldown, loading, ready, busy, draining, preempting, suppressed, disabled, error,
  unset, runtime_running,
}
use benchwarmer.Policy.Types.{
  Action, run, hold, drain, preempt, yields, notice, warning, critical, tier_pause, tier_safety,
  manual_drain, manual_reload, runtime_unverified, secrets_unprotected, Decision,
}
use benchwarmer.Proxy.Gate.{open_gate, signal}
use benchwarmer.Controller.Types.{
  Instance, Manual, nothing, reload, zero_decision, Controller, transition,
}
use benchwarmer.Controller.Stop.{manual_kind, profile_of, close_gate, force_close, begin_stop}
use benchwarmer.Controller.Load.{start_load}

module _ (P : Platform) where
  abbrev Ctl : Type 0
  Ctl = Controller P

  abbrev is_run : Action → Bool
  is_run run = true
  is_run _ = false

  abbrev is_hold : Action → Bool
  is_hold hold = true
  is_hold _ = false

  -- The decision of a requested drain or reload, over that of the policy.
  abbrev manual_decision : Manual → Ctl → Decision → Decision
  manual_decision m c d = record d {
    action = drain;
    competing = false;
    counts_as_preemption = false;
    suppress = false;
    severity = notice;
    tier = tier_pause;
    rule = elim m [ reload ↦ manual_reload | _ ↦ manual_drain ];
    idle_state = elim m [ reload ↦ stopped | _ ↦ cooldown ];
    grace = (profile_of P c d.profile).grace;
  }

  abbrev manual_request : Manual → Ctl → Decision → Decision × Ctl
  manual_request nothing c d = (d, c)
  manual_request m c d =
      if yields d.action || (is_hold d.action && not (runtime_running c.st))
      then (d, c)
      else if not (runtime_running c.st)
      then (d, record c { manual_pending = nothing })
      else (manual_decision m c d, c)

  -- A requested drain or reload never overrides a yield of the policy.
  unfoldable pub apply_manual : Decision → Ctl → Decision × Ctl
  apply_manual d c = manual_request c.manual_pending c d

  -- No load while a runtime is not verified to be gone.
  unfoldable pub apply_zombie : Decision → Ctl → Decision
  apply_zombie d c =
      if not (is_some c.zombie) || runtime_running c.st
      then d
      else if not (is_run d.action)
      then record d { idle_state = error }
      else record d {
        action = hold;
        rule = runtime_unverified;
        tier = tier_safety;
        severity = warning;
        idle_state = error;
      }

  unfoldable pub apply_load_blocked : Decision → Ctl → Decision
  apply_load_blocked d c =
      if str_eq c.deps.load_blocked "" || runtime_running c.st then d else record zero_decision {
        action = hold;
        rule = secrets_unprotected;
        tier = tier_safety;
        severity = critical;
        profile = d.profile;
        profile_source = d.profile_source;
        mode = d.mode;
        idle_state = error;
      }

  abbrev pub active_count : Ctl → ℕ
  active_count c = length c.gate.active

  -- Loaded, and allowed to run: admit.
  abbrev open_for : Option Instance → Ctl → Ctl
  open_for none c = c
  open_for (some i) c =
      if not c.gate.is_open
      then record c { gate = signal (open_gate (some i.base_url) c.gate) }
      else c

  -- The drain begins: the deadline is the grace of the decision from now.
  unfoldable pub begin_drain : ℕ → Decision → Ctl → Ctl
  begin_drain now d c =
      (transition P draining (record c {
        yield = d;
        yield_manual = manual_kind d.rule;
        drain_start = now;
        drain_deadline = now + d.grace;
      })).0

  unfoldable pub act_idle : ℕ → Option Instance → Decision → Ctl → Ctl
  act_idle now result d c =
      if is_run d.action then start_load P now result c else (transition P d.idle_state c).0

  unfoldable pub act_loading : Decision → Ctl → Ctl
  act_loading d c = if yields d.action then begin_stop P d (close_gate P d c).0 else c

  -- A drain with no request to wait for stops the runtime at once.
  unfoldable pub start_drain : ℕ → Decision → Ctl → Ctl
  start_drain now d c =
      let (c', n) = close_gate P d c in if n == 0 then begin_stop P d c' else begin_drain now d c'

  unfoldable pub serve : Ctl → Ctl
  serve c =
      let c' = open_for c.inst c in
      (transition P (if ltb 0 (active_count c') then busy else ready) c').0

  -- Ready or busy. The gate closes before the requests are counted.
  unfoldable pub act_loaded : ℕ → Decision → Action → Ctl → Ctl
  act_loaded now d preempt c =
      let (c', n) = close_gate P d c in begin_stop P d (if ltb 0 n then force_close P c' else c')
  act_loaded now d drain c = start_drain now d c
  act_loaded now d _ c = serve c

  unfoldable pub maybe_grace_expired : ℕ → Ctl → Ctl
  maybe_grace_expired now c =
      if ltb now c.drain_deadline then c else begin_stop P c.yield (force_close P c)

  -- A new decision to drain can only bring the deadline forward.
  unfoldable pub shorten : Decision → Ctl → Ctl
  shorten d c =
      let deadline = c.drain_start + d.grace in
      if ltb deadline c.drain_deadline then record c { drain_deadline = deadline } else c

  -- Requests are still active.
  unfoldable pub keep_draining : ℕ → Decision → Action → Ctl → Ctl
  keep_draining now d preempt c = begin_stop P d (force_close P c)
  keep_draining now d drain c = maybe_grace_expired now (shorten d c)
  keep_draining now d _ c = maybe_grace_expired now c

  unfoldable pub act_draining : ℕ → Decision → Ctl → Ctl
  act_draining now d c =
      if active_count c == 0 then begin_stop P c.yield c else keep_draining now d d.action c

  unfoldable pub act_in : State → ℕ → Option Instance → Decision → Ctl → Ctl
  act_in stopped now result d c = act_idle now result d c
  act_in cooldown now result d c = act_idle now result d c
  act_in suppressed now result d c = act_idle now result d c
  act_in disabled now result d c = act_idle now result d c
  act_in error now result d c = act_idle now result d c
  act_in loading now result d c = act_loading d c
  act_in ready now result d c = act_loaded now d d.action c
  act_in busy now result d c = act_loaded now d d.action c
  act_in draining now result d c = act_draining now d c
  act_in preempting now result d c = c
  act_in unset now result d c = c

  -- `result` is what the adapter's `Start` gives, should the step start the runtime.
  unfoldable pub act : ℕ → Option Instance → Decision → Ctl → Ctl
  act now result d c = act_in c.st now result d c
