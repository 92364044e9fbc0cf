-- ===== src/Controller/Samples.antt =====
-- Steps of the controllers of `Controller.Plain`.
use benchwarmer.Prelude.{◌*◌, ◌≡◌, ◌≢◌, ◌⊎◌, inl, refl, false, [], none, some}
use benchwarmer.Platform.Plain.{plain}
use benchwarmer.Config.{second}
use benchwarmer.State.{admitting, stopped, preempting, error}
use benchwarmer.Policy.Types.{Decision, drain}
use benchwarmer.Controller.Types.{Manual, Controller, zero_decision}
use benchwarmer.Controller.Act.{act, active_count}
use benchwarmer.Controller.Step.{decide_step}
use benchwarmer.Controller.Gate.{IsSafe}
use benchwarmer.Controller.Drain.{act_drains, Continues}
use benchwarmer.Controller.Zombie.{blocked_loads_nothing}
use benchwarmer.Controller.Yield.{act_yield_shuts}
use benchwarmer.Controller.Plain.{
  server, serving_controller, draining_controller, zombie_controller,
}

abbrev pause_decision : Decision
pause_decision = record zero_decision { action = drain; idle_state = stopped; grace = 60 * second }

serving-IsSafe : IsSafe plain serving_controller
serving-IsSafe = record { open_admits = λ e. refl; live = refl }

act_yield_shuts_example :
    let c' = act plain (1000 * second) none pause_decision serving_controller in
    (c'.gate.is_open ≡ false) × (admitting c'.st ≡ false)
act_yield_shuts_example =
    act_yield_shuts plain (1000 * second) none pause_decision serving_controller refl serving-IsSafe
      refl

act_drains_example :
    let c' = act plain (1000 * second) none serving_controller.decision draining_controller in
    (c'.st ≡ preempting)
    ⊎ ((active_count plain draining_controller ≢ 0)
        × Continues plain (1000 * second) draining_controller c')
act_drains_example =
    act_drains plain (1000 * second) none serving_controller.decision draining_controller refl

abbrev reload_asked : Controller plain
reload_asked = record serving_controller { manual_pending = Manual.reload }

blocked_loads_nothing_example :
    let (d, c1) = decide_step plain (1000 * second) zombie_controller in
    let c' = act plain (1000 * second) (some server) d c1 in
    (c'.st ≡ error) × (c'.inst ≡ none) × (c'.jobs ≡ [])
blocked_loads_nothing_example =
    blocked_loads_nothing plain (1000 * second) (some server) zombie_controller refl (inl refl)
