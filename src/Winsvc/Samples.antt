-- ===== src/Winsvc/Samples.antt =====
-- A suspend notification, a stop, another suspend, and a shutdown.
use benchwarmer.Prelude.{◌+◌, ◌*◌, ◌≡◌, refl, true, List, [], ◌∷◌, map}
use benchwarmer.Config.{second}
use benchwarmer.Winsvc.{
  Options, new_request, translate, with_defaults, power_event, session_event, wait_hint,
}
use benchwarmer.Winsvc.Supervisor.{
  Input, finished, tick, asked, taken, supervise, loop, step, on_request, on_translated, on_event,
  report_pending, finish,
}
use benchwarmer.Winsvc.Answers.{acked, handed, received}
use benchwarmer.Winsvc.Acks.{supervise-answered}
use benchwarmer.Winsvc.StopState.{stop_of, stop_at, stop_by}
use benchwarmer.Winsvc.StopStep.{end_of, failed_by}
use benchwarmer.Winsvc.Stopping.{supervise-stop_at}
use benchwarmer.Winsvc.Reports.{outcome, supervise-EndsInOrder}
use benchwarmer.Winsvc.Heard.{heard, first_heard, EndsInOrder}

abbrev options : Options
options = record { stop_timeout = 0; shutdown_timeout = 0; preshutdown_timeout = 0 }

abbrev inputs : List Input
inputs =
    asked 100 (new_request 13 4 0 100 7)
    ∷ taken
    ∷ asked 200 (new_request 1 0 0 200 8)
    ∷ asked 300 (new_request 13 4 0 300 9)
    ∷ tick (3 * second)
    ∷ asked (4 * second) (new_request 5 0 0 (4 * second) 10)
    ∷ finished true
    ∷ []

inputs_acks : (supervise options 1_500_000_000 inputs).acks ≡ 9 ∷ []
unfolding supervise loop step on_request on_translated on_event report_pending finish translate
    new_request with_defaults power_event session_event wait_hint
inputs_acks = refl

inputs_hints :
    map (λ s. s.wait_hint) (supervise options 1_500_000_000 inputs).reports
    ≡ 0 ∷ 17_000 ∷ 20_000 ∷ 0 ∷ 10_000 ∷ []
unfolding supervise loop step on_request on_translated on_event report_pending finish translate
    new_request with_defaults power_event session_event wait_hint
inputs_hints = refl

supervise-answered_example :
    acked 9 (supervise options 1_500_000_000 inputs).acks
      + handed 9 (supervise options 1_500_000_000 inputs).delivered
    ≡ received 9 inputs
supervise-answered_example = supervise-answered options 1_500_000_000 inputs 9 (
  (13, 4, 0, 100, 7, refl),
  (
    tt,
    (
      (1, 0, 0, 200, 8, refl),
      ((13, 4, 0, 300, 9, refl), (tt, ((5, 0, 0, 4 * second, 10, refl), (tt, tt)))),
    ),
  ),
)

supervise-stop_at_example :
    stop_of (supervise options 1_500_000_000 inputs)
    ≡ stop_at (stop_by options inputs) (failed_by (end_of inputs) (stop_by options inputs))
supervise-stop_at_example = supervise-stop_at options 1_500_000_000 inputs

supervise-EndsInOrder_example :
    let p = supervise options 1_500_000_000 inputs in
    (outcome p ≡ heard options first_heard inputs) × EndsInOrder p.result p.reports
supervise-EndsInOrder_example = supervise-EndsInOrder options 1_500_000_000 inputs
