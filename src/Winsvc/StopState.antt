-- ===== src/Winsvc/StopState.antt =====
-- internal/winsvc/supervisor.go: what stopping sets, and the requests that ask for it.
use benchwarmer.Prelude.{
  ℕ, ◌+◌, ltb, ◌==◌, Bool, true, false, List, [], ◌∷◌, Option, none, some, if◌then◌else◌,
}
use benchwarmer.Winsvc.{Options, with_defaults}
use benchwarmer.Winsvc.Supervisor.{Plane, Input, finished, tick, asked, taken}

-- What stopping sets
pub record Stop : Type 0 where
  pub stopping : Bool
  pub deadline : ℕ
  pub cancelled : Bool
  pub ticking : Bool
  pub result : Option Bool

abbrev pub stop_of : Plane → Stop
stop_of p = record {
  stopping = p.stopping;
  deadline = p.deadline;
  cancelled = p.cancelled;
  ticking = p.ticking;
  result = p.result;
}

-- Nothing is set, or all of it.
abbrev pub stop_at : Option ℕ → Option Bool → Stop
stop_at none r = record {
  stopping = false;
  deadline = 0;
  cancelled = false;
  ticking = false;
  result = r;
}
stop_at (some d) r = record {
  stopping = true;
  deadline = d;
  cancelled = true;
  ticking = true;
  result = r;
}

abbrev pub earliest : Option ℕ → Option ℕ → Option ℕ
earliest none b = b
earliest (some d) none = some d
earliest (some d) (some e) = some (if ltb e d then e else d)

-- The deadline of a request to stop
abbrev pub asks_stop : Options → Input → Option ℕ
asks_stop o (asked now r) =
    let d = with_defaults o in
    if r.cmd == 1
    then some (r.at + d.stop_timeout)
    else if r.cmd == 15
    then some (r.at + d.preshutdown_timeout)
    else if r.cmd == 5
    then some (r.at + d.shutdown_timeout)
    else none
asks_stop o x = none

-- The earliest deadline of all requests to stop that came before the handler's end
unfoldable pub stop_by : Options → List Input → Option ℕ
stop_by o [] = none
stop_by o (finished err ∷ xs) = none
stop_by o (tick now ∷ xs) = stop_by o xs
stop_by o (asked now r ∷ xs) = earliest (asks_stop o (asked now r)) (stop_by o xs)
stop_by o (taken ∷ xs) = stop_by o xs
