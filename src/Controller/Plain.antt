-- ===== src/Controller/Plain.antt =====
-- Controllers for tests: idle, serving one request, draining it, and with a runtime that is not
-- verified to be gone.
use benchwarmer.Prelude.{
  pos, ◌+◌, ◌-◌, ◌/◌, str_eq, if◌then◌else◌, ◌*◌, true, false, [], ◌∷◌, none, some,
}
use benchwarmer.Platform.Plain.{plain}
use benchwarmer.Config.{second, minute_ns}
use benchwarmer.Config.Plain.{plain_config}
use benchwarmer.State.{State, Condition}
use benchwarmer.Policy.Types.{Mode}
use benchwarmer.Policy.Plain.{quiet}
use benchwarmer.Proxy.Gate.{Gate}
use benchwarmer.Controller.Types.{Instance, Manual, Controller, zero_decision}
use benchwarmer.Controller.Observe.{Inputs}
use benchwarmer.Controller.Backend.{Calendar}

abbrev pub server : Instance
server = record { handle = 1; pid = 4242; base_url = "http://127.0.0.1:8080" }

abbrev pub shut_gate : Gate
shut_gate = record {
  is_open = false;
  upstream = none;
  closed = record { condition = Condition.unavailable; retry_after = 0 };
  active = [];
  seq = 0;
  notified = false;
  rejected = 0;
  cancelled = [];
}

-- One request, which came in 10 s ago.
abbrev pub open_one : Gate
open_one = record shut_gate {
  is_open = true;
  upstream = some "http://127.0.0.1:8080";
  active =
      record {
        id = record { millis = 0; seq = 1 };
        started = 990 * second;
        upstream = some "http://127.0.0.1:8080";
      }
      ∷ [];
  seq = 1;
}

abbrev pub idle_controller : Controller plain
idle_controller = record {
  deps = record { has_adapter = true; load_blocked = "" };
  cfg = plain_config;
  st = State.stopped;
  cond = Condition.unavailable;
  inst = none;
  load_start = 0;
  loaded_at = 0;
  footprint = 0;
  crash_count = 0;
  baseline = 0;
  drain_start = 0;
  drain_deadline = 0;
  yield = zero_decision;
  yield_manual = Manual.nothing;
  vram = record { active = false; since = 0; used_before = 0; footprint = 0 };
  timers = quiet.timers;
  mode = quiet.mode;
  until_reboot = false;
  power = quiet.power;
  gpu = quiet.gpu;
  apps = quiet.apps;
  session = quiet.session;
  decision = zero_decision;
  last_evaluated = 999 * second;
  setup_problem = "";
  last_setup_check = 999 * second;
  setup_pending = false;
  telemetry_lost = false;
  telemetry_losses = 0;
  gpu_resets = 0;
  last_gpu_check = 999 * second;
  last_gpu_reset = 0;
  manual_pending = Manual.nothing;
  zombie = none;
  zombie_stopping = false;
  zombie_retry_at = 0;
  zombie_attempts = 0;
  gate = shut_gate;
  jobs = [];
}

-- Serving a request, when a pause is asked for.
abbrev pub serving_controller : Controller plain
serving_controller = record idle_controller {
  st = State.busy;
  cond = Condition.available;
  inst = some server;
  loaded_at = 900 * second;
  gate = open_one;
  mode = record { mode = Mode.pause; until = none };
}

-- Draining for 20 s, with 40 s left.
abbrev pub draining_controller : Controller plain
draining_controller = record serving_controller {
  st = State.draining;
  cond = Condition.yielding;
  gate = record open_one { is_open = false };
  drain_start = 980 * second;
  drain_deadline = 1040 * second;
}

abbrev pub zombie_controller : Controller plain
zombie_controller = record idle_controller { zombie = some server }

-- An observation that finds nothing new, at 1000 s.
abbrev pub nothing_new : Inputs plain
nothing_new = record {
  now = 1000 * second;
  collect = true;
  load_result = none;
  stop_results = [];
  exited = false;
  resets = some [];
  facts = none;
  setup_answer = none;
  start_result = some server;
}

-- Hours alone are parsed, and every day begins at a multiple of 24 hours.
abbrev pub clock : Calendar
clock = record {
  Zone = Unit;
  parse_duration = λ s.
      if str_eq s "1h"
      then some (pos (60 * minute_ns))
      else if str_eq s "0s"
      then some (pos 0)
      else none;
  load_location = λ name. none;
  local = tt;
  day_in = λ zone now. record { year = 1; month = 1; day = now / (24 * 60 * minute_ns) + 1 };
  date = λ zone year month day hour. (day - 1) * (24 * 60 * minute_ns) + hour * (60 * minute_ns);
}
