-- ===== src/Winsvc.antt =====
-- internal/winsvc/supervisor.go and winsvc.go: the service under the service control manager. The loop runs
-- on what its channels bring, in the order in which it takes them: the end of the handler, a tick of the
-- ticker, a control request, and what the handler takes from its channel of events. An instant stands with
-- each where the code reads the clock. A channel to acknowledge a suspend is a number.
pub mod Supervisor
pub mod Answers
pub mod Acks
pub mod StopState
pub mod StopStep
pub mod Stopping
pub mod Heard
pub mod ReportMoves
pub mod Reports
mod Samples
use benchwarmer.Prelude.{
  ℕ, ◌+◌, ◌-◌, ◌*◌, ◌/◌, ◌%◌, ◌^◌, ltb, ◌==◌, Bool, true, false, ◌&&◌, ◌||◌, [], ◌∷◌, ◌++◌, Option,
  none, some, if◌then◌else◌,
}
use benchwarmer.Config.{second}

pub data Kind : Type 0 where
  stop : Kind
  shutdown : Kind
  suspend : Kind
  resume : Kind
  session_change : Kind

pub data SessionKind : Type 0 where
  console_connect : SessionKind
  console_disconnect : SessionKind
  remote_connect : SessionKind
  remote_disconnect : SessionKind
  logon : SessionKind
  logoff : SessionKind
  lock : SessionKind
  unlock : SessionKind

pub record Event : Type 0 where
  pub kind : Kind
  pub deadline : ℕ
  pub done : Option ℕ
  pub session : Option SessionKind
  pub session_id : ℕ

pub record Options : Type 0 where
  pub stop_timeout : ℕ
  pub shutdown_timeout : ℕ
  pub preshutdown_timeout : ℕ

abbrev or_default : ℕ → ℕ → ℕ
or_default d v = if v == 0 then d else v

-- `withDefaults`, with no timeout below 0
unfoldable pub with_defaults : Options → Options
with_defaults o = record {
  stop_timeout = or_default (20 * second) o.stop_timeout;
  shutdown_timeout = or_default (5 * second) o.shutdown_timeout;
  preshutdown_timeout = or_default (30 * second) o.preshutdown_timeout;
}

abbrev pub event_buffer : ℕ
event_buffer = 64

unfoldable pub power_event : ℕ → Option Kind
power_event t = if t == 4 then some suspend else if t == 18 || t == 7 then some resume else none

unfoldable pub session_event : ℕ → Option SessionKind
session_event r =
    if r == 1
    then some console_connect
    else if r == 2
    then some console_disconnect
    else if r == 3
    then some remote_connect
    else if r == 4
    then some remote_disconnect
    else if r == 5
    then some logon
    else if r == 6
    then some logoff
    else if r == 7
    then some lock
    else if r == 8
    then some unlock
    else none

abbrev pub plain_event : Kind → ℕ → Event
plain_event k t = record { kind = k; deadline = t; done = none; session = none; session_id = 0 }

abbrev is_suspend : Kind → Bool
is_suspend suspend = true
is_suspend _ = false

abbrev pub of_power : ℕ → Option Kind → Option Event
of_power t none = none
of_power t (some k) = some (plain_event k (if is_suspend k then t else 0))

abbrev pub of_session : ℕ → Option SessionKind → Option Event
of_session id none = none
of_session id (some k) =
    some (record {
      kind = session_change;
      deadline = 0;
      done = none;
      session = some k;
      session_id = id;
    })

-- What the control handler saw
pub record Request : Type 0 where
  pub cmd : ℕ
  pub event_type : ℕ
  pub session_id : ℕ
  pub at : ℕ
  pub done : Option ℕ

-- The request that `control` queues, with the channel that it would wait on
unfoldable pub new_request : ℕ → ℕ → ℕ → ℕ → ℕ → Request
new_request cmd event_type session_id at channel = record {
  cmd = cmd;
  event_type = event_type;
  session_id = session_id;
  at = at;
  done = if cmd == 13 && event_type == 4 then some channel else none;
}

unfoldable pub translate : Options → ℕ → Request → Option Event
unfolding with_defaults power_event session_event
translate o budget r =
    let d = with_defaults o in
    if r.cmd == 1
    then some (plain_event stop (r.at + d.stop_timeout))
    else if r.cmd == 15
    then some (plain_event shutdown (r.at + d.preshutdown_timeout))
    else if r.cmd == 5
    then some (plain_event shutdown (r.at + d.shutdown_timeout))
    else if r.cmd == 13
    then of_power (r.at + budget) (power_event r.event_type)
    else if r.cmd == 14
    then of_session r.session_id (session_event r.event_type)
    else none

-- In milliseconds, as an unsigned word of 32 bits
unfoldable pub wait_hint : ℕ → ℕ → ℕ
wait_hint deadline now =
    let d = deadline - now in (if ltb d (2 * second) then 2 * second else d) / 1_000_000 % 2 ^ 32

pub data Phase : Type 0 where
  start_pending : Phase
  running : Phase
  stop_pending : Phase
  stopped : Phase

pub record Status : Type 0 where
  pub phase : Phase
  pub checkpoint : ℕ
  pub wait_hint : ℕ
  pub failed : Bool

abbrev pub status_of : Phase → Status
status_of p = record { phase = p; checkpoint = 0; wait_hint = 0; failed = false }
