-- ===== src/Winsvc/Supervisor.antt =====
-- internal/winsvc/supervisor.go: `supervise`, and `deliver`. The state holds all that it ever reported,
-- acknowledged and delivered, the latest first.
use benchwarmer.Prelude.{
  ℕ, ◌+◌, ◌%◌, ◌^◌, ltb, ◌==◌, Bool, true, false, not, ◌&&◌, List, [], ◌∷◌, ◌++◌, length, Option,
  none, some, if◌then◌else◌,
}
use benchwarmer.Winsvc.{
  Kind, stop, shutdown, suspend, Event, Options, event_buffer, Request, translate, wait_hint,
  start_pending, running, stop_pending, stopped, Status, status_of,
}

pub record Plane : Type 0 where
  pub stopping : Bool
  pub deadline : ℕ
  pub checkpoint : ℕ
  pub ticking : Bool
  pub last : Status
  -- Whether the handler's context is cancelled
  pub cancelled : Bool
  -- The events that wait in the channel, the oldest first
  pub events : List Event
  pub delivered : List Event
  pub acks : List ℕ
  pub reports : List Status
  -- What `supervise` has returned
  pub result : Option Bool

-- When the handler has been started
abbrev pub new_plane : Plane
new_plane = record {
  stopping = false;
  deadline = 0;
  checkpoint = 0;
  ticking = false;
  last = status_of running;
  cancelled = false;
  events = [];
  delivered = [];
  acks = [];
  reports = status_of running ∷ record (status_of start_pending) { wait_hint = 10_000 } ∷ [];
  result = none;
}

abbrev pub report : Status → Plane → Plane
report s p = record p { reports = s ∷ p.reports }

unfoldable pub report_pending : ℕ → Plane → Plane
report_pending now p =
    let c = (p.checkpoint + 1) % 2 ^ 32 in
    let s = record (status_of stop_pending) {
      checkpoint = c;
      wait_hint = wait_hint p.deadline now;
    } in
    report s (record p { checkpoint = c; last = s })

-- Whether the channel of events has room
abbrev pub has_room : Plane → Bool
has_room p = ltb (length p.events) event_buffer

abbrev pub send : Event → Plane → Plane
send e p = record p { events = p.events ++ (e ∷ []); delivered = e ∷ p.delivered }

-- Where the code drops the event and does not look
abbrev pub deliver : Event → Plane → Plane
deliver e p = if has_room p then send e p else p

abbrev pub ack : Option ℕ → Plane → Plane
ack none p = p
ack (some c) p = record p { acks = c ∷ p.acks }

abbrev pub is_stop : Kind → Bool
is_stop stop = true
is_stop shutdown = true
is_stop _ = false

abbrev pub enter_stop : ℕ → Event → Plane → Plane
enter_stop now e p =
    record (deliver e (report_pending now (record p { stopping = true; deadline = e.deadline }))) {
      cancelled = true;
      ticking = true;
    }

abbrev pub shorten_stop : Event → Plane → Plane
shorten_stop e p =
    if ltb e.deadline p.deadline then deliver e (record p { deadline = e.deadline }) else p

abbrev pub pass_on : Event → Plane → Plane
pass_on e p = if has_room p then send e p else ack e.done p

-- An event, by its kind
unfoldable pub on_event : Kind → ℕ → Event → Plane → Plane
unfolding report_pending
on_event stop now e p = if p.stopping then shorten_stop e p else enter_stop now e p
on_event shutdown now e p = if p.stopping then shorten_stop e p else enter_stop now e p
on_event suspend now e p = if p.stopping then ack e.done p else pass_on e p
on_event _ now e p = pass_on e p

unfoldable pub on_translated : ℕ → Request → Option Event → Plane → Plane
unfolding on_event
on_translated now r none p = p
on_translated now r (some e) p = on_event e.kind now (record e { done = r.done }) p

unfoldable pub on_request : Options → ℕ → ℕ → Request → Plane → Plane
unfolding translate on_translated
on_request o budget now r p =
    if r.cmd == 4 then report p.last p else on_translated now r (translate o budget r) p

-- What the loop waits for
pub data Input : Type 0 where
  -- The handler has returned, with an error or without one.
  finished : Bool → Input
  tick : ℕ → Input
  asked : ℕ → Request → Input
  -- The handler takes the oldest event.
  taken : Input

unfoldable pub finish : Bool → Plane → Plane
finish err p =
    let failed = err && not p.stopping in
    report (record (status_of stopped) { failed = failed }) (record p { result = some failed })

abbrev tail_of : List Event → List Event
tail_of [] = []
tail_of (e ∷ es) = es

unfoldable pub step : Options → ℕ → Input → Plane → Plane
unfolding finish report_pending on_request
step o budget (finished err) p = finish err p
step o budget (tick now) p = if p.ticking then report_pending now p else p
step o budget (asked now r) p = on_request o budget now r p
step o budget taken p = record p { events = tail_of p.events }

-- The loop returns at the end of the handler and takes nothing more.
unfoldable pub loop : Options → ℕ → List Input → Plane → Plane
unfolding step
loop o budget [] p = p
loop o budget (finished err ∷ xs) p = step o budget (finished err) p
loop o budget (tick now ∷ xs) p = loop o budget xs (step o budget (tick now) p)
loop o budget (asked now r ∷ xs) p = loop o budget xs (step o budget (asked now r) p)
loop o budget (taken ∷ xs) p = loop o budget xs (step o budget taken p)

unfoldable pub supervise : Options → ℕ → List Input → Plane
unfolding loop
supervise o budget xs = loop o budget xs new_plane
