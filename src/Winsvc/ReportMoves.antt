-- ===== src/Winsvc/ReportMoves.antt =====
-- internal/winsvc/supervisor.go: what one input does to the reports.
use benchwarmer.Prelude.{
  ℕ, ◌+◌, ◌%◌, ◌^◌, ◌≡◌, refl, ap, ◌∙◌, ltb, ◌==◌, Bool, true, false, List, ◌∷◌, Option, none, some,
  if◌then◌else◌,
}
use benchwarmer.Winsvc.{
  Kind, stop, shutdown, suspend, resume, session_change, Event, Options, Request, translate,
  wait_hint, Status,
}
use benchwarmer.Winsvc.Supervisor.{
  Plane, asked, has_room, send, deliver, ack, pass_on, report, shorten_stop, enter_stop,
  report_pending, on_event, on_translated, on_request,
}
use benchwarmer.Winsvc.StopState.{asks_stop}
use benchwarmer.Winsvc.StopStep.{stop_deadline, event_deadline, translate-asks_stop}
use benchwarmer.Winsvc.Heard.{stop_pending_at}

-- What the reports rest on
pub record View : Type 0 where
  pub stopping : Bool
  pub deadline : ℕ
  pub checkpoint : ℕ
  pub ticking : Bool
  pub last : Status
  pub reports : List Status
  pub result : Option Bool

abbrev pub view : Plane → View
view p = record {
  stopping = p.stopping;
  deadline = p.deadline;
  checkpoint = p.checkpoint;
  ticking = p.ticking;
  last = p.last;
  reports = p.reports;
  result = p.result;
}

abbrev pub repeated : View → View
repeated v = record v { reports = v.last ∷ v.reports }

abbrev pub pended : ℕ → View → View
pended h v =
    let s = stop_pending_at ((v.checkpoint + 1) % 2 ^ 32) h in
    record v { checkpoint = s.checkpoint; last = s; reports = s ∷ v.reports }

-- The first request to stop is reported; a later one can only shorten the time.
abbrev pub stop_moves : Option ℕ → ℕ → View → View
stop_moves none now v = v
stop_moves (some d) now v =
    if v.stopping
    then (if ltb d v.deadline then record v { deadline = d } else v)
    else pended (wait_hint d now) (record v { stopping = true; deadline = d; ticking = true })

view-if :
    (b : Bool) (x y : Plane) {u v : View}
    → view x ≡ u
    → view y ≡ v
    → view (if b then x else y) ≡ (if b then u else v)
view-if true x y h k = h
view-if false x y h k = k

view-same :
    (b : Bool) (x y : Plane) {u : View} → view x ≡ u → view y ≡ u → view (if b then x else y) ≡ u
view-same true x y h k = h
view-same false x y h k = k

view-ack : (d : Option ℕ) (p : Plane) → view (ack d p) ≡ view p
view-ack none p = refl
view-ack (some c) p = refl

view-pass_on : (e : Event) (p : Plane) → view (pass_on e p) ≡ view p
view-pass_on e p = view-same (has_room p) (send e p) (ack e.done p) refl (view-ack e.done p)

view-deliver : (e : Event) (p : Plane) → view (deliver e p) ≡ view p
view-deliver e p = view-same (has_room p) (send e p) p refl refl

view-stop :
    (now : ℕ) (e : Event) (p : Plane)
    → view (if p.stopping then shorten_stop e p else enter_stop now e p)
      ≡ stop_moves (some e.deadline) now (view p)
unfolding report_pending
view-stop now e p =
    let q = record p { deadline = e.deadline } in
    let r = report_pending now (record p { stopping = true; deadline = e.deadline }) in
    view-if p.stopping (shorten_stop e p) (enter_stop now e p)
      (view-if (ltb e.deadline p.deadline) (deliver e q) p (view-deliver e q) refl)
      (ap (λ (v : View). record v { ticking = true }) (view-deliver e r))

view-on_event :
    (k : Kind) (now : ℕ) (e : Event) (p : Plane)
    → view (on_event k now e p) ≡ stop_moves (stop_deadline k e.deadline) now (view p)
unfolding on_event
view-on_event stop now e p = view-stop now e p
view-on_event shutdown now e p = view-stop now e p
view-on_event suspend now e p =
    view-same p.stopping (ack e.done p) (pass_on e p) (view-ack e.done p) (view-pass_on e p)
view-on_event resume now e p = view-pass_on e p
view-on_event session_change now e p = view-pass_on e p

view-on_translated :
    (now : ℕ) (r : Request) (x : Option Event) (p : Plane)
    → view (on_translated now r x p) ≡ stop_moves (event_deadline x) now (view p)
unfolding on_translated
view-on_translated now r none p = refl
view-on_translated now r (some e) p = view-on_event e.kind now (record e { done = r.done }) p

-- An interrogate is answered; any other request moves the reports only when it asks to stop.
pub view-on_request :
    (o : Options) (budget now : ℕ) (r : Request) (p : Plane)
    → view (on_request o budget now r p) ≡ (
        if r.cmd == 4
        then repeated (view p)
        else stop_moves (asks_stop o (asked now r)) now (view p))
unfolding on_request
view-on_request o budget now r p =
    let x = translate o budget r in
    view-if (r.cmd == 4) (report p.last p) (on_translated now r x p) refl (
      view-on_translated now r x p
      ∙ ap (λ d. stop_moves d now (view p)) (translate-asks_stop o budget now r))

pub view-tick :
    (now : ℕ) (p : Plane)
    → view (if p.ticking then report_pending now p else p)
      ≡ (if p.ticking then pended (wait_hint p.deadline now) (view p) else view p)
unfolding report_pending
view-tick now p = view-if p.ticking (report_pending now p) p refl refl
