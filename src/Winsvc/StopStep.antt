-- ===== src/Winsvc/StopStep.antt =====
-- internal/winsvc/supervisor.go: one input, as it moves on what stopping sets.
use benchwarmer.Prelude.{
  ℕ, ◌+◌, ◌≡◌, refl, sym, ap, ◌∙◌, Bool-cases, inl, inr, ltb, ◌==◌, Bool, true, false, List, [],
  ◌∷◌, Option, none, some, if◌then◌else◌, arith,
}
use benchwarmer.Winsvc.{
  Kind, stop, shutdown, suspend, resume, session_change, SessionKind, Event, Options, Request,
  translate, power_event, session_event, of_power, of_session,
}
use benchwarmer.Winsvc.Supervisor.{
  Plane, Input, finished, tick, asked, taken, has_room, send, deliver, ack, pass_on, report,
  shorten_stop, enter_stop, report_pending, on_event, on_translated, on_request,
}
use benchwarmer.Winsvc.StopState.{Stop, stop_of, stop_at, asks_stop}

-- What the handler has returned first
unfoldable pub end_of : List Input → Option Bool
end_of [] = none
end_of (finished err ∷ xs) = some err
end_of (tick now ∷ xs) = end_of xs
end_of (asked now r ∷ xs) = end_of xs
end_of (taken ∷ xs) = end_of xs

abbrev pub failed_by : Option Bool → Option ℕ → Option Bool
failed_by none s = none
failed_by (some err) none = some err
failed_by (some err) (some d) = some false

abbrev pub after_stop : Option ℕ → Stop → Stop
after_stop none c = c
after_stop (some d) c =
    if c.stopping
    then (if ltb d c.deadline then record c { deadline = d } else c)
    else stop_at (some d) c.result

stop_of-if :
    (b : Bool) (x y : Plane) {u v : Stop}
    → stop_of x ≡ u
    → stop_of y ≡ v
    → stop_of (if b then x else y) ≡ (if b then u else v)
stop_of-if true x y h k = h
stop_of-if false x y h k = k

same-if :
    (b : Bool) (x y : Plane) {u : Stop}
    → stop_of x ≡ u
    → stop_of y ≡ u
    → stop_of (if b then x else y) ≡ u
same-if true x y h k = h
same-if false x y h k = k

stop_of-ack : (d : Option ℕ) (p : Plane) → stop_of (ack d p) ≡ stop_of p
stop_of-ack none p = refl
stop_of-ack (some c) p = refl

stop_of-deliver : (e : Event) (p : Plane) → stop_of (deliver e p) ≡ stop_of p
stop_of-deliver e p = same-if (has_room p) (send e p) p refl refl

stop_of-pass_on : (e : Event) (p : Plane) → stop_of (pass_on e p) ≡ stop_of p
stop_of-pass_on e p = same-if (has_room p) (send e p) (ack e.done p) refl (stop_of-ack e.done p)

stop_of-stop :
    (now : ℕ) (e : Event) (p : Plane)
    → stop_of (if p.stopping then shorten_stop e p else enter_stop now e p)
      ≡ after_stop (some e.deadline) (stop_of p)
unfolding report_pending
stop_of-stop now e p =
    let q = record p { deadline = e.deadline } in
    let r = report_pending now (record p { stopping = true; deadline = e.deadline }) in
    stop_of-if p.stopping (shorten_stop e p) (enter_stop now e p)
      (stop_of-if (ltb e.deadline p.deadline) (deliver e q) p (stop_of-deliver e q) refl)
      (ap (λ (c : Stop). record c { cancelled = true; ticking = true }) (stop_of-deliver e r))

-- The deadline of an event that stops the service
abbrev pub stop_deadline : Kind → ℕ → Option ℕ
stop_deadline stop d = some d
stop_deadline shutdown d = some d
stop_deadline _ d = none

stop_of-on_event :
    (k : Kind) (now : ℕ) (e : Event) (p : Plane)
    → stop_of (on_event k now e p) ≡ after_stop (stop_deadline k e.deadline) (stop_of p)
unfolding on_event
stop_of-on_event stop now e p = stop_of-stop now e p
stop_of-on_event shutdown now e p = stop_of-stop now e p
stop_of-on_event suspend now e p =
    same-if p.stopping (ack e.done p) (pass_on e p) (stop_of-ack e.done p) (stop_of-pass_on e p)
stop_of-on_event resume now e p = stop_of-pass_on e p
stop_of-on_event session_change now e p = stop_of-pass_on e p

-- The deadline of a translated event
abbrev pub event_deadline : Option Event → Option ℕ
event_deadline none = none
event_deadline (some e) = stop_deadline e.kind e.deadline

stop_of-on_translated :
    (now : ℕ) (r : Request) (x : Option Event) (p : Plane)
    → stop_of (on_translated now r x p) ≡ after_stop (event_deadline x) (stop_of p)
unfolding on_translated
stop_of-on_translated now r none p = refl
stop_of-on_translated now r (some e) p = stop_of-on_event e.kind now (record e { done = r.done }) p

event_deadline-if :
    (b : Bool) (x y : Option Event) (u v : Option ℕ)
    → event_deadline x ≡ u
    → event_deadline y ≡ v
    → event_deadline (if b then x else y) ≡ (if b then u else v)
event_deadline-if true x y u v h k = h
event_deadline-if false x y u v h k = k

never-if :
    (b : Bool) (x y : Option Event)
    → event_deadline x ≡ none
    → event_deadline y ≡ none
    → event_deadline (if b then x else y) ≡ none
never-if true x y h k = h
never-if false x y h k = k

power_never : (t et : ℕ) → event_deadline (of_power t (power_event et)) ≡ none
unfolding power_event
power_never t et = ground arith

session_never : (id : ℕ) (x : Option SessionKind) → event_deadline (of_session id x) ≡ none
session_never id none = refl
session_never id (some k) = refl

pub translate-asks_stop :
    (o : Options) (budget now : ℕ) (r : Request)
    → event_deadline (translate o budget r) ≡ asks_stop o (asked now r)
unfolding translate
translate-asks_stop o budget now r = event_deadline-if (r.cmd == 1) _ _ _ _ refl (
    event_deadline-if (r.cmd == 15) _ _ _ _ refl (
      event_deadline-if (r.cmd == 5) _ _ _ _ refl (
        never-if (r.cmd == 13) _ _ (power_never (r.at + budget) r.event_type) (
          never-if (r.cmd == 14) _ _ (session_never r.session_id (session_event r.event_type))
            refl))))

asks_stop_never :
    (o : Options) (now : ℕ) (r : Request) → (r.cmd == 4) ≡ true → asks_stop o (asked now r) ≡ none
asks_stop_never o now r e = ground (arith, e)

pub stop_of-on_request :
    (o : Options) (budget now : ℕ) (r : Request) (p : Plane)
    → stop_of (on_request o budget now r p) ≡ after_stop (asks_stop o (asked now r)) (stop_of p)
unfolding on_request
stop_of-on_request o budget now r p =
    let on = on_translated now r (translate o budget r) p in
    elim (Bool-cases (r.cmd == 4)) [
      | inl e ↦
          ap (λ b. stop_of (if b then report p.last p else on)) e
          ∙ ap (λ x. after_stop x (stop_of p)) (sym (asks_stop_never o now r e))
      | inr e ↦
          ap (λ b. stop_of (if b then report p.last p else on)) e
          ∙ stop_of-on_translated now r (translate o budget r) p
          ∙ ap (λ x. after_stop x (stop_of p)) (translate-asks_stop o budget now r)
    ]

pub stop_of-tick :
    (now : ℕ) (p : Plane) → stop_of (if p.ticking then report_pending now p else p) ≡ stop_of p
unfolding report_pending
stop_of-tick now p = same-if p.ticking (report_pending now p) p refl refl

pub if_push {ℓ} :
    {A : Type ℓ} (b : Bool) (f : ℕ → A) (x y : ℕ)
    → (if b then f x else f y) ≡ f (if b then x else y)
if_push true f x y = refl
if_push false f x y = refl
