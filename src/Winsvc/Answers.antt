-- ===== src/Winsvc/Answers.antt =====
-- internal/winsvc/supervisor.go: one event, as it is acknowledged or handed over.
use benchwarmer.Prelude.{
  ℕ, ◌+◌, ◌≡◌, ◌⊎◌, inl, inr, refl, sym, ap, ◌∙◌, ◌==◌, ltb, Bool, true, false, List, [], ◌∷◌,
  Option, none, some, if◌then◌else◌, arith,
}
use benchwarmer.Winsvc.{
  Kind, stop, shutdown, suspend, resume, session_change, Event, Request, new_request,
}
use benchwarmer.Winsvc.Supervisor.{
  Plane, Input, finished, tick, asked, taken, has_room, deliver, ack, send, is_stop, pass_on,
  shorten_stop, enter_stop, report_pending, on_event, on_translated,
}

-- How often a channel stands there
abbrev pub tally : ℕ → Option ℕ → ℕ
tally id none = 0
tally id (some c) = if c == id then 1 else 0

unfoldable pub acked : ℕ → List ℕ → ℕ
acked id [] = 0
acked id (c ∷ cs) = tally id (some c) + acked id cs

unfoldable pub handed : ℕ → List Event → ℕ
handed id [] = 0
handed id (e ∷ es) = tally id e.done + handed id es

-- How often the loop took a request with this channel
unfoldable pub received : ℕ → List Input → ℕ
received id [] = 0
received id (finished err ∷ xs) = 0
received id (tick now ∷ xs) = received id xs
received id (asked now r ∷ xs) = tally id r.done + received id xs
received id (taken ∷ xs) = received id xs

-- Requests are those that `control` queues.
abbrev pub IsQueued : Input → Type 0
IsQueued (asked now r) =
    (cmd : ℕ) × (t : ℕ) × (id : ℕ) × (at : ℕ) × (c : ℕ) × (r ≡ new_request cmd t id at c)
IsQueued x = Unit

abbrev pub answered : ℕ → Plane → ℕ
answered id p = acked id p.acks + handed id p.delivered

pub answered-if :
    (id n : ℕ) (b : Bool) (x y : Plane)
    → answered id x ≡ n
    → answered id y ≡ n
    → answered id (if b then x else y) ≡ n
answered-if id n true x y h k = h
answered-if id n false x y h k = k

answered-ack :
    (id : ℕ) (d : Option ℕ) (p : Plane) → answered id (ack d p) ≡ tally id d + answered id p
unfolding acked
answered-ack id none p = omega arith
answered-ack id (some c) p = omega arith

answered-send :
    (id : ℕ) (e : Event) (p : Plane) → answered id (send e p) ≡ tally id e.done + answered id p
unfolding handed
answered-send id e p = omega arith

answered-pass_on :
    (id : ℕ) (e : Event) (p : Plane) → answered id (pass_on e p) ≡ tally id e.done + answered id p
answered-pass_on id e p =
    answered-if id _ (has_room p) (send e p) (ack e.done p) (answered-send id e p)
      (answered-ack id e.done p)

-- An event without a channel may be dropped.
answered-deliver :
    (id : ℕ) (e : Event) (p : Plane)
    → tally id e.done ≡ 0
    → answered id (deliver e p) ≡ answered id p
answered-deliver id e p h =
    answered-if id _ (has_room p) (send e p) p (omega (arith, h, answered-send id e p)) refl

answered-stop :
    (id now : ℕ) (e : Event) (p : Plane)
    → tally id e.done ≡ 0
    → answered id (if p.stopping then shorten_stop e p else enter_stop now e p) ≡ answered id p
unfolding report_pending
answered-stop id now e p h =
    answered-if id _ p.stopping (shorten_stop e p) (enter_stop now e p)
      (answered-if id _ (ltb e.deadline p.deadline) (deliver e (record p { deadline = e.deadline }))
        p (answered-deliver id e (record p { deadline = e.deadline }) h) refl)
      (answered-deliver id e
        (report_pending now (record p { stopping = true; deadline = e.deadline })) h)

-- An event is answered once, where one that stops the service has no channel.
answered-on_event :
    (id : ℕ) (k : Kind) (now : ℕ) (e : Event) (p : Plane)
    → (is_stop k ≡ true → tally id e.done ≡ 0)
    → answered id (on_event k now e p) ≡ tally id e.done + answered id p
unfolding on_event
answered-on_event id stop now e p h = answered-stop id now e p (h refl) ∙ omega (arith, h refl)
answered-on_event id shutdown now e p h = answered-stop id now e p (h refl) ∙ omega (arith, h refl)
answered-on_event id suspend now e p h =
    answered-if id _ p.stopping (ack e.done p) (pass_on e p) (answered-ack id e.done p)
      (answered-pass_on id e p)
answered-on_event id resume now e p h = answered-pass_on id e p
answered-on_event id session_change now e p h = answered-pass_on id e p

abbrev pub IsSuspend : Option Event → Type 0
IsSuspend none = ⊥
IsSuspend (some e) = e.kind ≡ suspend

pub answered-on_translated :
    (id now : ℕ) (r : Request) (x : Option Event) (p : Plane)
    → (tally id r.done ≡ 0) ⊎ IsSuspend x
    → answered id (on_translated now r x p) ≡ tally id r.done + answered id p
unfolding on_translated
answered-on_translated id now r none p (inl h) = omega (arith, h)
answered-on_translated id now r none p (inr h) = absurd h
answered-on_translated id now r (some e) p (inl h) =
    answered-on_event id e.kind now (record e { done = r.done }) p (λ _. h)
answered-on_translated id now r (some e) p (inr h) =
    answered-on_event id e.kind now (record e { done = r.done }) p
      (λ s. absurd (ground (arith, sym (ap is_stop h) ∙ s)))
