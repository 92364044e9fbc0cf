-- ===== src/Proxy/Gate/Shut.antt =====
-- internal/proxy/gate.go: a closed gate admits nothing, under every interleaving.
use benchwarmer.Prelude.{
  ℕ, ◌+◌, ◌^◌, ◌<◌, ◌≡◌, refl, ◌∙◌, Bool, true, false, List, [], ◌∷◌, arith, if◌then◌else◌,
}
use benchwarmer.Proxy.Gate.{
  Closed, TicketId, Ticket, Gate, u64, remove, close, Event, opens, admits, deletes, step, run,
}
use benchwarmer.Proxy.Gate.Events.{is_opens, admit_one, asked, no_opens, is_active}

abbrev is_some_admit : Event → Bool
is_some_admit (admits _ _) = true
is_some_admit _ = false

is_active-remove :
    (id j : TicketId) (ts : List Ticket)
    → is_active id (remove j ts) ≡ true
    → is_active id ts ≡ true
unfolding remove
is_active-remove id j [] h = h
is_active-remove id j (t ∷ ts) h = ground (arith, is_active-remove id j ts)

step_shut :
    (e : Event) (g : Gate) (id : TicketId)
    → g.is_open ≡ false
    → is_opens e ≡ false
    → let h = step e g in
      (h.is_open ≡ false)
      × (h.rejected ≡ (if is_some_admit e then u64 (g.rejected + 1) else g.rejected))
      × (is_active id h.active ≡ true → is_active id g.active ≡ true)
unfolding step
step_shut (admits a b) g id c o = (ground arith, ground arith, λ h. ground arith)
step_shut (deletes j) g id c o =
    (ground arith, ground arith, λ h. ground (arith, is_active-remove id j g.active))
step_shut (opens u) g id c o = cc
step_shut e g id c o = (ground arith, ground arith, λ h. ground arith)

rejected_shift :
    (e : Event) (r r' k : ℕ)
    → r' ≡ (if is_some_admit e then u64 (r + 1) else r)
    → u64 (r' + k) ≡ u64 (r + admit_one e k)
rejected_shift (admits a b) r r' k h = omega arith
rejected_shift e r r' k h = omega arith

-- What a closed gate stays through any events but `opens`.
IsShut : Gate → ℕ → Gate → Type 0
IsShut g k h =
    (h.is_open ≡ false)
    × (h.rejected ≡ u64 (g.rejected + k))
    × ((id : TicketId) → is_active id h.active ≡ true → is_active id g.active ≡ true)

IsShut-step :
    (e : Event) (g h : Gate) (k : ℕ)
    → g.is_open ≡ false
    → is_opens e ≡ false
    → IsShut (step e g) k h
    → IsShut g (admit_one e k) h
unfolding IsShut
IsShut-step e g h k c o rest = (
  rest.0,
  rest.1 ∙ rejected_shift e g.rejected _ k (step_shut e g zero_id c o).1,
  λ id a. (step_shut e g id c o).2 (rest.2 id a),
)
  where
    zero_id : TicketId
    zero_id = record { millis = 0; seq = 0 }

step_rejected_lt : (e : Event) (g : Gate) → g.rejected < 2 ^ 64 → (step e g).rejected < 2 ^ 64
unfolding step
step_rejected_lt e g r = ground arith

step_is_open :
    (e : Event) (g : Gate) → g.is_open ≡ false → is_opens e ≡ false → (step e g).is_open ≡ false
unfolding step
step_is_open e g c o = ground arith

run-IsShut :
    (es : List Event) (g : Gate)
    → g.is_open ≡ false
    → no_opens es ≡ true
    → g.rejected < 2 ^ 64
    → IsShut g (asked es) (run es g)
unfolding run
run-IsShut [] g c o r = unfold IsShut in (c, omega arith, λ id h. h)
run-IsShut (e ∷ es) g c o r =
    let stays : is_opens e ≡ false = ground arith in
    IsShut-step e g (run es (step e g)) (asked es) c stays
      (run-IsShut es (step e g) (step_is_open e g c stays) (ground arith) (step_rejected_lt e g r))

-- Once the gate is closed, and until it opens, no event of any interleaving admits a request: each
-- request active later was active at the close, and each attempt counts as rejected.
pub close_admits_nothing :
    (es : List Event) (g : Gate) (c : Closed)
    → no_opens es ≡ true
    → g.rejected < 2 ^ 64
    → let h = run es (close c g).0 in
      (h.is_open ≡ false)
      × (h.rejected ≡ u64 (g.rejected + asked es))
      × ((id : TicketId) → is_active id h.active ≡ true → is_active id g.active ≡ true)
unfolding close IsShut
close_admits_nothing es g c o r = run-IsShut es (close c g).0 refl o r
