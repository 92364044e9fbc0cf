-- ===== src/Proxy/Gate/Samples.antt =====
-- A gate with two requests, one of which is released.
use benchwarmer.Prelude.{◌+◌, ◌≡◌, refl, true, false, List, [], ◌∷◌, some, arith, if◌then◌else◌}
use benchwarmer.State.{yielding}
use benchwarmer.Proxy.Gate.{
  Closed, TicketId, u64, unix_milli, Event, opens, admits, deletes, cancels, signals, finished,
  new_gate, close, admit, delete, active_ids, preempt_all, is_cancelled, run, step, remove,
}
use benchwarmer.Proxy.Gate.Events.{asked, is_active}
use benchwarmer.Proxy.Gate.Shut.{close_admits_nothing}
use benchwarmer.Proxy.Gate.Tickets.{LacksOne, gate_counts_requests}
use benchwarmer.Proxy.Gate.Cut.{force_close_cancels_active}

abbrev first : TicketId
first = record { millis = 0; seq = 1 }

abbrev second : TicketId
second = record { millis = 0; seq = 2 }

abbrev two_admitted : List Event
two_admitted = opens (some "http://127.0.0.1:8080") ∷ signals ∷ admits 5 5 ∷ admits 6 6 ∷ []

abbrev late : List Event
late = admits 7 7 ∷ deletes first ∷ cancels first finished ∷ signals ∷ admits 8 8 ∷ []

yields_now : Closed
yields_now = record { condition = yielding; retry_after = 0 }

two_are_active : active_ids (run two_admitted new_gate) ≡ second ∷ first ∷ []
unfolding active_ids run step new_gate remove
two_are_active = refl

close_admits_nothing_example :
    let g = run two_admitted new_gate in
    let h = run late (close yields_now g).0 in
    (h.is_open ≡ false)
    × (h.rejected ≡ u64 (g.rejected + asked late))
    × ((id : TicketId) → is_active id h.active ≡ true → is_active id g.active ≡ true)
unfolding run step new_gate
close_admits_nothing_example =
    close_admits_nothing late (run two_admitted new_gate) yields_now refl (omega arith)

gate_counts_requests_example :
    let g = run two_admitted new_gate in
    (g.is_open ≡ true
      → (admit 9 9 g).0.active
        ≡ record {
          id = record { millis = unix_milli 9; seq = g.seq + 1 };
          started = 9;
          upstream = g.upstream;
        }
          ∷ g.active)
    × ((id : TicketId) → is_active id g.active ≡ true → LacksOne id g.active (delete id g).active)
gate_counts_requests_example = gate_counts_requests two_admitted 9 9 (omega arith)

force_close_cancels_active_example :
    let g = run two_admitted new_gate in
    let h = preempt_all (active_ids g) g in
    (h.active ≡ g.active)
    × ((id : TicketId)
        → is_cancelled id h.cancelled
          ≡ (if is_active id g.active then true else is_cancelled id g.cancelled))
force_close_cancels_active_example = force_close_cancels_active (run two_admitted new_gate)
