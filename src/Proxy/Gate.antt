-- ===== src/Proxy/Gate.antt =====
-- internal/proxy/gate.go. What an operation does under the gate's mutex is one event, and what it does
-- after it releases the mutex is another, so a run of the gate is a list of events in any order that
-- the goroutines can bring about.
pub mod Events
pub mod Shut
pub mod Tickets
pub mod Cut
mod Samples
use benchwarmer.Prelude.{
  ℕ, ◌+◌, ◌-◌, ◌/◌, ◌%◌, ◌^◌, ◌==◌, Bool, true, false, not, ◌&&◌, List, [], ◌∷◌, map, length,
  Option, none, some, String, if◌then◌else◌, max,
}
use benchwarmer.State.{Condition, unavailable}

-- `retry_after` is 0 when unknown. The reason, a text for people, is left out.
pub record Closed : Type 0 where
  pub condition : Condition
  pub retry_after : ℕ

-- The text is "bw-", the milliseconds, a dash and the sequence number, both in base 36, where no
-- number has a dash: two texts are the same exactly if both numbers are.
pub record TicketId : Type 0 where
  pub millis : ℕ
  pub seq : ℕ

pub record Ticket : Type 0 where
  pub id : TicketId
  pub started : ℕ
  pub upstream : Option String

-- Why a request's context is cancelled: `release` gives none, `ForceCloseAll` gives `ErrPreempted`.
pub data Cause : Type 0 where
  finished preempted : Cause

-- `cancelled` are the contexts that are cancelled, each with its first cause; `notified` says that
-- the channel of one place holds a value.
pub record Gate : Type 0 where
  pub is_open : Bool
  pub upstream : Option String
  pub closed : Closed
  pub active : List Ticket
  pub seq : ℕ
  pub notified : Bool
  pub rejected : ℕ
  pub cancelled : List (TicketId × Cause)

abbrev pub u64 : ℕ → ℕ
u64 n = n % 2 ^ 64

-- Nanoseconds from the zero time to 1970.
abbrev epoch : ℕ
epoch = 62_135_596_800_000_000_000

abbrev pub unix_milli : ℕ → ℕ
unix_milli now = (now - epoch) / 1_000_000

abbrev pub id_eqb : TicketId → TicketId → Bool
id_eqb a b = a.millis == b.millis && a.seq == b.seq

unfoldable pub remove : TicketId → List Ticket → List Ticket
remove id [] = []
remove id (t ∷ ts) = let rest = remove id ts in if id_eqb t.id id then rest else t ∷ rest

unfoldable pub is_cancelled : TicketId → List (TicketId × Cause) → Bool
is_cancelled id [] = false
is_cancelled id ((j, cause) ∷ rest) = if id_eqb j id then true else is_cancelled id rest

unfoldable pub new_gate : Gate
new_gate = record {
  is_open = false;
  upstream = none;
  closed = record { condition = unavailable; retry_after = 0 };
  active = [];
  seq = 0;
  notified = false;
  rejected = 0;
  cancelled = [];
}

-- `Open` up to the release of the mutex; `signal` follows.
unfoldable pub open_gate : Option String → Gate → Gate
open_gate upstream g = record g { is_open = true; upstream = upstream }

unfoldable pub signal : Gate → Gate
signal g = record g { notified = true }

-- The controller takes the value from the channel.
unfoldable pub receive : Gate → Gate
receive g = record g { notified = false }

unfoldable pub close : Closed → Gate → Gate × ℕ
close c g = (record g { is_open = false; closed = c }, length g.active)

unfoldable pub update_closed : Closed → Gate → Gate
update_closed c g = if not g.is_open then record g { closed = c } else g

-- The two readings of the clock are those of `newID` and of `Started`.
unfoldable pub admit : ℕ → ℕ → Gate → Gate × Option Ticket
admit now started g =
    let seq = u64 (g.seq + 1) in
    let id : TicketId = record { millis = unix_milli now; seq = seq } in
    let t : Ticket = record { id = id; started = started; upstream = g.upstream } in
    if not g.is_open
    then (record g { rejected = u64 (g.rejected + 1) }, none)
    else (record g { seq = seq; active = t ∷ remove id g.active }, some t)

-- `release` under the mutex; `cancel` with no cause and `signal` follow.
unfoldable pub delete : TicketId → Gate → Gate
unfolding remove
delete id g = record g { active = remove id g.active }

-- A context keeps its first cause.
unfoldable pub cancel : TicketId → Cause → Gate → Gate
cancel id cause g =
    if is_cancelled id g.cancelled then g else record g { cancelled = (id, cause) ∷ g.cancelled }

unfoldable pub oldest_age : ℕ → List Ticket → ℕ
oldest_age now [] = 0
oldest_age now (t ∷ ts) = max (now - t.started) (oldest_age now ts)

-- `Active`
unfoldable pub active_requests : ℕ → Gate → ℕ × ℕ
active_requests now g = (length g.active, oldest_age now g.active)

abbrev pub ids : List Ticket → List TicketId
ids = map λ t. t.id

unfoldable pub active_ids : Gate → List TicketId
active_ids g = ids g.active

-- The loop of `ForceCloseAll` over the tickets that it found under the mutex.
unfoldable pub preempt_all : List TicketId → Gate → Gate
preempt_all [] g = g
preempt_all (id ∷ rest) g = preempt_all rest (cancel id preempted g)

-- One step of some goroutine.
pub data Event : Type 0 where
  opens : Option String → Event
  closes updates : Closed → Event
  admits : ℕ → ℕ → Event
  deletes : TicketId → Event
  cancels : TicketId → Cause → Event
  signals receives : Event

unfoldable pub step : Event → Gate → Gate
unfolding open_gate signal receive close update_closed admit delete cancel
step (opens upstream) g = open_gate upstream g
step (closes c) g = (close c g).0
step (updates c) g = update_closed c g
step (admits now started) g = (admit now started g).0
step (deletes id) g = delete id g
step (cancels id cause) g = cancel id cause g
step signals g = signal g
step receives g = receive g

unfoldable pub run : List Event → Gate → Gate
run [] g = g
run (e ∷ es) g = run es (step e g)
