-- ===== src/Connection/Rounds.antt =====
-- The rounds of the timer of server/src/connection.cpp: what arrives before it is done, and what it does.
use connectdisks.Prelude.{
  ℕ, suc, zero, ◌+◌, ◌≤◌, ◌≡◌, ◌∙◌, refl, true, false, Bool, not, ◌&&◌, ◌||◌, none, some, List, [],
  ◌∷◌, ◌++◌, arith, ltb, u8,
}
use connectdisks.Messaging.{Message, message, ping, pong}
use connectdisks.Connection.{
  create, on_accept, start_pings, Connection, disconnected, arrived, on_read_socket, reads_on,
  wait_for_messages, ping_on_timer, receive, handle_disconnect, handle_client_ready, send_message,
  send_ping,
}
use connectdisks.Connection.Liveness.{Event, reads, ticks, step, run, goings, goings-run, going}

-- What arrives between one completion of the timer and the next.
abbrev pub Round : Type 0
Round = List Message

abbrev pub arrivals : Round → List Event → List Event
arrivals [] later = later
arrivals (m ∷ ms) later = reads (arrived m) ∷ arrivals ms later

-- In each round the messages arrive, in order, and then the timer is done.
abbrev pub events : List Round → List Event
events [] = []
events (ms ∷ rounds) = arrivals ms (ticks false ∷ events rounds)

abbrev pub is_pong : Message → Bool
is_pong m = elim m.kind [ pong ↦ true | _ ↦ false ]

abbrev pub is_answered : Round → Bool
is_answered [] = false
is_answered (m ∷ ms) = is_pong m || is_answered ms

-- There are `n` rounds or more, and in none of the first `n` a pong arrives.
abbrev pub are_silent : ℕ → List Round → Bool
are_silent zero rounds = true
are_silent (suc n) [] = false
are_silent (suc n) (ms ∷ rounds) = not (is_answered ms) && are_silent n rounds

-- Somewhere are four rounds in a row in which no pong arrives.
abbrev pub has_four_silent : List Round → Bool
has_four_silent [] = false
has_four_silent (ms ∷ rounds) = are_silent 4 (ms ∷ rounds) || has_four_silent rounds

abbrev pub are_answered : List Round → Bool
are_answered [] = true
are_answered (ms ∷ rounds) = is_answered ms && are_answered rounds

-- The client is there, and the connection reads and waits for its timer.
pub record IsAtWork (c : Connection) : Type 0 where
  pub here : c.client_is_connected ≡ true
  pub reads : c.reading ≡ true
  pub waits : c.waiting ≡ true

-- The next ping, with `n` pings missed.
abbrev pub pinged : Connection → ℕ → Connection
pinged c n = record c {
  received_pong = false;
  missed_pongs = n;
  sent = c.sent ++ message ping [] ∷ [];
  waiting = true;
}

pub pinged-IsAtWork : (c : Connection) (n : ℕ) → IsAtWork c → IsAtWork (pinged c n)
pinged-IsAtWork c n w = record { here = w.here; reads = w.reads; waits = refl }

abbrev pub lost : Connection → Connection
lost c = record c { missed_pongs = 4; waiting = false; client_is_connected = false }

module _ (c : Connection) (w : IsAtWork c) where
  pub misses :
      c.received_pong ≡ false
      → c.missed_pongs + 1 ≤ 3
      → step (ticks false) c ≡ (pinged c (c.missed_pongs + 1), none)
  unfolding step ping_on_timer send_ping send_message
  misses mute few =
      let small : u8 (c.missed_pongs + 1) ≡ c.missed_pongs + 1 = omega arith in
      let test : ltb 3 (c.missed_pongs + 1) ≡ false = ground arith in
      rw (small, test, w.here, w.waits, mute)

  pub loses :
      c.received_pong ≡ false
      → c.missed_pongs ≡ 3
      → step (ticks false) c ≡ (lost c, some disconnected)
  unfolding step ping_on_timer handle_disconnect
  loses mute last = rw (last, w.here, w.waits, mute)

  pub answered : c.received_pong ≡ true → step (ticks false) c ≡ (pinged c 0, none)
  unfolding step ping_on_timer send_ping send_message
  answered heard = rw (w.here, w.waits, heard)

-- What messages that arrive make of a connection.
pub record HasRead (ms : Round) (c c' : Connection) : Type 0 where
  pub at_work : IsAtWork c'
  pub heard : c'.received_pong ≡ (c.received_pong || is_answered ms)
  pub same_missed : c'.missed_pongs ≡ c.missed_pongs
  pub same_sent : c'.sent ≡ c.sent

reads-HasRead :
    (m : Message) (c : Connection)
    → IsAtWork c
    → HasRead (m ∷ []) c (step (reads (arrived m)) c).0 × (going (step (reads (arrived m)) c).1 ≡ 0)
unfolding step on_read_socket receive handle_client_ready wait_for_messages reads_on
reads-HasRead m c w = (
  record {
    at_work = record {
      here = grind (arith, w.here, w.reads);
      reads = grind (arith, w.here, w.reads);
      waits = grind (arith, w.here, w.reads, w.waits);
    };
    heard = grind (arith, w.here, w.reads);
    same_missed = grind (arith, w.here, w.reads);
    same_sent = grind (arith, w.here, w.reads);
  },
  grind (arith, w.here, w.reads),
)

pub run-cons :
    (e : Event) (es : List Event) (c : Connection) → (run (e ∷ es) c).0 ≡ (run es (step e c).0).0
unfolding run
run-cons e es c = refl

pub run-nil : (c : Connection) → run [] c ≡ (c, [])
unfolding run
run-nil c = refl

-- A round up to the timer.
pub record Arrives (ms : Round) (c : Connection) (later : List Event) : Type 0 where
  pub after : Connection
  pub read : HasRead ms c after
  pub state : (run (arrivals ms later) c).0 ≡ (run later after).0
  pub told : goings (run (arrivals ms later) c).1 ≡ goings (run later after).1

pub arrivals-Arrives :
    (ms : Round) (c : Connection) (later : List Event) → IsAtWork c → Arrives ms c later
arrivals-Arrives [] c later w = record {
  after = c;
  read = record { at_work = w; heard = ground arith; same_missed = refl; same_sent = refl };
  state = refl;
  told = refl;
}
arrivals-Arrives (m ∷ ms) c later w =
    let (first, quiet) = reads-HasRead m c w in
    let rest = arrivals-Arrives ms (step (reads (arrived m)) c).0 later first.at_work in
    record {
      after = rest.after;
      read = record {
        at_work = rest.read.at_work;
        heard = ground (arith, rest.read.heard, first.heard);
        same_missed = rest.read.same_missed ∙ first.same_missed;
        same_sent = rest.read.same_sent ∙ first.same_sent;
      };
      state = run-cons (reads (arrived m)) (arrivals ms later) c ∙ rest.state;
      told = omega (arith, goings-run (reads (arrived m)) (arrivals ms later) c, quiet, rest.told);
    }

-- The timer is done, and calls no signal.
module _ (c c' : Connection) (es : List Event) (e : step (ticks false) c ≡ (c', none)) where
  pub ticks-state : (run (ticks false ∷ es) c).0 ≡ (run es c').0
  unfolding run
  ticks-state = rw e refl

  pub ticks-told : goings (run (ticks false ∷ es) c).1 ≡ goings (run es c').1
  unfolding run
  ticks-told = rw e refl

pub on_accept-id : (c : Connection) → (on_accept c).id ≡ c.id
unfolding on_accept wait_for_messages start_pings send_ping send_message
on_accept-id c = ground arith

-- A connection that is accepted reads, and waits for its timer.
pub on_accept-IsAtWork : IsAtWork (on_accept create)
unfolding on_accept wait_for_messages start_pings send_ping send_message
on_accept-IsAtWork = record { here = refl; reads = refl; waits = refl }
