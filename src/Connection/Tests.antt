-- ===== src/Connection/Tests.antt =====
-- The theorems on connections at concrete inputs.
use connectdisks.Prelude.{
  ◌≡◌, refl, arith, false, true, [], ◌∷◌, ◌++◌, if◌then◌else◌, ◌&&◌, not, List,
}
use connectdisks.Messaging.{message, ping, pong, ready}
use connectdisks.Connection.{Connection, create, closed}
use connectdisks.Connection.Rounds.{Round, events, IsAtWork, on_accept-IsAtWork}
use connectdisks.Connection.Pings.{silence_lem, answers_lem}
use connectdisks.Connection.Liveness.{Event, reads, ticks, turns, run, goings, run_lem}

-- A client that has just been accepted.
abbrev accepted : Connection
accepted = record create { reading = true; waiting = true; sent = message ping [] ∷ [] }

-- The client goes, and the lobby calls for its turn.
abbrev going_away : List Event
going_away = turns 0 ∷ reads closed ∷ turns 0 ∷ ticks false ∷ []

run_example :
    goings (run going_away accepted).1
    ≡ (if true && not (run going_away accepted).0.client_is_connected then 1 else 0)
run_example = (run_lem going_away accepted).0

-- Three pings are missed, the next is answered, and then four are missed, with a ready message of the
-- client among them.
abbrev rounds : List Round
rounds = [] ∷ [] ∷ [] ∷ (message pong [] ∷ []) ∷ [] ∷ (message ready (0 ∷ []) ∷ []) ∷ [] ∷ [] ∷ []

silence_example :
    ((run (events rounds) accepted).0.client_is_connected ≡ false)
    × (goings (run (events rounds) accepted).1 ≡ 1)
unfolding connectdisks.Connection.on_accept
silence_example = silence_lem rounds accepted on_accept-IsAtWork refl (omega arith)

-- Each ping is answered, one of them late, after a ready message.
abbrev answers : List Round
answers = (message pong [] ∷ []) ∷ (message ready (0 ∷ []) ∷ message pong [] ∷ []) ∷ []

answers_example :
    IsAtWork (run (events answers) accepted).0
    × (goings (run (events answers) accepted).1 ≡ 0)
    × ((run (events answers) accepted).0.sent
        ≡ accepted.sent ++ message ping [] ∷ message ping [] ∷ [])
unfolding connectdisks.Connection.on_accept
answers_example = answers_lem answers accepted on_accept-IsAtWork refl
