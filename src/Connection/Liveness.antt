-- ===== src/Connection/Liveness.antt =====
-- What happens to a connection of server/src/connection.cpp, and how its lobby hears that it is gone.
use connectdisks.Prelude.{
  ℕ, suc, ◌+◌, ◌≡◌, ◌∙◌, refl, Bool, false, not, ◌&&◌, Option, none, some, List, [], ◌∷◌, arith,
  if◌then◌else◌,
}
use connectdisks.Game.{TurnResult}
use connectdisks.Connection.{
  Connection, Signal, disconnected, readied, took_turn, ReadResult, on_read_socket, reads_on,
  wait_for_messages, ping_on_timer, set_id, on_game_start, on_game_end, on_turn, on_update, receive,
  handle_disconnect, handle_client_ready, send_message, send_ping, handle_turn_result, send_winner,
}

-- What happens to a connection: a read or a timer completes, or its lobby calls one of its handlers.
-- The handlers of a signal that is called are events after it. A read completes only if one is
-- outstanding, and the timer only if it is waited for: otherwise nothing happens.
pub data Event : Type 0 where
  reads : ReadResult → Event
  ticks : Bool → Event
  is_given : ℕ → Event
  starts : ℕ → ℕ → ℕ → ℕ → Event
  ends turns : ℕ → Event
  updates : ℕ → ℕ → TurnResult → Event

unfoldable pub step : Event → Connection → Connection × Option Signal
step (reads result) c =
    let (c', signal) = on_read_socket c result in
    if c.reading then (if reads_on result then wait_for_messages c' else c', signal) else (c, none)
step (ticks error) c = if c.waiting then ping_on_timer c error else (c, none)
step (is_given id) c = (set_id c id, none)
step (starts n columns rows current) c = (on_game_start n columns rows current c, none)
step (ends player) c = (on_game_end player c, none)
step (turns player) c = (on_turn player c, none)
step (updates player column result) c = (on_update player column result c, none)

abbrev prepend : Option Signal → List Signal → List Signal
prepend none signals = signals
prepend (some signal) signals = signal ∷ signals

-- The connection after the events, and the signals that were called.
unfoldable pub run : List Event → Connection → Connection × List Signal
unfolding step
run [] c = (c, [])
run (e ∷ es) c =
    let (c', signal) = step e c in let (c'', signals) = run es c' in (c'', prepend signal signals)

-- How often the lobby is told that the client is gone.
abbrev pub goings : List Signal → ℕ
goings [] = 0
goings (disconnected ∷ rest) = suc (goings rest)
goings (readied ∷ rest) = goings rest
goings (took_turn column ∷ rest) = goings rest

abbrev pub going : Option Signal → ℕ
going (some disconnected) = 1
going _ = 0

-- One event: a client that is gone stays gone and is sent nothing, and the signal is called when the
-- client goes.
record IsStep (c c' : Connection) (signal : Option Signal) : Type 0 where
  gone : c.client_is_connected ≡ false → c'.client_is_connected ≡ false
  unsent : c.client_is_connected ≡ false → c'.sent ≡ c.sent
  told : going signal ≡ (if c.client_is_connected && not c'.client_is_connected then 1 else 0)

step-IsStep : (e : Event) (c : Connection) → IsStep c (step e c).0 (step e c).1
unfolding step on_read_socket receive handle_client_ready handle_disconnect wait_for_messages
    ping_on_timer send_ping set_id on_game_start on_game_end send_winner on_turn on_update
    handle_turn_result send_message reads_on
step-IsStep e c = record { gone = grind arith; unsent = grind arith; told = grind arith }

pub goings-run :
    (e : Event) (es : List Event) (c : Connection)
    → goings (run (e ∷ es) c).1 ≡ going (step e c).1 + goings (run es (step e c).0).1
unfolding run
goings-run e es c = prepended (step e c).1 (run es (step e c).0).1
  where
    prepended :
        (signal : Option Signal) (signals : List Signal)
        → goings (prepend signal signals) ≡ going signal + goings signals
    prepended none signals = omega arith
    prepended (some disconnected) signals = omega arith
    prepended (some readied) signals = omega arith
    prepended (some (took_turn column)) signals = omega arith

-- In any sequence of events, the lobby is told that the client is gone exactly once if the client is
-- connected before and not after, and not at all otherwise: a client that is gone stays gone. To a
-- client that is gone, nothing more is sent.
pub run_lem :
    (es : List Event) (c : Connection)
    → (goings (run es c).1
        ≡ (if c.client_is_connected && not (run es c).0.client_is_connected then 1 else 0))
      × (c.client_is_connected ≡ false
          → ((run es c).0.client_is_connected ≡ false) × ((run es c).0.sent ≡ c.sent))
unfolding run
run_lem [] c = (ground arith, λ h. (h, refl))
run_lem (e ∷ es) c =
    let s = step-IsStep e c in
    let (later, gone) = run_lem es (step e c).0 in
    (
      ground (arith, goings-run e es c, s.told, later, s.gone, gone),
      λ h. let (still, sent) = gone (s.gone h) in (still, sent ∙ s.unsent h),
    )
