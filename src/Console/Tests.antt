-- ===== src/Console/Tests.antt =====
-- The theorems on the console at concrete inputs.
use connectdisks.Prelude.{
  ℕ, ◌≡◌, ◌∙◌, refl, sym, true, none, some, [], ◌∷◌, arith, ok, err, undefined, codes, Text, u8_max,
}
use connectdisks.Prelude.{List, Result, Bool, false, ap, false≢true}
use connectdisks.Messaging.{Message, message, take_turn}
use connectdisks.Connection.{Connection, create, arrived, failed, on_read_socket, took_turn}
use connectdisks.Game.Tests.{one_to_win, one_to_win-Inv}
use connectdisks.Client
use connectdisks.Client.{Client, handle_read}
use connectdisks.Input.{ask_ready, read_column, stoi, call, same_text}
use connectdisks.Input.Numerals.{IsNumeral, no_front, digit, no_digits, read_column-numeral}
use connectdisks.Console.{
  ConsoleClient, finished, deliver, enter, enter_all, handle, handle_all, stop, tell,
}
use connectdisks.Console.Handlers.{IsSound, at_rest}
use connectdisks.Console.Events.{
  Event, arrives, enters, happen, happen_all, AreEvents, an_event, no_event, failing, entering,
  happen_all-IsSound,
}
use connectdisks.Client.Fairness.{no_start}
use connectdisks.Console.Fair.{IsFine}
use connectdisks.Console.FairEvents.{AreFairEvents, fair_message, fair_word, happen_all-IsFine}
use connectdisks.Messaging.{update}
use connectdisks.Console.Worker.{asking, asking_worker}
use connectdisks.Console.Turns.{IsInvalid, no_word, a_word}
use connectdisks.Console.Playing.{turn_lem}

-- The first player has not answered whether it is ready.
abbrev player : Client
player = record (Client.create) {
  player_id = 1;
  is_connected = true;
  game = some one_to_win;
  reading = true;
}

abbrev connection : Connection
connection = record create { id = 1; lobby = some 0; handlers = 0 ∷ [] }

abbrev too_far : Text
too_far = codes "7"

too_far-IsInvalid : IsInvalid 5 too_far
unfolding read_column stoi
too_far-IsInvalid n i low high =
    none_some (sym read ∙ read_column-numeral 5 n too_far i low high (omega arith))
  where
    read : read_column 5 too_far ≡ none
    read = refl

    none_some : {n : ℕ} → none ≡ some n → ⊥
    none_some e = cc

first_column : IsNumeral (codes "1") 1
first_column = record {
  front = [];
  first = 49;
  others = [];
  split = refl;
  is_front = no_front;
  are_digits = digit refl no_digits;
  number = refl;
}

turn_example :
    (s s' : ConsoleClient) × (m : Message) × (deliver
        (λ bytes. 0)
        (arrived (message take_turn (1 ∷ u8_max ∷ [])))
        (record {
          client = player;
          input_worker = asking_worker ask_ready;
          joining = none;
          printed = [];
        })
      ≡ ok s)
    × (enter_all (codes "ready" ∷ too_far ∷ codes "1" ∷ []) s ≡ ok s')
    × (s'.client.sent ≡ m ∷ [])
    × (on_read_socket connection (arrived m) ≡ (connection, some (took_turn 0)))
    × (s'.input_worker.thread ≡ finished)
turn_example =
    turn_lem (λ bytes. 0) player (asking_worker ask_ready) [] one_to_win connection (codes "ready")
      (too_far ∷ []) (codes "1") 1 asking refl refl refl one_to_win-Inv.valid (omega arith)
      (a_word too_far-IsInvalid no_word) first_column (omega arith) (omega arith)

-- A word that is entered after `quit`, before the program ends, may use the socket that is gone.
quit_twice :
    enter_all (codes "quit" ∷ codes "quit" ∷ []) (record {
      client = player;
      input_worker = asking_worker ask_ready;
      joining = none;
      printed = [];
    })
    ≡ err undefined
unfolding enter_all enter call same_text Client.stop
quit_twice = refl

-- The connection is lost before the player has answered; the next word ends the input thread.
abbrev asked_first : ConsoleClient
asked_first = record {
  client = player;
  input_worker = asking_worker ask_ready;
  joining = none;
  printed = [];
}

abbrev loss : List Event
loss = arrives failed ∷ enters (codes "what") ∷ []

loss-AreEvents : AreEvents (λ bytes. 0) loss asked_first
unfolding happen deliver handle_all handle stop tell handle_read
loss-AreEvents = an_event (failing refl) (λ s e.
    an_event (entering (λ runs. absurd (false≢true (stopped s e ∙ runs)))) (λ s' e'. no_event))
  where
    in_worker : Result ConsoleClient → Bool
    in_worker (ok s) = s.input_worker.running
    in_worker (err x) = false

    stopped :
        (s : ConsoleClient)
        → happen (λ bytes. 0) (arrives failed) asked_first ≡ ok s
        → false ≡ s.input_worker.running
    stopped s e = ap in_worker e

happen_all_example :
    (s' : ConsoleClient) × (happen_all (λ bytes. 0) loss asked_first ≡ ok s') × IsSound s'
happen_all_example =
    happen_all-IsSound (λ bytes. 0) loss asked_first loss-AreEvents (at_rest asking)

-- The opponent's turn arrives, and the user enters words that the old question knows or not.
abbrev fair_events : List Event
fair_events =
    arrives (arrived (message update (2 ∷ 1 ∷ [])))
    ∷ enters (codes "hello")
    ∷ enters (codes "ready")
    ∷ []

fair_events-AreFair : AreFairEvents (λ bytes. 0) fair_events asked_first
unfolding same_text
fair_events-AreFair =
    AreFairEvents.an_event (fair_message refl (no_start (λ e. absurd (cc)))) (λ s e.
      AreFairEvents.an_event (fair_word refl)
        (λ s' e'. AreFairEvents.an_event (fair_word refl) (λ s'' e''. AreFairEvents.no_event)))

asked_first-IsFine : IsFine asked_first
asked_first-IsFine = record {
  sound = at_rest asking;
  plays = record {
    game = one_to_win;
    has_game = refl;
    rules = one_to_win-Inv;
    some_row = omega arith;
  };
  socket = refl;
}

fair_example :
    (s' : ConsoleClient) × (happen_all (λ bytes. 0) fair_events asked_first ≡ ok s') × IsFine s'
fair_example =
    happen_all-IsFine (λ bytes. 0) fair_events asked_first fair_events-AreFair asked_first-IsFine
