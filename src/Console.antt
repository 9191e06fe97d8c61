-- ===== src/Console.antt =====
-- client/src/consoleclient.cpp and its header: the client that a user plays in a console. What is
-- printed is recorded. Two threads run: the I/O thread calls the handlers, and the input thread
-- reads words and calls the callback that it was started with. A call of a callback is one step, and
-- so is a message with its handlers, up to a `join` that has to wait.
pub mod Worker
pub mod Handlers
pub mod Events
pub mod Fair
pub mod FairEvents
pub mod Turns
pub mod Playing
pub mod Tests
use package.connectdisks.Prelude.{
  ℕ, zero, suc, ◌+◌, ◌-◌, ◌*◌, Bool, true, false, not, ◌&&◌, ◌||◌, Option, none, some, List, [],
  ◌∷◌, ◌++◌, ltb, leb, ◌==◌, if◌then◌else◌, Result, ok, err, undefined, terminate, system_error,
  ◌>>=◌, u8, Text, codes, decimal, is_digit, length,
}
use Prim.Native.Nat.{◌^◌}
use package.connectdisks.Game.{
  FourAcross, TurnResult, error, success, wrong_player, bad_column, column_full, game_finished,
}
use package.connectdisks.Game.Print
use package.connectdisks.Connection.{ReadResult, arrived, nothing, closed, failed}
use package.connectdisks.Client
use package.connectdisks.Client.{
  Client, Notice, on_connect, on_queue_update, on_game_end, on_disconnect, handle_turn_request,
  on_game_start, on_game_update, on_turn_result, TurnValue, named, unnamed, wait_for_messages,
  receive, handle_read,
}
use package.connectdisks.Input.{InputCallback, ask_ready, ask_rematch, ask_column, call}

-- A thread that has not been started or has been joined, one that reads, and one that has returned
-- but is still to be joined.
pub data Thread : Type 0 where
  not_joinable finished : Thread
  reading_for : InputCallback → Thread

pub record InputWorker : Type 0 where
  pub running : Bool
  pub thread : Thread

-- What the I/O thread does after a `join`: it starts a thread and waits for messages, or returns.
pub data Afterwards : Type 0 where
  then_start : InputCallback → Afterwards
  then_return : Afterwards

-- `joining` says that the I/O thread waits in a `join`, and what for.
pub record ConsoleClient : Type 0 where
  pub client : Client
  pub input_worker : InputWorker
  pub joining : Option Afterwards
  pub printed : Text

-- The assignment of a thread to one that is still to be joined calls `std::terminate`.
unfoldable pub start : InputCallback → ConsoleClient → Result ConsoleClient
start callback s = if s.input_worker.running then ok s else (elim s.input_worker.thread [
  | not_joinable ↦
      ok (record s { input_worker = record { running = true; thread = reading_for callback } })
  | _ ↦ err terminate
])

unfoldable pub go_on : Afterwards → ConsoleClient → Result ConsoleClient
unfolding start
go_on (then_start callback) s = start callback s
go_on then_return s = ok s

-- `running` is set to false, and the thread is joined: at once if it has returned.
unfoldable pub stop : Afterwards → ConsoleClient → Result ConsoleClient
unfolding go_on
stop after s = if not s.input_worker.running then go_on after s else (elim s.input_worker.thread [
  | reading_for callback ↦ ok (record s {
    input_worker = record { running = false; thread = reading_for callback };
    joining = some after;
  })
  | finished ↦
      go_on after (record s { input_worker = record { running = false; thread = not_joinable } })
  | not_joinable ↦ err system_error
])

unfoldable pub restart : InputCallback → ConsoleClient → Result ConsoleClient
unfolding stop
restart callback s = stop (then_start callback) s

unfoldable pub tell : Text → ConsoleClient → ConsoleClient
tell t s = record s { printed = s.printed ++ t }

-- A use of `*this->getGame()`.
abbrev pub with_game :
    Option FourAcross → (FourAcross → Result ConsoleClient) → Result ConsoleClient
with_game none f = err undefined
with_game (some g) f = f g

unfoldable pub tell_game : ConsoleClient → Result ConsoleClient
unfolding tell
tell_game s = with_game s.client.game (λ g. do t ← Print.to_string g; ok (tell (t ++ codes "\n") s))

unfoldable pub winner_text : ℕ → Text
winner_text winner =
    if winner == 0
    then codes "The game has ended because your opponent disconnected.\n"
    else codes "The game is over, player" ++ (decimal winner ++ codes " has won\n")

unfoldable pub refusal_text : TurnValue → Text
refusal_text (named bad_column) = codes "Error: your move was not a valid column\n"
refusal_text (named column_full) = codes "Error: your move was in a full column\n"
refusal_text (named game_finished) = codes "Error: your move wasn't counted as the game is over\n"
refusal_text (named wrong_player) = codes "Error: it's not your turn\n"
refusal_text _ = codes "Your turn was not accepted\n"

unfoldable pub on_turn_result_text : TurnValue → ConsoleClient → Result ConsoleClient
unfolding tell tell_game refusal_text
on_turn_result_text (named success) s = tell_game (tell (codes "Your move was accepted\n") s)
on_turn_result_text result s = ok (tell (refusal_text result) s)

unfoldable pub ask_turn : ConsoleClient → Result ConsoleClient
unfolding tell tell_game restart
ask_turn s = do
  s' ← tell_game s
  with_game s'.client.game (λ g. restart (ask_column g.board.num_columns) (
      tell
        (codes "It's your turn!\nEnter the column to place your piece (min=1,max="
          ++ (decimal g.board.num_columns ++ codes "): "))
        s'))

-- The virtual member functions, as the class overrides them. `onDisconnect` of the base class has
-- been called.
unfoldable pub handle : Notice → ConsoleClient → Result ConsoleClient
unfolding tell tell_game start stop restart winner_text on_turn_result_text ask_turn
handle (on_connect id) s = start ask_ready (
    tell
      (codes "You have connected to the game server. Your id is "
        ++ (decimal id
            ++ codes "\nInput \"ready\" if you want to play, or \"quit\" to disconnect:\n"))
      s)
handle on_disconnect s =
    stop then_return
      (tell (codes "You have disconnected from the game server. Enter anything to exit...\n") s)
handle (on_queue_update position) s =
    ok (tell (codes "Server is full, you are in position " ++ (decimal position ++ codes "\n")) s)
handle (on_game_start num_players first cols rows) s = ok (
    tell
      (codes "Your game has started with "
        ++ (decimal num_players
            ++ (codes " players.\nPlayer "
                ++ (decimal first
                    ++ (codes " is first.\nThe board size is "
                        ++ (decimal cols ++ (codes "x" ++ (decimal rows ++ codes "\n"))))))))
      s)
handle (on_game_end winner) s = restart ask_rematch (
    tell
      (winner_text winner
        ++ codes "Input \"rematch\" if you want to rematch, or \"quit\" to quit:\n")
      s)
handle (on_game_update player column) s = do
  s' ← tell_game s
  ok (
      tell
        (codes "Player "
          ++ (decimal player
              ++ (codes " dropped a piece in column " ++ (decimal (column + 1) ++ codes "\n"))))
        s')
handle (on_turn_result result column) s = on_turn_result_text result s
handle handle_turn_request s = ask_turn s

unfoldable pub handle_all : List Notice → ConsoleClient → Result ConsoleClient
unfolding handle
handle_all [] s = ok s
handle_all (n ∷ ns) s = do s' ← handle n s; handle_all ns s'

-- The I/O thread waits for messages, unless it waits in a `join`.
unfoldable pub wait_if_free : ConsoleClient → ConsoleClient
wait_if_free s = elim s.joining [
  | none ↦ record s { client = wait_for_messages s.client }
  | some after ↦ s
]

-- The `join` has returned.
unfoldable pub joined : ConsoleClient → Result ConsoleClient
unfolding go_on wait_if_free
joined s =
    let free = record s {
      input_worker = record { running = false; thread = not_joinable };
      joining = none;
    } in
    elim s.joining [
      | none ↦ ok (record s { input_worker = record (s.input_worker) { thread = finished } })
      | some then_return ↦ ok free
      | some (then_start callback) ↦ do s' ← go_on (then_start callback) free; ok (wait_if_free s')
    ]

abbrev pub after_call : InputCallback → Bool → Thread
after_call callback done = if done then finished else reading_for callback

-- The input thread has read a word, in `readUntilDone`. When no thread reads, nothing happens.
unfoldable pub enter : Text → ConsoleClient → Result ConsoleClient
unfolding joined tell
enter input s = elim s.input_worker.thread [
  | reading_for callback ↦
      if s.input_worker.running
      then (do
        (c, t, done) ← call callback input s.client
        ok (
            tell t (record s {
              client = c;
              input_worker = record { running = true; thread = after_call callback done };
            })))
      else joined s
  | _ ↦ ok s
]

-- Words that are read one after the other.
unfoldable pub enter_all : List Text → ConsoleClient → Result ConsoleClient
unfolding enter
enter_all [] s = ok s
enter_all (w ∷ ws) s = do s' ← enter w s; enter_all ws s'

module _ (big_to_native : List ℕ → ℕ) where
  -- A read of the client's is done; the handlers are called by `handleRead`.
  unfoldable pub deliver : ReadResult → ConsoleClient → Result ConsoleClient
  unfolding handle_all wait_if_free
  deliver (arrived m) s = do
    (c, notices) ← receive big_to_native m (record (s.client) { reading = false })
    s' ← handle_all notices (record s { client = c })
    ok (wait_if_free s')
  deliver result s = do
    (c, notices) ← handle_read big_to_native result s.client
    handle_all notices (record s { client = c })
