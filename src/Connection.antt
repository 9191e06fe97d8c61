-- ===== src/Connection.antt =====
-- server/src/connection.cpp and its header: the server's end of a client's connection. Sockets and
-- timers are asio's: what the code hands to them is recorded in the state (`sent`, `reading`,
-- `waiting`), and what they deliver is an argument. Signals are returned to the caller, who calls
-- the handlers. `notifyQueuePosition` stands with the server's queue.
pub mod Liveness
pub mod Alone
pub mod Rounds
pub mod Pings
pub mod Reading
pub mod Tests
use package.connectdisks.Prelude.{
  ℕ, ◌+◌, Bool, true, false, not, ◌&&◌, Option, none, some, List, [], ◌∷◌, ◌++◌, ltb, ◌==◌,
  if◌then◌else◌, u8, u8_max,
}
use package.connectdisks.Messaging.{
  MessageType, Message, message, byte, connected, ping, pong, game_start, game_end, ready,
  take_turn, turn_result, update,
}
use package.connectdisks.Game.{
  TurnResult, error, success, wrong_player, bad_column, column_full, game_finished,
}

-- `lobby` is the index of the lobby, and `handlers` are the lobbies whose handlers the three signals
-- call. `sent` are the messages given to `async_write`, oldest first; `reading` and `waiting` say
-- that an `async_read` and an `async_wait` are outstanding.
pub record Connection : Type 0 where
  pub id : ℕ
  pub lobby : Option ℕ
  pub client_is_connected : Bool
  pub client_is_ready : Bool
  pub received_pong : Bool
  pub missed_pongs : ℕ
  pub handlers : List ℕ
  pub sent : List Message
  pub reading : Bool
  pub waiting : Bool

-- The three signals of a connection.
pub data Signal : Type 0 where
  disconnected readied : Signal
  took_turn : ℕ → Signal

-- The constructor with no lobby, as the server calls it.
abbrev pub create : Connection
create = record {
  id = 0;
  lobby = none;
  client_is_connected = true;
  client_is_ready = false;
  received_pong = false;
  missed_pongs = 0;
  handlers = [];
  sent = [];
  reading = false;
  waiting = false;
}

-- `toUnderlyingType(result)`.
abbrev pub to_underlying_type : TurnResult → ℕ
to_underlying_type error = 0
to_underlying_type success = 1
to_underlying_type wrong_player = 2
to_underlying_type bad_column = 3
to_underlying_type column_full = 4
to_underlying_type game_finished = 5

pub wait_for_messages : Connection → Connection
wait_for_messages c = if not c.client_is_connected then c else record c { reading = true }

unfoldable pub send_message : Connection → Message → Connection
send_message c m = if not c.client_is_connected then c else record c { sent = c.sent ++ m ∷ [] }

pub send_ping : Connection → Connection
unfolding send_message
send_ping c = send_message (record c { received_pong = false }) (message ping [])

pub start_pings : Connection → Connection
unfolding send_ping
start_pings c = record (send_ping c) { waiting = true }

unfoldable pub on_accept : Connection → Connection
unfolding wait_for_messages start_pings
on_accept c = start_pings (wait_for_messages c)

pub handle_disconnect : Connection → Connection × Option Signal
handle_disconnect c =
    if c.client_is_connected
    then (record c { client_is_connected = false }, some disconnected)
    else (c, none)

pub handle_client_ready : Connection → Connection × Option Signal
handle_client_ready c = (record c { client_is_ready = true }, some readied)

-- The switch of `onReadSocket` over the type of a message that arrived.
pub receive : Connection → Message → Connection × Option Signal
unfolding handle_client_ready
receive c m = elim m.kind [
  | ready ↦ if byte m 0 == c.id then handle_client_ready c else (c, none)
  | take_turn ↦
      if byte m 0 == c.id && not (byte m 1 == u8_max)
      then (c, some (took_turn (byte m 1)))
      else (c, none)
  | pong ↦ (record c { received_pong = true }, none)
  | _ ↦ (c, none)
]

-- How an `async_read` completes: with a message, with no bytes, with one of the three errors that
-- mean that the peer is gone, or with another error.
pub data ReadResult : Type 0 where
  arrived : Message → ReadResult
  nothing closed failed : ReadResult

-- `onReadSocket` up to the call of the signal's handlers. After them it waits for the next message
-- exactly if one arrived.
pub on_read_socket : Connection → ReadResult → Connection × Option Signal
unfolding receive handle_disconnect
on_read_socket c (arrived m) = receive (record c { reading = false }) m
on_read_socket c nothing = (record c { reading = false }, none)
on_read_socket c closed = handle_disconnect (record c { reading = false })
on_read_socket c failed = (record c { reading = false }, none)

pub reads_on : ReadResult → Bool
reads_on (arrived m) = true
reads_on _ = false

-- `sendPing` and the timer once more.
abbrev ping_again : Connection → Connection × Option Signal
ping_again c = (record (send_ping c) { waiting = true }, none)

-- `pingOnTimer`; `failed` says that the timer reports an error.
pub ping_on_timer : Connection → Bool → Connection × Option Signal
unfolding send_ping handle_disconnect
ping_on_timer c true = (record c { waiting = false }, none)
ping_on_timer c false =
    let fired = record c { waiting = false } in
    let missed = record fired { missed_pongs = u8 (c.missed_pongs + 1) } in
    if c.client_is_connected
    then (if c.received_pong
        then ping_again (record fired { missed_pongs = 0 })
        else (if ltb 3 missed.missed_pongs then handle_disconnect missed else ping_again missed))
    else (fired, none)

unfoldable pub set_id : Connection → ℕ → Connection
unfolding send_message
set_id c id =
    if c.id == 0 then send_message (record c { id = id }) (message connected (id ∷ [])) else c

pub handle_turn_result : Connection → TurnResult → ℕ → Connection
unfolding send_message
handle_turn_result c result column =
    send_message c (message turn_result (to_underlying_type result ∷ column ∷ []))

-- The lobby's number of players, and its game's columns, rows and current player.
unfoldable pub on_game_start : ℕ → ℕ → ℕ → ℕ → Connection → Connection
unfolding send_message
on_game_start num_players columns rows current c =
    send_message c (message game_start (num_players ∷ columns ∷ rows ∷ current ∷ []))

pub send_winner : Connection → ℕ → Connection
unfolding send_message
send_winner c winner = send_message c (message game_end (winner ∷ []))

unfoldable pub on_game_end : ℕ → Connection → Connection
unfolding send_winner
on_game_end player c = send_winner (record c { client_is_ready = false }) player

unfoldable pub on_turn : ℕ → Connection → Connection
unfolding send_message
on_turn player c =
    if player == c.id then send_message c (message take_turn (player ∷ u8_max ∷ [])) else c

is_success : TurnResult → Bool
is_success success = true
is_success _ = false

unfoldable pub on_update : ℕ → ℕ → TurnResult → Connection → Connection
unfolding send_message handle_turn_result is_success
on_update player column result c =
    if not (player == c.id)
    then (if is_success result then send_message c (message update (player ∷ column ∷ [])) else c)
    else handle_turn_result c result column
