-- ===== src/Client.antt =====
-- client/src/client.cpp and its header: the client's end of its connection to the server, with its
-- own copy of the game. The socket is asio's: what is handed to it is recorded (`sent`, `reading`),
-- what it delivers is an argument. The member functions that derived classes override are calls
-- that the model returns, in order (`Notice`); what the console does with them is in `Console`.
pub mod Reading
pub mod Receiving
pub mod Stages
pub mod Signals
pub mod Learning
pub mod Mirror
pub mod Sharing
pub mod Following
pub mod Seen
pub mod Beside
pub mod Heard
pub mod Life
pub mod Called
pub mod Calling
pub mod Queueing
pub mod Accepted
pub mod Arriving
pub mod Parting
pub mod Through
pub mod Served
pub mod Lives
pub mod Notices
pub mod Totality
pub mod Fairness
pub mod Tests
use package.connectdisks.Prelude.{
  ℕ, zero, suc, ◌+◌, Bool, true, false, not, ◌&&◌, Option, none, some, List, [], ◌∷◌, ◌++◌, ◌==◌,
  if◌then◌else◌, Result, ok, err, undefined, ◌>>=◌, u8_max,
}
use package.connectdisks.Messaging.{
  MessageType, Message, message, byte, connected, in_queue, ping, pong, game_start, game_end, ready,
  take_turn, turn_result, update,
}
use package.connectdisks.Game
use package.connectdisks.Game.{
  FourAcross, TurnResult, Outcome, returned, threw, error, success, wrong_player, bad_column,
  column_full, game_finished,
}
use package.connectdisks.Connection.{ReadResult, arrived, nothing, closed, failed}

-- `game` and `socket` are `unique_ptr`s: `has_socket` says that `socket` is not null. `stopped` says
-- that the I/O loop is.
pub record Client : Type 0 where
  pub player_id : ℕ
  pub is_connected : Bool
  pub game : Option FourAcross
  pub has_socket : Bool
  pub stopped : Bool
  pub sent : List Message
  pub reading : Bool

-- A value of the type `FourAcross::TurnResult`, which may be none of the enumerators.
pub data TurnValue : Type 0 where
  named : TurnResult → TurnValue
  unnamed : ℕ → TurnValue

-- `toScopedEnum<FourAcross::TurnResult>::cast`.
pub cast : ℕ → TurnValue
cast n =
    if n == 0
    then named error
    else (if n == 1
        then named success
        else (if n == 2
            then named wrong_player
            else (if n == 3
                then named bad_column
                else (if n == 4
                    then named column_full
                    else (if n == 5 then named game_finished else unnamed n)))))

-- The calls of the virtual functions, by name: `handle_turn_request` and the `on_...`.
pub data Notice : Type 0 where
  on_connect on_queue_update on_game_end : ℕ → Notice
  on_disconnect handle_turn_request : Notice
  on_game_start : ℕ → ℕ → ℕ → ℕ → Notice
  on_game_update : ℕ → ℕ → Notice
  on_turn_result : TurnValue → ℕ → Notice

-- The constructor.
abbrev pub create : Client
create = record {
  player_id = 0;
  is_connected = false;
  game = none;
  has_socket = true;
  stopped = false;
  sent = [];
  reading = false;
}

unfoldable pub wait_for_messages : Client → Client
wait_for_messages c = if c.has_socket then record c { reading = true } else c

unfoldable pub send_message : Message → Client → Client
send_message m c = if c.has_socket then record c { sent = c.sent ++ m ∷ [] } else c

-- `connect`: the exception of the socket is thrown again. The I/O loop runs after it.
pub data Connecting : Type 0 where
  connects : Client → Connecting
  throws : Connecting

unfoldable pub connect : Bool → Client → Result Connecting
unfolding wait_for_messages
connect refused c =
    if c.has_socket
    then ok (if refused then throws else connects (wait_for_messages c))
    else err undefined

unfoldable pub disconnect : Client → Result Client
disconnect c = if c.has_socket then ok (record c { has_socket = false }) else err undefined

unfoldable pub stop_context : Client → Client
stop_context c = record c { stopped = true }

unfoldable pub stop : Client → Result Client
unfolding disconnect stop_context
stop c = disconnect c >>= λ c'. ok (stop_context c')

pub toggle_ready : Client → Client
unfolding send_message
toggle_ready c = send_message (message ready (c.player_id ∷ [])) c

pub send_turn : ℕ → Client → Client
unfolding send_message
send_turn column c = send_message (message take_turn (c.player_id ∷ column ∷ [])) c

pub send_pong : Client → Client
unfolding send_message
send_pong c = send_message (message pong []) c

pub set_player_id : ℕ → Client → Client
set_player_id id c = record c { player_id = id }

-- `game->takeTurn`: an exception that it throws is not caught.
pub after_turn : Client → Outcome → Result Client
after_turn c (returned result g) = ok (record c { game = some g })
after_turn c (threw e g) = err e

pub turn_of_game : ℕ → ℕ → Client → Result Client
unfolding after_turn
turn_of_game player column c = elim c.game [
  | none ↦ err undefined
  | some g ↦ after_turn c (Game.take_turn g player column)
]

pub start_game : ℕ → ℕ → ℕ → ℕ → Client → Result (Client × List Notice)
start_game num_players first cols rows c = do
  g ← Game.new num_players first cols rows
  ok (record c { game = some g }, on_game_start num_players first cols rows ∷ [])

pub stop_game : ℕ → Client → Client × List Notice
stop_game winner c = (c, on_game_end winner ∷ [])

pub check_turn_result : TurnValue → ℕ → Client → Result (Client × List Notice)
unfolding turn_of_game
check_turn_result (named success) column c = do
  c' ← turn_of_game c.player_id column c
  ok (c', on_turn_result (named success) column ∷ [])
check_turn_result (named error) column c = ok (c, [])
check_turn_result result column c = ok (c, on_turn_result result column ∷ handle_turn_request ∷ [])

pub take_opponent_turn : ℕ → ℕ → Client → Result (Client × List Notice)
unfolding turn_of_game
take_opponent_turn player column c = do
  c' ← turn_of_game player column c
  ok (c', on_game_update player column ∷ [])

-- The first bytes of the data of a message.
abbrev pub first_bytes : ℕ → List ℕ → List ℕ
first_bytes zero bytes = []
first_bytes (suc n) [] = []
first_bytes (suc n) (b ∷ bs) = b ∷ first_bytes n bs

-- `big_to_native` gives the number whose 8 bytes in memory, changed by `big_to_native_inplace`, are
-- those given.
module _ (big_to_native : List ℕ → ℕ) where
  -- The switch of `handleRead` over the type of a message that arrived.
  pub receive : Message → Client → Result (Client × List Notice)
  unfolding set_player_id send_pong start_game stop_game check_turn_result take_opponent_turn cast
  receive m c = elim m.kind [
    | connected ↦
        let c' = record (set_player_id (byte m 0) c) { is_connected = true } in
        ok (c', on_connect c'.player_id ∷ [])
    | in_queue ↦ ok (c, on_queue_update (big_to_native (first_bytes 8 m.bytes)) ∷ [])
    | ping ↦ ok (send_pong c, [])
    | game_start ↦ start_game (byte m 0) (byte m 3) (byte m 1) (byte m 2) c
    | game_end ↦ ok (stop_game (byte m 0) c)
    | take_turn ↦
        ok (
          c,
          if byte m 0 == c.player_id && byte m 1 == u8_max then handle_turn_request ∷ [] else [],
        )
    | turn_result ↦ check_turn_result (cast (byte m 0)) (byte m 1) c
    | update ↦ take_opponent_turn (byte m 0) (byte m 1) c
    | _ ↦ ok (c, [])
  ]

  -- An exception leaves the I/O loop, and with it `connect`.
  unfoldable pub handle_read : ReadResult → Client → Result (Client × List Notice)
  unfolding receive wait_for_messages
  handle_read (arrived m) c = do
    (c', notices) ← receive m (record c { reading = false })
    ok (wait_for_messages c', notices)
  handle_read nothing c = ok (record c { reading = false }, [])
  handle_read _ c = ok (record c { reading = false; is_connected = false }, on_disconnect ∷ [])

  -- Messages that are in the socket one after the other: each `async_read` that is outstanding takes
  -- one. When none is outstanding, the rest stays in the socket; it is returned.
  pub read_all : List Message → Client → Result (Client × List Notice × List Message)
  unfolding handle_read
  read_all [] c = ok (c, [], [])
  read_all (m ∷ ms) c =
      if c.reading
      then (do
        (c', notices) ← handle_read (arrived m) c
        (c'', later, unread) ← read_all ms c'
        ok (c'', notices ++ later, unread))
      else ok (c, [], m ∷ ms)
