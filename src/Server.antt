-- ===== src/Server.antt =====
-- server/src/server.cpp and its header: connections are assigned to lobbies, or wait in a queue. The
-- acceptor and the timer are asio's: what they deliver is an argument. `shared_ptr`s to connections
-- and pointers to lobbies are indices. A connection is known from when it is accepted.
pub mod Queue
pub mod Serving
pub mod Calls
pub mod Handlers
pub mod Lookup
pub mod Accepting
pub mod Timer
pub mod Positions
pub mod Runs
pub mod Pending
pub mod Waiting
pub mod Tests
use package.connectdisks.Prelude.{
  ℕ, zero, ◌+◌, ◌-◌, suc, Bool, true, false, not, ◌&&◌, ◌||◌, Option, none, some, List, [], ◌∷◌,
  ◌++◌, ltb, leb, ◌==◌, if◌then◌else◌, length, modify, get_or, Result, ok, ◌>>=◌, index, write,
}
use package.connectdisks.Messaging.{Message, message, in_queue}
use package.connectdisks.Game.{min_num_players}
use package.connectdisks.Connection
use package.connectdisks.Connection.{Connection, create, on_accept, send_message}
use package.connectdisks.Lobby
use package.connectdisks.Lobby.{GameLobby, Room, add_player}

pub record Server : Type 0 where
  pub conns : List Connection
  pub lobbies : List GameLobby
  pub player_queue : List ℕ
  pub last_queue_size : ℕ
  pub accepting : Bool  -- an `async_accept` is under way
  pub timer_is_set : Bool  -- `queueUpdateTimer` is waited for

abbrev pub max_lobbies : ℕ
max_lobbies = 4

abbrev pub wait_for_connections : Server → Server
wait_for_connections s = record s { accepting = true }

-- `async_wait` on the timer, with `updateQueuePositions` as its handler.
abbrev pub wait_for_timer : Server → Server
wait_for_timer s = record s { timer_is_set = true }

-- The constructor.
abbrev pub serve : Server
serve =
    let made : Server = record {
      conns = [];
      lobbies = [];
      player_queue = [];
      last_queue_size = 0;
      accepting = false;
      timer_is_set = false;
    } in
    wait_for_timer (wait_for_connections made)

-- A call of the lobby `l`, with whether it calls `lobbyAvailable` last.
pub with_lobby : ℕ → (Room → Result (Room × Bool)) → Server → Result (Server × Bool)
with_lobby l call s = do
  lobby ← index s.lobbies l
  (r, available) ← call (record { conns = s.conns; lobby = lobby })
  lobbies ← write s.lobbies l r.lobby
  ok (record s { conns = r.conns; lobbies = lobbies }, available)

-- `lobby->addPlayer(connection)`.
unfoldable pub add_to_lobby : ℕ → ℕ → Server → Result Server
unfolding with_lobby
add_to_lobby l c s = do
  (s', available) ← with_lobby l (λ r. add_player l c r >>= λ r'. ok (r', false)) s
  ok s'

-- The index of the first lobby that is not full.
pub find_available_lobby : List GameLobby → Option ℕ
find_available_lobby [] = none
find_available_lobby (lobby ∷ rest) =
    let later = find_available_lobby rest in
    if not (Lobby.is_full lobby)
    then some 0
    else (elim later [ none ↦ none | some l ↦ some (suc l) ])

-- A lobby with the default number of players, started.
unfoldable pub make_new_lobby : Server → Server
make_new_lobby s = record s { lobbies = s.lobbies ++ Lobby.start (Lobby.new min_num_players) ∷ [] }

-- The new lobby is the last one.
unfoldable pub add_to_new_lobby : ℕ → Server → Result Server
unfolding make_new_lobby add_to_lobby
add_to_new_lobby c s = add_to_lobby (length s.lobbies) c (make_new_lobby s)

unfoldable pub on_lobby_available : ℕ → Server → Result Server
unfolding add_to_lobby
on_lobby_available l s = elim s.player_queue [
  | [] ↦ ok s
  | player ∷ rest ↦ do s' ← add_to_lobby l player s; ok (record s' { player_queue = rest })
]

-- The three handlers that lobbies connect to the signals of a connection, with the handler that the
-- server connects to `lobbyAvailable`.
unfoldable pub lobby_call : ℕ → (Room → Result (Room × Bool)) → Server → Result Server
unfolding with_lobby on_lobby_available
lobby_call l call s = do
  (s', available) ← with_lobby l call s
  if available then on_lobby_available l s' else ok s'

-- `isAlive` of a connection.
pub is_alive : List Connection → ℕ → Bool
is_alive [] c = false
is_alive (x ∷ xs) zero = x.client_is_connected
is_alive (x ∷ xs) (suc c) = is_alive xs c

pub remove_if_gone : List Connection → List ℕ → List ℕ
unfolding is_alive
remove_if_gone conns [] = []
remove_if_gone conns (c ∷ cs) =
    let rest = remove_if_gone conns cs in if is_alive conns c then c ∷ rest else rest

-- `native_to_big` gives the 8 bytes in memory of a number that `native_to_big_inplace` has changed.
module _ (native_to_big : ℕ → List ℕ) where
  unfoldable pub notify_queue_position : ℕ → Connection → Connection
  notify_queue_position position c = send_message c (message in_queue (native_to_big position))

  unfoldable pub add_to_queue : ℕ → Server → Server
  unfolding notify_queue_position
  add_to_queue c s =
      let queue = s.player_queue ++ c ∷ [] in
      record s {
        conns = modify s.conns c (notify_queue_position (length queue));
        player_queue = queue;
      }

  -- The `async_accept` of a connection completes, with an error or not.
  unfoldable pub on_connection_accepted : Bool → Server → Result Server
  unfolding add_to_new_lobby find_available_lobby add_to_queue
  on_connection_accepted true s = ok (record s { accepting = false })
  on_connection_accepted false s = do
    let connection = length s.conns
    let accepted = record s { accepting = false; conns = s.conns ++ on_accept create ∷ [] }
    let num_lobbies = length s.lobbies
    let grows =
        if ltb num_lobbies max_lobbies
        then add_to_new_lobby connection accepted
        else ok (add_to_queue connection accepted)
    s' ←
        (if not (num_lobbies == 0)
          then (elim (find_available_lobby s.lobbies) [
            | some l ↦ add_to_lobby l connection accepted
            | none ↦ grows
          ])
          else grows)
    ok (wait_for_connections s')

  unfoldable pub notify_all : ℕ → List ℕ → List Connection → List Connection
  unfolding notify_queue_position
  notify_all position [] conns = conns
  notify_all position (c ∷ cs) conns =
      notify_all (position + 1) cs (modify conns c (notify_queue_position position))

  -- Each time that the timer is done, with an error or not: the wait that is over is under way no more.
  unfoldable pub update_queue_positions : Server → Server
  unfolding remove_if_gone notify_all
  update_queue_positions s =
      let queue = remove_if_gone s.conns s.player_queue in
      let queue_size = length queue in
      let delta =
        if ltb s.last_queue_size queue_size
        then queue_size - s.last_queue_size
        else s.last_queue_size - queue_size in
      wait_for_timer (record s {
        conns =
            if ltb 0 queue_size && (ltb queue_size 10 || leb 10 delta)
            then notify_all 1 queue s.conns
            else s.conns;
        player_queue = queue;
        last_queue_size = queue_size;
        timer_is_set = false;
      })
