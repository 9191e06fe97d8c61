-- ===== src/Lobby.antt =====
-- server/src/gamelobby.cpp and its header: a lobby seats players and runs their games.
-- A handler of the lobby also calls methods of the connections, so the state of the model is the
-- lobby together with the server's connections, by index; a `shared_ptr` to a connection is its
-- index. The four signals of the lobby that connections handle are connected together, by
-- `setGameLobby`, so `subscribers` is the list of the connections that handle each of them, oldest
-- first. (A slot holds a `shared_ptr` to its connection, so no slot ever expires.)
pub mod Seats
pub mod Invariant
pub mod Joining
pub mod Leaving
pub mod Starting
pub mod Verdicts
pub mod Turns
pub mod Runs
pub mod Messages
pub mod Silence
pub mod Tests
use package.connectdisks.Prelude.{
  length, ℕ, zero, suc, ◌+◌, ◌-◌, Bool, true, false, not, ◌&&◌, Option, none, some, List, [], ◌∷◌,
  ◌++◌, ltb, ◌==◌, if◌then◌else◌, replicate, modify, Result, ok, err, undefined, ◌>>=◌, write, u8,
}
use package.connectdisks.Board.{min_columns, min_rows}
use package.connectdisks.Game
use package.connectdisks.Game.{
  FourAcross, TurnResult, Outcome, returned, threw, error, success, has_winner, no_winner,
  board_full,
}
use package.connectdisks.Connection
use package.connectdisks.Connection.{Connection}

pub record GameLobby : Type 0 where
  pub lobby_is_open : Bool
  pub is_playing_game : Bool
  pub game : Option FourAcross
  pub max_players : ℕ
  pub num_ready : ℕ
  pub num_players : ℕ
  pub players : List (Option ℕ)
  pub subscribers : List ℕ

pub record Room : Type 0 where
  pub conns : List Connection
  pub lobby : GameLobby

-- The constructor. `resize` of an empty vector fills it with null pointers.
unfoldable pub new : ℕ → GameLobby
new max_players = record {
  lobby_is_open = false;
  is_playing_game = false;
  game = none;
  max_players = max_players;
  num_ready = 0;
  num_players = 0;
  players = replicate max_players none;
  subscribers = [];
}

-- `start` and `startLobby`.
unfoldable pub start : GameLobby → GameLobby
start l = if l.lobby_is_open then l else record l { lobby_is_open = true }

abbrev pub is_full : GameLobby → Bool
is_full l = l.num_players == l.max_players

-- `isEmpty` asks whether there are seats, taken or not.
pub is_empty : GameLobby → Bool
is_empty l = length l.players == 0

abbrev pub all_players_are_ready : GameLobby → Bool
all_players_are_ready l = l.num_ready == l.num_players

abbrev pub can_add_players : GameLobby → Bool
can_add_players l = l.lobby_is_open && not l.is_playing_game && not (is_full l)

-- The call of a signal: each subscriber's handler, in order.
pub emit : (Connection → Connection) → List ℕ → List Connection → List Connection
emit handler [] conns = conns
emit handler (c ∷ cs) conns = emit handler cs (modify conns c handler)

abbrev pub signal : (Connection → Connection) → Room → Room
signal handler r = record r { conns = emit handler r.lobby.subscribers r.conns }

-- The index of the first null pointer, or the size of the vector.
pub first_available : List (Option ℕ) → ℕ
first_available [] = 0
first_available (none ∷ rest) = 0
first_available (some c ∷ rest) = suc (first_available rest)

pub get_first_available_id : GameLobby → ℕ
unfolding first_available
get_first_available_id l = u8 (first_available l.players)

-- `setGameLobby`, and the three handlers that `addPlayer` connects; `l` is the lobby's index.
abbrev pub enter : ℕ → Connection → Connection
enter l c = record c { lobby = some l; handlers = c.handlers ++ l ∷ [] }

unfoldable pub add_player : ℕ → ℕ → Room → Result Room
unfolding get_first_available_id
add_player l c r = if not (can_add_players r.lobby) then ok r else (do
  let id = get_first_available_id r.lobby
  players ← write r.lobby.players id (some c)
  ok (record r {
    conns = modify r.conns c (λ con. enter l (Connection.set_id con (u8 (id + 1))));
    lobby = record (r.lobby) {
      players = players;
      subscribers = r.lobby.subscribers ++ c ∷ [];
      num_players = u8 (r.lobby.num_players + 1);
    };
  }))

abbrev pub id_of : List Connection → ℕ → ℕ
id_of [] c = 0
id_of (x ∷ xs) zero = x.id
id_of (x ∷ xs) (suc c) = id_of xs c

abbrev pub ready_of : List Connection → ℕ → Bool
ready_of [] c = false
ready_of (x ∷ xs) zero = x.client_is_ready
ready_of (x ∷ xs) (suc c) = ready_of xs c

abbrev next_seat : Option (ℕ × ℕ) → Option (ℕ × ℕ)
next_seat none = none
next_seat (some (seat, d)) = some (suc seat, d)

-- The `find_if` of `onDisconnect` and `onReady`: the first seat whose connection has the id of `c`,
-- with that connection.
pub find_player : List Connection → List (Option ℕ) → ℕ → Option (ℕ × ℕ)
find_player conns [] c = none
find_player conns (none ∷ rest) c = next_seat (find_player conns rest c)
find_player conns (some d ∷ rest) c =
    let later = next_seat (find_player conns rest c) in
    if id_of conns d == id_of conns c then some (0, d) else later

-- `gameStarted()` and `takeTurn(game->getCurrentPlayer())`.
pub start_game : Room → Result Room
start_game r =
    if r.lobby.lobby_is_open && not r.lobby.is_playing_game
    then (elim r.lobby.game [
      | none ↦ err undefined
      | some g ↦
          let b = g.board in
          let playing = record r { lobby = record (r.lobby) { is_playing_game = true } } in
          let told =
            signal
              (Connection.on_game_start r.lobby.num_players b.num_columns b.num_rows
                g.current_player)
              playing in
          ok (signal (Connection.on_turn g.current_player) told)
    ])
    else ok r

pub on_game_over : Room → Result Room
on_game_over r = elim r.lobby.game [
  | none ↦ err undefined
  | some g ↦
      let told = signal (Connection.on_game_end (if has_winner g then g.winner else no_winner)) r in
      ok (record told {
        lobby = record (r.lobby) { game = none; is_playing_game = false; num_ready = 0 };
      })
]

-- The room after the call, and whether `lobbyAvailable` is called last.
pub leave : Room → ℕ → ℕ → Result (Room × Bool)
unfolding on_game_over
leave r seat d = do
  players ← write r.lobby.players seat none
  let l = r.lobby
  let left = record r {
    lobby = record l {
      players = players;
      num_ready = if ready_of r.conns d && ltb 0 l.num_ready then l.num_ready - 1 else l.num_ready;
      num_players = if ltb 0 l.num_players then l.num_players - 1 else l.num_players;
    };
  }
  r' ← if l.is_playing_game then on_game_over left else ok left
  ok (r', can_add_players r'.lobby)

pub on_disconnect : ℕ → Room → Result (Room × Bool)
unfolding leave find_player
on_disconnect c r = elim (find_player r.conns r.lobby.players c) [
  | none ↦ ok (r, false)
  | some (seat, d) ↦ leave r seat d
]

-- `first` is what the random distribution over 1 to `maxPlayers` gives. An exception of the game's
-- constructor would leave the call with the ready client counted.
pub begin : ℕ → Room → Result Room
unfolding start_game
begin first r = do
  g ← Game.new r.lobby.max_players first min_columns min_rows
  start_game (record r { lobby = record (r.lobby) { game = some g } })

unfoldable pub on_ready : ℕ → ℕ → Room → Result Room
unfolding begin find_player
on_ready first c r = elim (find_player r.conns r.lobby.players c) [
  | none ↦ ok r
  | some _ ↦
      let counted = record r {
        lobby = record (r.lobby) { num_ready = u8 (r.lobby.num_ready + 1) };
      } in
      if all_players_are_ready counted.lobby && is_full counted.lobby
      then begin first counted
      else ok counted
]

-- After the turn: the end of the game, or the next turn.
pub after_turn : TurnResult → FourAcross → Room → Result Room
unfolding on_game_over
after_turn result g r = do
  full ← if has_winner g then ok true else board_full g
  if full then on_game_over r else (elim result [
    | success ↦ ok (signal (Connection.on_turn g.current_player) r)
    | _ ↦ ok r
  ])

-- A turn of the connection `c`, which is never a null pointer here.
pub on_take_turn : ℕ → ℕ → Room → Result Room
unfolding after_turn
on_take_turn c column r =
    let id = id_of r.conns c in
    let failed = signal (Connection.on_update id column error) in
    if not r.lobby.is_playing_game then ok (failed r) else (elim r.lobby.game [
      | none ↦ err undefined
      | some g ↦ elim (Game.take_turn g id column) [
        | threw undefined g' ↦ err undefined
        | threw e g' ↦ ok (failed (record r { lobby = record (r.lobby) { game = some g' } }))
        | returned result g' ↦ after_turn result g' (
            signal (Connection.on_update id column result)
              (record r { lobby = record (r.lobby) { game = some g' } }))
      ]
    ])
