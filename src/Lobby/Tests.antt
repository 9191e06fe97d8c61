-- ===== src/Lobby/Tests.antt =====
-- The theorems on a lobby at concrete inputs.
use connectdisks.Prelude.{
  ℕ, zero, suc, ◌≡◌, refl, inl, inr, none, some, some_inj, List, [], ◌∷◌, true, false, ok, arith,
  get_elem?, ◌<◌, length,
}
use connectdisks.Messaging.{message, update}
use connectdisks.Connection.{Connection, create, on_update}
use connectdisks.Lobby.Messages.{signal-sent}
use connectdisks.Game.{success, FourAcross, TurnResult, returned, take_turn}
use connectdisks.Game.Tests.{one_to_win, one_to_win-Inv}
use connectdisks.Game.Ending.{board_full_lem}
use connectdisks.Lobby.{
  signal, Room, new, start, add_player, on_disconnect, on_ready, on_take_turn, id_of,
}
use connectdisks.Lobby.Invariant.{IsSeating, IsPlaying, Inv, regame-IsSeating}
use connectdisks.Lobby.Joining.{start-new-Inv, IsSeated, add_player_lem}
use connectdisks.Lobby.Leaving.{IsLeft, IsTold, on_disconnect_lem}
use connectdisks.Lobby.Starting.{IsStarted, on_ready_lem}
use connectdisks.Lobby.Turns.{IsTaken, on_take_turn_lem}
use connectdisks.Lobby.Runs.{
  Call, disconnects, readies, turns, calls, AreCalls, no_call, a_call, disconnected, readied,
  turned, calls_lem,
}

-- Three clients that have connected, and a lobby for two.
abbrev waiting_room : Room
waiting_room = record { conns = create ∷ create ∷ create ∷ []; lobby = start (new 2) }

waiting_room-Inv : Inv waiting_room
waiting_room-Inv = start-new-Inv 2 waiting_room.conns (omega arith) (omega arith)

start-new_example : Inv (record { conns = []; lobby = start (new 255) })
start-new_example = start-new-Inv 255 [] (omega arith) (omega arith)

add_player_example :
    (r' : Room) × (add_player 0 1 waiting_room ≡ ok r') × IsSeated 0 1 waiting_room r'
unfolding start new
add_player_example =
    (add_player_lem 0 1 waiting_room waiting_room-Inv (omega arith) refl).1 refl (omega arith)

-- Two of them have sat down, and the first is ready.
abbrev seated_client : ℕ → Connection
seated_client id = record create { id = id; lobby = some 0; handlers = 0 ∷ [] }

abbrev pub table : Room
table = record {
  conns = seated_client 1 ∷ create ∷ seated_client 2 ∷ [];
  lobby = record {
    lobby_is_open = true;
    is_playing_game = false;
    game = none;
    max_players = 2;
    num_ready = 1;
    num_players = 2;
    players = some 0 ∷ some 2 ∷ [];
    subscribers = 0 ∷ 2 ∷ [];
  };
}

table_seats :
    (s c : ℕ)
    → get_elem? table.lobby.players s ≡ some (some c)
    → (c < length table.conns) × (id_of table.conns c ≡ suc s)
table_seats zero c e = rw (← some_inj (some_inj e)) (omega arith, refl)
table_seats (suc zero) c e = rw (← some_inj (some_inj e)) (omega arith, refl)
table_seats (suc (suc s)) c e = cc

table-IsSeating : IsSeating table
table-IsSeating = record {
  limits = (omega arith, omega arith);
  size = refl;
  counted = refl;
  seated = table_seats;
  opened = refl;
}

pub table-Inv : Inv table
table-Inv = record {
  seating = table-IsSeating;
  phase = inl (record { idle = refl; no_game = refl });
}

on_disconnect_example :
    (r' : Room) × (on_disconnect 2 table ≡ ok (r', true)) × IsLeft 1 table r' × IsTold table r'
on_disconnect_example = (on_disconnect_lem 2 table table-Inv).1 1 refl

on_ready_example :
    (g : FourAcross) × (r' : Room) × (on_ready 2 2 table ≡ ok r') × IsStarted 2 table g r'
on_ready_example =
    ((on_ready_lem 2 2 table table-Inv (omega arith) (omega arith)).1 1 refl).1 (refl, refl)

-- They play, and the first client has three in a column.
abbrev pub playing_table : Room
playing_table = record table {
  lobby = record (table.lobby) { is_playing_game = true; game = some one_to_win; num_ready = 2 };
}

abbrev playing_table-IsPlaying : IsPlaying playing_table.lobby
playing_table-IsPlaying = record {
  game = one_to_win;
  playing = refl;
  has_game = refl;
  inv = one_to_win-Inv;
  unwon = refl;
  room_left = board_full_lem one_to_win one_to_win-Inv;
  all_play = refl;
  full = refl;
}

pub playing_table-Inv : Inv playing_table
playing_table-Inv = record {
  seating = regame-IsSeating table true (some one_to_win) 2 table-IsSeating;
  phase = inr playing_table-IsPlaying;
}

on_take_turn_example :
    (result : TurnResult) × (g' : FourAcross) × (r' : Room) × (take_turn one_to_win 1 0
      ≡ returned result g')
    × (on_take_turn 0 0 playing_table ≡ ok r')
    × IsTaken 1 0 playing_table one_to_win result g' r'
on_take_turn_example =
    (on_take_turn_lem 0 0 playing_table playing_table-Inv).1 playing_table-IsPlaying

-- The second client is ready again in the middle of the game, the first wins, the second leaves.
abbrev late_calls : List Call
late_calls = readies 1 2 ∷ turns 0 0 ∷ disconnects 2 ∷ []

late_calls-AreCalls : AreCalls late_calls playing_table
late_calls-AreCalls =
    a_call (readied (omega arith) (omega arith))
      (λ r e. a_call turned (λ r' e'. a_call disconnected (λ r'' e''. no_call)))

calls_example : (r' : Room) × (calls late_calls playing_table ≡ ok r') × Inv r'
calls_example = calls_lem late_calls playing_table late_calls-AreCalls playing_table-Inv

-- The first client has taken a turn: the second hears of it, and is asked for the next.
signal-sent_example :
    get_elem? (signal (on_update 1 3 success) table).conns 2
    ≡ some (record (seated_client 2) { sent = message update (1 ∷ 3 ∷ []) ∷ [] })
signal-sent_example = (signal-sent 1 3 success table 2 (seated_client 2) refl refl refl).3 (cc) refl
