-- ===== src/Client/Tests.antt =====
-- The theorems on a client at concrete inputs.
use connectdisks.Prelude.{
  inl, ℕ, zero, suc, ◌+◌, ◌*◌, ◌%◌, ◌<◌, ◌≡◌, ◌≢◌, ◌∙◌, refl, ap, true, false, none, some, List, [],
  ◌∷◌, arith, ok, get_elem?,
}
use Prim.Native.Nat.{◌/◌}
use connectdisks.Messaging.{Message, message, update, game_start}
use connectdisks.Prelude.{inl, ◌≤◌, ◌⊎◌, err, invalid_argument}
use connectdisks.Game.{FourAcross}
use connectdisks.Game.Tests.{one_to_win, one_to_win-Inv}
use connectdisks.Client.Totality.{Plays, PlaysOn, receive_lem}
use connectdisks.Connection.{Connection, create, readied, took_turn, arrived, on_read_socket}
use connectdisks.Server.{notify_queue_position}
use connectdisks.Lobby.{Room}
use connectdisks.Lobby.Runs.{Call, IsCall, readies, turns, calls, turned}
use connectdisks.Lobby.Tests.{table, table-Inv}
use connectdisks.Client
use connectdisks.Client.{
  Client, Notice, on_queue_update, receive, read_all, toggle_ready, send_turn, send_pong,
}
use connectdisks.Client.Reading.{IsEndian, receive-notify_queue_position, on_read_socket-send}
use connectdisks.Client.Fairness.{AreFair}
use connectdisks.Client.Mirror.{Watches}
use connectdisks.Client.Following.{AreShared, no_call, a_call, before_game, turning, read_all-calls}

-- The last `k` digits of a number to the base 256, the highest first.
abbrev big_bytes : ℕ → ℕ → List ℕ → List ℕ
big_bytes zero n rest = rest
big_bytes (suc k) n rest = big_bytes k (n / 256) (n % 256 ∷ rest)

abbrev number : ℕ → List ℕ → ℕ
number high [] = high
number high (b ∷ bs) = number (256 * high + b) bs

abbrev native_to_big : ℕ → List ℕ
native_to_big n = big_bytes 8 n []

abbrev big_to_native : List ℕ → ℕ
big_to_native bytes = number 0 bytes

abbrev places : ℕ → ℕ
places zero = 1
places (suc k) = 256 * places k

number-big_bytes :
    (k n : ℕ) (rest : List ℕ) → n < places k → number 0 (big_bytes k n rest) ≡ number n rest
number-big_bytes zero n rest small = ap (λ n. number n rest) (omega arith)
number-big_bytes (suc k) n rest small =
    number-big_bytes k (n / 256) (n % 256 ∷ rest) (omega arith)
    ∙ ap (λ n. number n rest) (omega arith)

native_to_big-IsEndian : IsEndian native_to_big big_to_native
native_to_big-IsEndian = record {
  size = λ n. refl;
  inverse = λ n small. number-big_bytes 8 n [] small;
}

receive-notify_queue_position_example :
    (m : Message) × ((notify_queue_position native_to_big 70000 create).sent ≡ m ∷ [])
    × (receive big_to_native m Client.create ≡ ok (Client.create, on_queue_update 70000 ∷ []))
receive-notify_queue_position_example =
    receive-notify_queue_position native_to_big big_to_native native_to_big-IsEndian 70000 create
      Client.create (omega arith) refl

-- The client of the first player.
abbrev first_player : Client
first_player = record (Client.create) { player_id = 1; is_connected = true; reading = true }

abbrev first_connection : Connection
first_connection = record create { id = 1; lobby = some 0; handlers = 0 ∷ [] }

on_read_socket-send_example :
    ((m : Message) × (toggle_ready first_player ≡ record first_player { sent = m ∷ [] })
      × (on_read_socket first_connection (arrived m)
          ≡ (record first_connection { client_is_ready = true; reading = false }, some readied)))
    × ((column : ℕ)
        → column ≢ 255
        → (m : Message) × (send_turn column first_player ≡ record first_player { sent = m ∷ [] })
          × (on_read_socket first_connection (arrived m)
              ≡ (first_connection, some (took_turn column))))
    × ((m : Message) × (send_pong first_player ≡ record first_player { sent = m ∷ [] })
        × (on_read_socket first_connection (arrived m)
            ≡ (record first_connection { received_pong = true }, none)))
on_read_socket-send_example = on_read_socket-send first_player first_connection refl refl

-- The second player is ready, so that a game starts, and each takes a turn.
abbrev first_calls : List Call
first_calls = readies 2 2 ∷ turns 2 3 ∷ turns 0 3 ∷ []

first_calls-AreShared : AreShared 0 first_calls table
first_calls-AreShared =
    a_call (IsCall.readied (omega arith) (omega arith)) (before_game (inl refl))
      (λ r e. a_call turned turning (λ r' e'. a_call turned turning (λ r'' e''. no_call)))

table-Watches : Watches table 0 first_connection none
table-Watches = record { at = refl; here = refl; once = refl; same = λ g e. absurd (cc) }

read_all-calls_example :
    (r' : Room) × (x' : Connection) × (ms : List Message) × (client' : Client) × (notices : List
      Notice)
    × (calls first_calls table ≡ ok r')
    × (get_elem? r'.conns 0 ≡ some x')
    × (x'.sent ≡ ms)
    × (read_all big_to_native ms first_player ≡ ok (client', notices, []))
    × (client'.player_id ≡ x'.id)
    × (client'.reading ≡ true)
    × AreFair ms
    × ((g : FourAcross) → r'.lobby.game ≡ some g → client'.game ≡ some g)
read_all-calls_example =
    read_all-calls big_to_native 0 first_calls table first_connection first_player
      first_calls-AreShared table-Inv table-Watches refl refl refl

-- In the middle of a game, the opponent's turn arrives in a column that is full or not.
abbrev playing_client : Client
playing_client = record first_player { game = some one_to_win }

playing_client-Plays : Plays playing_client
playing_client-Plays = record {
  game = one_to_win;
  has_game = refl;
  rules = one_to_win-Inv;
  some_row = omega arith;
}

abbrev opponent_turn : Message
opponent_turn = message update (2 ∷ 1 ∷ [])

receive_example :
    (opponent_turn.kind ≢ game_start
      → PlaysOn playing_client (receive big_to_native opponent_turn playing_client))
    × (opponent_turn.kind ≡ game_start
        → 2 < 256
        → 1 < 256
        → (5 ≤ 1
            → 4 ≤ 0
            → 0 < 1
            → PlaysOn playing_client (receive big_to_native opponent_turn playing_client))
          × ((1 < 5) ⊎ (0 < 4) ⊎ (1 ≤ 0)
              → receive big_to_native opponent_turn playing_client ≡ err invalid_argument))
receive_example = receive_lem big_to_native opponent_turn playing_client playing_client-Plays
