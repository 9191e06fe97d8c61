-- ===== src/Server/Tests.antt =====
-- The theorems on the server at concrete inputs.
use connectdisks.Prelude.{
  length, ◌++◌, ◌+◌, ℕ, zero, true, suc, ◌≡◌, ◌≢◌, ◌⊎◌, refl, false, none, some, some_inj, List, [],
  ◌∷◌, ok, arith, get_elem?,
}
use connectdisks.Lobby.{GameLobby}
use connectdisks.Lobby.Invariant.{Inv}
use connectdisks.Lobby.Tests.{table, playing_table, playing_table-Inv}
use connectdisks.Server.{Server, is_alive, find_available_lobby}
use connectdisks.Server.Queue.{IsQueue, empty, ahead}
use connectdisks.Server.Positions.{IsIn, Tells, later, update_queue_positions_lem}
use connectdisks.Messaging.{message, in_queue}
use connectdisks.Connection.{Connection, create}
use connectdisks.Server.Serving.{IsServing, room}
use connectdisks.Server.Lookup.{find_available_lobby_lem}
use connectdisks.Server.Waiting.{handled-waits, run-accepting}
use connectdisks.Server.Runs.{
  Event, accepts, is_time, turns, run, AreEvents, no_event, an_event, accepted, on_time, turned,
  run_server_lem,
}

-- Numbers below 256.
abbrev pub one_byte : ℕ → List ℕ
one_byte n = 0 ∷ 0 ∷ 0 ∷ 0 ∷ 0 ∷ 0 ∷ 0 ∷ n ∷ []

-- One lobby, in which two of three clients play.
abbrev pub playing : Server
playing = record {
  conns = playing_table.conns;
  lobbies = playing_table.lobby ∷ [];
  player_queue = [];
  last_queue_size = 0;
  accepting = true;
  timer_is_set = true;
}

pub playing-IsServing : IsServing playing
playing-IsServing = record {
  few = omega arith;
  lobbies = the_lobby;
  in_order = empty;
  needed = λ w. absurd (omega arith);
}
  where
    the_lobby :
        (l : ℕ) (x : GameLobby)
        → get_elem? playing.lobbies l ≡ some x
        → Inv (room playing x) × (x.max_players ≡ 2)
    the_lobby zero x at = rw (← some_inj at) (playing_table-Inv, refl)
    the_lobby (suc l) x at = absurd (cc)

-- A player moves, two clients are accepted, and the timer is done.
abbrev pub an_hour : List Event
an_hour = turns 0 0 0 ∷ accepts false ∷ accepts false ∷ is_time ∷ []

pub an_hour-AreEvents : AreEvents one_byte an_hour playing
an_hour-AreEvents = an_event (turned {x = playing_table.lobby} refl) (λ s₁ e₁.
    let (a₁, t₁) = handled-waits one_byte (turns 0 0 0) playing s₁ e₁ in
    an_event (accepted a₁) (λ s₂ e₂.
      let (a₂, t₂) = handled-waits one_byte (accepts false) s₁ s₂ e₂ in
      an_event (accepted a₂) (λ s₃ e₃.
        let (a₃, t₃) = handled-waits one_byte (accepts false) s₂ s₃ e₃ in
        an_event (on_time (t₃ (t₂ (t₁ refl)))) (λ s₄ e₄. no_event))))

-- The server still waits for connections and for its timer.
run-accepting_example :
    (s' : Server) × (run one_byte an_hour playing ≡ ok s')
    × (s'.timer_is_set ≡ true)
    × (playing.accepting ≡ true → s'.accepting ≡ true)
    × (playing.accepting ≡ false → s'.accepting ≡ false)
    × IsServing s'
run-accepting_example =
    run-accepting one_byte an_hour playing an_hour-AreEvents playing-IsServing refl

run_server_example : (s' : Server) × (run one_byte an_hour playing ≡ ok s') × IsServing s'
run_server_example = run_server_lem one_byte an_hour playing an_hour-AreEvents playing-IsServing

abbrev two_lobbies : List GameLobby
two_lobbies = table.lobby ∷ record (table.lobby) { num_players = 1 } ∷ []

find_available_lobby_example :
    ((l : ℕ) × (x : GameLobby) × (find_available_lobby two_lobbies ≡ some l)
      × (get_elem? two_lobbies l ≡ some x)
      × (x.num_players ≢ x.max_players))
    ⊎ ((find_available_lobby two_lobbies ≡ none)
        × ((l : ℕ) (x : GameLobby)
            → get_elem? two_lobbies l ≡ some x
            → x.num_players ≡ x.max_players))
find_available_lobby_example = find_available_lobby_lem two_lobbies

-- Three clients wait, and the second of them has left.
abbrev waiting : Server
waiting = record playing {
  conns = create ∷ record create { client_is_connected = false } ∷ create ∷ [];
  lobbies = [];
  player_queue = 0 ∷ 1 ∷ 2 ∷ [];
  last_queue_size = 3;
}

waiting-IsQueue : IsQueue waiting.conns 0 waiting.player_queue
waiting-IsQueue =
    ahead (omega arith) (omega arith) refl
      (ahead (omega arith) (omega arith) refl (ahead (omega arith) (omega arith) refl empty))

update_queue_positions_example :
    ((c : ℕ)
      → IsIn c (later one_byte waiting).player_queue
      → IsIn c waiting.player_queue × (is_alive waiting.conns c ≡ true))
    × ((c : ℕ)
        → IsIn c waiting.player_queue
        → is_alive waiting.conns c ≡ true
        → IsIn c (later one_byte waiting).player_queue)
    × (Tells 3 (length (later one_byte waiting).player_queue)
        → (i c : ℕ) (x : Connection) → get_elem? (later one_byte waiting).player_queue i ≡ some c
        → get_elem? waiting.conns c ≡ some x
        → get_elem? (later one_byte waiting).conns c
          ≡ some (record x { sent = x.sent ++ message in_queue (one_byte (i + 1)) ∷ [] }))
    × ((d : ℕ)
        → ¬ IsIn d (later one_byte waiting).player_queue
        → get_elem? (later one_byte waiting).conns d ≡ get_elem? waiting.conns d)
    × (¬ Tells 3 (length (later one_byte waiting).player_queue)
        → (later one_byte waiting).conns ≡ waiting.conns)
    × ((later one_byte waiting).last_queue_size ≡ length (later one_byte waiting).player_queue)
update_queue_positions_example = update_queue_positions_lem one_byte waiting waiting-IsQueue
