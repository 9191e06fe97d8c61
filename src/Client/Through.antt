-- ===== src/Client/Through.antt =====
-- What one event of the server means for a client that follows the games of its lobby.
use connectdisks.Prelude.{
  ℕ, none, ◌≡◌, ◌≢◌, ◌∙◌, refl, sym, ap, subst, Bool, false, some, List, Result, ok, ok_inj, ◌>>=◌,
  get_elem?, modify, arith, ◌≤◌,
}
use connectdisks.Connection.{Connection}
use connectdisks.Lobby.{Room, GameLobby, on_disconnect}
use connectdisks.Lobby.Messages.{get_elem?-modify_ne}
use connectdisks.Lobby.Runs.{StartsNoOther}
use connectdisks.Server.{Server, lobby_call, update_queue_positions}
use connectdisks.Server.Serving.{IsServing, room}
use connectdisks.Server.Calls.{turn_call, ready_call}
use connectdisks.Server.Handlers.{turn-IsHandled, ready-IsHandled, disconnect-IsHandled}
use connectdisks.Server.Runs.{
  Event, accepts, is_time, disconnects, readies, turns, changes, IsEvent, accepted, on_time,
  disconnected, readied, turned, changed, handle,
}
use connectdisks.Client.{Client}
use connectdisks.Client.Mirror.{Told, on_take_turn-Told}
use connectdisks.Client.Sharing.{on_ready-Follows, on_disconnect-Follows}
use connectdisks.Connection.Alone.{IsAlone}
use connectdisks.Client.Beside.{turn-Apart, ready-Apart, disconnect-Apart, Apart}
use connectdisks.Client.Calling.{lobby_call-Life}
use connectdisks.Client.Parting.{alone-Life}
use connectdisks.Client.Arriving.{on_connection_accepted-Life}
use connectdisks.Client.Queueing.{update_queue_positions-Life}
use connectdisks.Client.Receiving.{Listens}
use connectdisks.Client.Life.{Life, moved-Life}

-- What happens while the client of the connection `d` plays: no ready message starts a second game
-- while a game is played in the lobby, and without the server the connection only reads, sends pings,
-- and finds that its client is gone.
pub data Spares (d : ℕ) : Event → Server → Type 0 where
  arrival : {failed : Bool} {s : Server} → Spares d (accepts failed) s
  time : {s : Server} → Spares d is_time s
  departure : {k c : ℕ} {s : Server} → Spares d (disconnects k c) s
  before_game :
      {k first c : ℕ} {s : Server}
      → ((y : GameLobby) → get_elem? s.lobbies k ≡ some y → StartsNoOther y)
      → Spares d (readies k first c) s
  turn : {k c column : ℕ} {s : Server} → Spares d (turns k c column) s
  elsewhere : {c : ℕ} {f : Connection → Connection} {s : Server} → c ≢ d → Spares d (changes c f) s
  alone :
      {c : ℕ} {f : Connection → Connection} {s : Server}
      → c ≡ d
      → ((x : Connection) → get_elem? s.conns d ≡ some x → IsAlone x (f x))
      → Spares d (changes c f) s

abbrev still_taken : Room → Result (Room × Bool)
still_taken r = ok (r, false)

-- The room that two runs of a handler leave, with what the server is told.
same_after :
    {m : Result Room} {r r' : Room} → m ≡ ok r → (m >>= still_taken) ≡ ok (r', false) → r ≡ r'
same_after e runs =
    ap (λ (p : Room × Bool). p.0) (ok_inj (sym (ap (λ m. m >>= still_taken) e) ∙ runs))

same_called :
    {m : Result (Room × Bool)} {r r' : Room} {b b' : Bool}
    → ◌≡◌ {A = Result (Room × Bool)} m (ok (r, b))
    → ◌≡◌ {A = Result (Room × Bool)} m (ok (r', b'))
    → r ≡ r'
same_called e runs = ap (λ (p : Room × Bool). p.0) (ok_inj (sym e ∙ runs))

module _ (native_to_big : ℕ → List ℕ) (big_to_native : List ℕ → ℕ) (start : Client)
    (h : Listens 0 none start) (d : ℕ) (s : Server) (i : IsServing s)
    (life : Life big_to_native start s d) where
  abbrev Lives : Result Server → Type 0
  Lives m = (s' : Server) × (m ≡ ok s') × Life big_to_native start s' d

  turns-Life :
      (k c column : ℕ) (y : GameLobby)
      → get_elem? s.lobbies k ≡ some y
      → Lives (lobby_call k (turn_call c column) s)
  turns-Life k c column y at =
      let inv = (i.lobbies k y at).0 in
      let (r, runs, handled) = turn-IsHandled c column (room s y) inv in
      lobby_call-Life big_to_native start d s i k y at (turn_call c column) r false runs handled
        (λ x o watches.
          let (r', e, i', t) =
            on_take_turn-Told big_to_native d (room s y) x o watches c column inv in
          subst (Told big_to_native d x o) (same_after e runs) t)
        (λ absent.
          let (r', e, a) = turn-Apart d (room s y) absent c column inv in
          subst (Apart d (room s y)) (same_called e runs) a)
        life

  readies-Life :
      (k first c : ℕ) (y : GameLobby)
      → get_elem? s.lobbies k ≡ some y
      → 1 ≤ first
      → first ≤ 2
      → StartsNoOther y
      → Lives (lobby_call k (ready_call first c) s)
  unfolding connectdisks.Lobby.Runs.call
  readies-Life k first c y at low high spared =
      let (inv, two) = i.lobbies k y at in
      let most : first ≤ y.max_players = omega (arith, two) in
      let (r, runs, handled) = ready-IsHandled first c (room s y) inv low most in
      lobby_call-Life big_to_native start d s i k y at (ready_call first c) r false runs handled
        (λ x o watches.
          let (r', e, i', t) =
            on_ready-Follows big_to_native d (room s y) x o watches first c inv low most spared in
          subst (Told big_to_native d x o) (same_after e runs) t)
        (λ absent.
          let (r', e, a) = ready-Apart d (room s y) absent first c inv low most in
          subst (Apart d (room s y)) (same_called e runs) a)
        life

  disconnects-Life :
      (k c : ℕ) (y : GameLobby)
      → get_elem? s.lobbies k ≡ some y
      → Lives (lobby_call k (on_disconnect c) s)
  unfolding connectdisks.Lobby.Runs.call
  disconnects-Life k c y at =
      let inv = (i.lobbies k y at).0 in
      let (r, b, runs, handled) = disconnect-IsHandled c (room s y) inv in
      lobby_call-Life big_to_native start d s i k y at (on_disconnect c) r b runs handled
        (λ x o watches.
          let (r', e, i', t) = on_disconnect-Follows big_to_native d (room s y) x o watches c inv in
          subst (Told big_to_native d x o)
            (ok_inj (sym e ∙ ap (λ m. m >>= λ (r, available). ok r) runs)) t)
        (λ absent.
          let (r', b', e, a) = disconnect-Apart d (room s y) absent c inv in
          subst (Apart d (room s y)) (same_called e runs) a)
        life

  -- One event.
  pub handle-Life : (e : Event) → IsEvent e s → Spares d e s → Lives (handle native_to_big e s)
  unfolding handle
  handle-Life (accepts failed) (accepted _) arrival =
      on_connection_accepted-Life native_to_big big_to_native start h d s i failed life
  handle-Life is_time (on_time _) time = (
    update_queue_positions native_to_big s,
    refl,
    update_queue_positions-Life native_to_big big_to_native start s d i life,
  )
  handle-Life (disconnects k c) (disconnected {x = y} at) departure = disconnects-Life k c y at
  handle-Life (readies k first c) (readied {x = y} at low high) (before_game idle) =
      readies-Life k first c y at low high (idle y at)
  handle-Life (turns k c column) (turned {x = y} at) turn = turns-Life k c column y at
  handle-Life (changes c f) (changed keeps) (elsewhere other) = (
    record s { conns = modify s.conns c f },
    refl,
    moved-Life big_to_native start s (record s { conns = modify s.conns c f }) d life
        (get_elem?-modify_ne f s.conns c d other) refl,
  )
  handle-Life (changes c f) (changed keeps) (alone same own) = (
    record s { conns = modify s.conns c f },
    refl,
    rw same (alone-Life big_to_native start d s f own life),
  )
