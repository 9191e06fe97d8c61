-- ===== src/Server/Runs.antt =====
-- The server from its start on: what asio delivers to it and to its connections, in any order.
use connectdisks.Prelude.{
  ℕ, ◌≤◌, ◌≡◌, ◌∙◌, refl, Bool, true, some, List, [], ◌∷◌, arith, length-modify, get_elem?, modify,
  Result, ok, ◌>>=◌,
}
use connectdisks.Connection.{Connection}
use connectdisks.Lobby.{GameLobby, on_disconnect}
use connectdisks.Lobby.Seats.{id_of-modify}
use connectdisks.Server.{Server, serve, lobby_call, on_connection_accepted, update_queue_positions}
use connectdisks.Server.Queue.{empty, IsQueue-change, Kept-all, Inv-Kept}
use connectdisks.Server.Serving.{IsServing, room}
use connectdisks.Server.Calls.{turn_call, ready_call, lobby_call_lem}
use connectdisks.Server.Handlers.{turn-IsHandled, ready-IsHandled, disconnect-IsHandled}
use connectdisks.Server.Accepting.{on_connection_accepted_lem}
use connectdisks.Server.Timer.{update_queue_positions-IsServing}

-- An accept completes, the timer is done, a connection calls one of its signals, which the lobby `l`
-- handles, or a connection changes without one.
pub data Event : Type 0 where
  accepts : Bool → Event
  is_time : Event
  disconnects : ℕ → ℕ → Event
  readies turns : ℕ → ℕ → ℕ → Event
  changes : ℕ → (Connection → Connection) → Event

pub serve-IsServing : IsServing serve
serve-IsServing = record {
  few = omega arith;
  lobbies = λ l x at. absurd (cc);
  in_order = empty;
  needed = λ w. absurd (omega arith);
}

-- An accept or the timer that is done was under way, a connection's handlers are those of a lobby,
-- the first player is one of the two, and a connection keeps its id.
pub data IsEvent : Event → Server → Type 0 where
  accepted : {failed : Bool} {s : Server} → s.accepting ≡ true → IsEvent (accepts failed) s
  on_time : {s : Server} → s.timer_is_set ≡ true → IsEvent is_time s
  disconnected :
      {l c : ℕ} {s : Server} {x : GameLobby}
      → get_elem? s.lobbies l ≡ some x
      → IsEvent (disconnects l c) s
  readied :
      {l first c : ℕ} {s : Server} {x : GameLobby}
      → get_elem? s.lobbies l ≡ some x
      → 1 ≤ first
      → first ≤ 2
      → IsEvent (readies l first c) s
  turned :
      {l c column : ℕ} {s : Server} {x : GameLobby}
      → get_elem? s.lobbies l ≡ some x
      → IsEvent (turns l c column) s
  changed :
      {c : ℕ} {f : Connection → Connection} {s : Server}
      → ((x : Connection) → (f x).id ≡ x.id)
      → IsEvent (changes c f) s

module _ (native_to_big : ℕ → List ℕ) where
  unfoldable pub handle : Event → Server → Result Server
  handle (accepts failed) s = on_connection_accepted native_to_big failed s
  handle is_time s = ok (update_queue_positions native_to_big s)
  handle (disconnects l c) s = lobby_call l (on_disconnect c) s
  handle (readies l first c) s = lobby_call l (ready_call first c) s
  handle (turns l c column) s = lobby_call l (turn_call c column) s
  handle (changes c f) s = ok (record s { conns = modify s.conns c f })

  unfoldable pub run : List Event → Server → Result Server
  unfolding handle
  run [] s = ok s
  run (e ∷ es) s = do s' ← handle e s; run es s'

  pub data AreEvents : List Event → Server → Type 0 where
    no_event : {s : Server} → AreEvents [] s
    an_event :
        {e : Event} {es : List Event} {s : Server}
        → IsEvent e s
        → ((s' : Server) → handle e s ≡ ok s' → AreEvents es s')
        → AreEvents (e ∷ es) s

  pub handle_lem :
      (e : Event) (s : Server)
      → IsEvent e s
      → IsServing s
      → (s' : Server) × (handle e s ≡ ok s') × IsServing s'
  unfolding handle
  handle_lem (accepts failed) s (accepted _) i = on_connection_accepted_lem native_to_big failed s i
  handle_lem is_time s (on_time _) i = (_, refl, update_queue_positions-IsServing native_to_big s i)
  handle_lem (disconnects l c) s (disconnected {x} at) i =
      let (r, b, e, h) = disconnect-IsHandled c (room s x) (i.lobbies l x at).0 in
      lobby_call_lem s i l x at (on_disconnect c) r b e h
  handle_lem (readies l first c) s (readied {x} at low high) i =
      let (inv, two) = i.lobbies l x at in
      let (r, e, h) = ready-IsHandled first c (room s x) inv low (omega (arith, two)) in
      lobby_call_lem s i l x at (ready_call first c) r _ e h
  handle_lem (turns l c column) s (turned {x} at) i =
      let (r, e, h) = turn-IsHandled c column (room s x) (i.lobbies l x at).0 in
      lobby_call_lem s i l x at (turn_call c column) r _ e h
  handle_lem (changes c f) s (changed keeps) i =
      let ids = id_of-modify f keeps s.conns c in
      let count = length-modify s.conns c f in
      (
        record s { conns = modify s.conns c f },
        refl,
        record {
          few = i.few;
          lobbies = λ l x at.
              let (inv, two) = i.lobbies l x at in
              (Inv-Kept s.conns _ x (Kept-all s.conns _ count ids) inv, two);
          in_order =
              IsQueue-change s.conns _ 0 s.player_queue (omega (arith, count))
                (λ d _ _ n. ids d ∙ n) i.in_order;
          needed = i.needed;
        },
      )

  -- From a state in which the server keeps what it is meant to, such as its first one, any events in
  -- any order are handled, if only an accept or a timer that is under way is done, signals are
  -- handled by lobbies that are there, each first player that is drawn is 1 or 2, and other changes of connections keep their ids: no lobby, seat or game is
  -- used that is not there, and nothing is thrown, whatever bytes `native_to_big` gives.
  -- After them there are still at most four lobbies, all well formed and for two players each, the
  -- queue is in the order of arrival, and nobody waits in it while a lobby could be made or has a
  -- free seat.
  pub run_server_lem :
      (es : List Event) (s : Server)
      → AreEvents es s
      → IsServing s
      → (s' : Server) × (run es s ≡ ok s') × IsServing s'
  unfolding run
  run_server_lem [] s no_event i = (s, refl, i)
  run_server_lem (e ∷ es) s (an_event this later) i =
      let (s', called, i') = handle_lem e s this i in
      let (s'', runs, i'') = run_server_lem es s' (later s' called) i' in (s'', rw called runs, i'')
