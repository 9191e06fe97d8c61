-- ===== src/Client/Served.antt =====
-- Any client of the server, from the start of the server on, whatever is delivered to the server.
use connectdisks.Prelude.{
  ℕ, ◌≡◌, ◌≢◌, ◌∙◌, refl, sym, subst, Bool, true, false, none, some, List, [], ◌∷◌, ok, ok_inj,
  get_elem?, some_inj,
}
use connectdisks.Game.{FourAcross}
use connectdisks.Connection.{Connection}
use connectdisks.Lobby.{GameLobby}
use connectdisks.Lobby.Messages.{occurs}
use connectdisks.Server.{Server, serve}
use connectdisks.Server.Serving.{IsServing}
use connectdisks.Server.Runs
use connectdisks.Server.Runs.{Event, handle, run, AreEvents, handle_lem, serve-IsServing}
use connectdisks.Client.{Client, Notice, read_all}
use connectdisks.Client.Fairness.{AreFair}
use connectdisks.Client.Receiving.{Listens}
use connectdisks.Client.Heard.{Knows-Reads}
use connectdisks.Client.Life.{Life, comes, waits, sits, leaves}
use connectdisks.Client.Through.{Spares, handle-Life}

-- All events spare the client of the connection `d`.
pub data AreSpared (native_to_big : ℕ → List ℕ) (d : ℕ) : List Event → Server → Type 0 where
  no_event : {s : Server} → AreSpared native_to_big d [] s
  an_event :
      {e : Event} {es : List Event} {s : Server}
      → Spares d e s
      → ((s' : Server) → handle native_to_big e s ≡ ok s' → AreSpared native_to_big d es s')
      → AreSpared native_to_big d (e ∷ es) s

module _ (big_to_native : List ℕ → ℕ) (start : Client) where
  -- The client has read what its connection has sent, with nothing left over, and reads on. Unless
  -- it is gone, it has the connection's id, and, if that is the id of a seat, the game of its
  -- lobby, if there is one.
  pub record IsUpToDate (s : Server) (d : ℕ) (x : Connection) : Type 0 where
    pub client : Client
    pub notices : List Notice
    pub reads : read_all big_to_native x.sent start ≡ ok (client, notices, [])
    pub reading : client.reading ≡ true
    pub fair : AreFair x.sent
    pub same_id : x.client_is_connected ≡ true → client.player_id ≡ x.id
    pub same_game :
        x.client_is_connected ≡ true
        → x.id ≢ 0
        → (l : ℕ) × (lobby : GameLobby) × (get_elem? s.lobbies l ≡ some lobby)
          × (occurs d lobby.subscribers ≡ 1)
          × ((g : FourAcross) → lobby.game ≡ some g → client.game ≡ some g)

  Life-IsUpToDate :
      (s : Server) (d : ℕ) (x : Connection)
      → Life big_to_native start s d
      → get_elem? s.conns d ≡ some x
      → IsUpToDate s d x
  Life-IsUpToDate s d x (comes w) at = absurd (cc)
  Life-IsUpToDate s d x (waits y w) at = subst (IsUpToDate s d) (some_inj (sym w.outside.at ∙ at)) (
      let v = Knows-Reads big_to_native start y.sent y.id none w.heard.knows in
      record {
        client = v.after;
        notices = v.notices;
        reads = v.reads;
        reading = v.holds.reading;
        same_id = λ here. v.holds.same_id;
        fair = w.heard.fair;
        same_game = λ here n. absurd (n w.no_id);
      })
  Life-IsUpToDate s d x (sits l y o w heard) at =
      subst (IsUpToDate s d) (some_inj (sym w.watches.at ∙ at)) (
        let v = Knows-Reads big_to_native start y.sent y.id o heard.knows in
        record {
          client = v.after;
          notices = v.notices;
          reads = v.reads;
          reading = v.holds.reading;
          same_id = λ here. v.holds.same_id;
          fair = heard.fair;
          same_game = λ here n.
              (l, w.lobby, w.at, w.watches.once, λ g e. v.holds.same_game ∙ w.watches.same g e);
        })
  Life-IsUpToDate s d x (leaves y w) at = subst (IsUpToDate s d) (some_inj (sym w.at ∙ at)) (
      let v = Knows-Reads big_to_native start y.sent w.id w.game w.knows in
      record {
        client = v.after;
        notices = v.notices;
        reads = v.reads;
        reading = v.holds.reading;
        fair = w.fair;
        same_id = λ here. absurd (not_both w.gone here);
        same_game = λ here n. absurd (not_both w.gone here);
      })
    where
      not_both : {b : Bool} → b ≡ false → b ≡ true → ⊥
      not_both gone here = cc

module _ (native_to_big : ℕ → List ℕ) (big_to_native : List ℕ → ℕ) (start : Client)
    (h : Listens 0 none start) (d : ℕ) where
  run-event :
      (e : Event) (es : List Event) (s s₁ s' : Server)
      → handle native_to_big e s ≡ ok s₁
      → run native_to_big es s₁ ≡ ok s'
      → run native_to_big (e ∷ es) s ≡ ok s'
  unfolding run
  run-event e es s s₁ s' called runs = rw called runs

  run-Life :
      (es : List Event) (s : Server)
      → AreEvents native_to_big es s
      → AreSpared native_to_big d es s
      → IsServing s
      → Life big_to_native start s d
      → (s' : Server) × (run native_to_big es s ≡ ok s') × Life big_to_native start s' d
  unfolding run
  run-Life [] s Runs.no_event no_event i life = (s, refl, life)
  run-Life (e ∷ es) s (Runs.an_event this later) (an_event spared next) i life =
      let (s₁, called, life₁) =
        handle-Life native_to_big big_to_native start h d s i life e this spared in
      let (s₂, called', i') = handle_lem native_to_big e s this i in
      let i₁ = subst IsServing (ok_inj (sym called' ∙ called)) i' in
      let (s', runs, life') = run-Life es s₁ (later s₁ called) (next s₁ called) i₁ life₁ in
      (s', run-event e es s s₁ s' called runs, life')

-- Any client of a server, from the server's start on. Events as those of `run_server_lem` are all
-- handled, in any number and order: clients arrive, wait in the queue, are seated in lobbies, play
-- and leave, and the timer is done. Take the connection that is accepted as number `d`, if that
-- many are, under these conditions on the events: while a lobby plays a game, no ready message
-- makes the count of ready clients there, a `uint8_t`, the number of its players again; and without
-- the server this connection only reads, sends pings, and finds that its client is gone. Its client
-- starts with a socket, an outstanding read, no id and no game. It takes every message that the
-- connection has sent from its socket, one for each read that is outstanding, with none left over,
-- and a read is outstanding after them: no exception was thrown and no null pointer used, and none
-- of the messages is the start of a game on a board that cannot be. Unless the connection has found
-- that the client is gone, the client has the connection's id, and if that is the id of a seat, the
-- connection hears each signal of one lobby once, and if that lobby has a game, the client has the
-- same game: the same board, players, turn number and winner.
pub serve-IsUpToDate :
    (native_to_big : ℕ → List ℕ) (big_to_native : List ℕ → ℕ) (start : Client) (d : ℕ)
    (es : List Event)
    → start.has_socket ≡ true
    → start.player_id ≡ 0
    → start.game ≡ none
    → start.reading ≡ true
    → AreEvents native_to_big es serve
    → AreSpared native_to_big d es serve
    → (s' : Server) × (run native_to_big es serve ≡ ok s')
      × ((x : Connection) → get_elem? s'.conns d ≡ some x → IsUpToDate big_to_native start s' d x)
serve-IsUpToDate native_to_big big_to_native start d es socket no_id no_game reading events spared =
    let h : Listens 0 none start = record {
      socket = socket;
      same_id = no_id;
      same_game = no_game;
      reading = reading;
    } in
    let (s', runs, life) =
      run-Life native_to_big big_to_native start h d es serve events spared serve-IsServing
        (comes (record { at = refl; absent = λ k y v. absurd (cc) })) in
    (s', runs, λ x at. Life-IsUpToDate big_to_native start s' d x life at)
