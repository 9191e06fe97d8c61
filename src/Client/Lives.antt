-- ===== src/Client/Lives.antt =====
-- The life of a client at concrete inputs.
use connectdisks.Prelude.{
  inl, ℕ, ◌≡◌, ◌≢◌, ◌∙◌, refl, sym, ap, subst, true, false, none, some, List, [], ◌∷◌, ok, ok_inj,
  some_inj, arith, get_elem?,
}
use connectdisks.Messaging.{message, ping, connected}
use connectdisks.Connection.{Connection, create}
use connectdisks.Lobby.{GameLobby}
use connectdisks.Lobby.Runs.{StartsNoOther}
use connectdisks.Server.{Server, serve}
use connectdisks.Server.Runs.{
  Event, accepts, readies, handle, run, AreEvents, no_event, an_event, accepted, readied,
}
use connectdisks.Client
use connectdisks.Client.Through.{arrival, before_game}
use connectdisks.Client.Served
use connectdisks.Client.Served.{AreSpared, IsUpToDate, serve-IsUpToDate}

abbrev pub one_byte : ℕ → List ℕ
one_byte n = 0 ∷ 0 ∷ 0 ∷ 0 ∷ 0 ∷ 0 ∷ 0 ∷ n ∷ []

abbrev seated : ℕ → Connection
seated id = record create {
  id = id;
  lobby = some 0;
  handlers = 0 ∷ [];
  sent = message ping [] ∷ message connected (id ∷ []) ∷ [];
  reading = true;
  waiting = true;
}

abbrev first_lobby : GameLobby
first_lobby = record {
  lobby_is_open = true;
  is_playing_game = false;
  game = none;
  max_players = 2;
  num_ready = 0;
  num_players = 1;
  players = some 0 ∷ none ∷ [];
  subscribers = 0 ∷ [];
}

-- The server after the first client has come, after the second has, and after the first is ready.
abbrev one_served : Server
one_served = record serve { conns = seated 1 ∷ []; lobbies = first_lobby ∷ [] }

abbrev two_served : Server
two_served = record serve {
  conns = seated 1 ∷ seated 2 ∷ [];
  lobbies =
      record first_lobby {
        num_players = 2;
        players = some 0 ∷ some 1 ∷ [];
        subscribers = 0 ∷ 1 ∷ [];
      }
      ∷ [];
}

first_comes : handle one_byte (accepts false) serve ≡ ok one_served
unfolding handle connectdisks.Server.on_connection_accepted connectdisks.Prelude.index
    connectdisks.Lobby.add_player connectdisks.Lobby.start connectdisks.Lobby.new
    connectdisks.Prelude.write connectdisks.Connection.set_id connectdisks.Connection.on_accept
first_comes = refl

second_comes : handle one_byte (accepts false) one_served ≡ ok two_served
unfolding handle connectdisks.Server.on_connection_accepted connectdisks.Prelude.index
    connectdisks.Lobby.add_player connectdisks.Prelude.write connectdisks.Connection.set_id
    connectdisks.Connection.on_accept
second_comes = refl

abbrev one_ready : Server
one_ready = record two_served {
  lobbies =
      record first_lobby {
        num_ready = 1;
        num_players = 2;
        players = some 0 ∷ some 1 ∷ [];
        subscribers = 0 ∷ 1 ∷ [];
      }
      ∷ [];
}

first_is_ready : handle one_byte (readies 0 2 0) two_served ≡ ok one_ready
unfolding handle connectdisks.Server.lobby_call connectdisks.Prelude.index
    connectdisks.Lobby.on_ready connectdisks.Prelude.write
first_is_ready = refl

-- Two clients come, and both are ready, so that a game starts.
abbrev pub first_game : List Event
first_game = accepts false ∷ accepts false ∷ readies 0 2 0 ∷ readies 0 2 1 ∷ []

next :
    (P : Server → Type 0) (e : Event) (s s₁ : Server)
    → handle one_byte e s ≡ ok s₁
    → P s₁
    → (s' : Server) → handle one_byte e s ≡ ok s'
    → P s'
next P e s s₁ known p s' called = subst P (ok_inj (sym known ∙ called)) p

pub first_game-AreEvents : AreEvents one_byte first_game serve
first_game-AreEvents = an_event (accepted refl) (
    next (AreEvents one_byte _) (accepts false) _ _ first_comes (
      an_event (accepted refl) (
        next (AreEvents one_byte _) (accepts false) _ _ second_comes (
          an_event (readied refl (omega arith) (omega arith)) (
            next (AreEvents one_byte _) (readies 0 2 0) _ _ first_is_ready
              (an_event (readied refl (omega arith) (omega arith)) (λ s e. no_event)))))))

nobody_plays :
    (s : Server) (l : GameLobby)
    → get_elem? s.lobbies 0 ≡ some l
    → l.is_playing_game ≡ false
    → (y : GameLobby) → get_elem? s.lobbies 0 ≡ some y
    → StartsNoOther y
nobody_plays s l at idle y at' =
    inl (ap (λ (y : GameLobby). y.is_playing_game) (some_inj (sym at' ∙ at)) ∙ idle)

pub first_game-AreSpared : AreSpared one_byte 1 first_game serve
first_game-AreSpared = Served.an_event arrival (
    next (AreSpared one_byte 1 _) (accepts false) _ _ first_comes (
      Served.an_event arrival (
        next (AreSpared one_byte 1 _) (accepts false) _ _ second_comes (
          Served.an_event (before_game (nobody_plays two_served _ refl refl)) (
            next (AreSpared one_byte 1 _) (readies 0 2 0) _ _ first_is_ready (
              Served.an_event (before_game (nobody_plays one_ready _ refl refl))
                (λ s e. Served.no_event)))))))

-- The second client.
serve-IsUpToDate_example :
    (s' : Server) × (run one_byte first_game serve ≡ ok s')
    × ((x : Connection)
        → get_elem? s'.conns 1 ≡ some x
        → IsUpToDate (λ bytes. 0) (Client.wait_for_messages Client.create) s' 1 x)
unfolding Client.wait_for_messages
serve-IsUpToDate_example =
    serve-IsUpToDate one_byte (λ bytes. 0) (Client.wait_for_messages Client.create) 1 first_game
      refl refl refl refl first_game-AreEvents first_game-AreSpared
