-- ===== src/Client/Calling.antt =====
-- The signals that server/src/server.cpp hands to its lobbies, with the connection that is seated
-- after one of them.
use connectdisks.Prelude.{
  ℕ, ◌≡◌, refl, Bool, true, false, Option, some, List, [], ◌∷◌, Result, ok, get_elem?,
  if◌then◌else◌,
}
use connectdisks.Game.{FourAcross}
use connectdisks.Connection.{Connection}
use connectdisks.Lobby.{Room, GameLobby}
use connectdisks.Lobby.Messages.{occurs}
use connectdisks.Server.{Server, on_lobby_available, lobby_call}
use connectdisks.Server.Queue.{IsQueue, empty, ahead}
use connectdisks.Server.Serving.{IsServing, IsOpen, room, with_lobby_lem}
use connectdisks.Server.Calls.{IsHandled, leaves-IsOpen}
use connectdisks.Client.{Client}
use connectdisks.Client.Mirror.{Watches, Told}
use connectdisks.Client.Seen.{after}
use connectdisks.Client.Beside.{Apart}
use connectdisks.Client.Life.{Life, called-Life, moved-Life}
use connectdisks.Client.Called.{add_to_lobby-Life}

module _ (big_to_native : List ℕ → ℕ) (start : Client) (d : ℕ) where
  -- The first of the queue takes the free seat of the lobby `k`.
  on_lobby_available-Life :
      (s : Server) (k : ℕ) (y : GameLobby)
      → IsOpen k y s
      → Life big_to_native start s d
      → (s' : Server) × (on_lobby_available k s ≡ ok s') × Life big_to_native start s' d
  unfolding on_lobby_available
  on_lobby_available-Life s k y free life = next s.player_queue refl free.in_order
    where
      next :
          (queue : List ℕ)
          → s.player_queue ≡ queue
          → IsQueue s.conns 0 queue
          → (s' : Server) × (on_lobby_available k s ≡ ok s') × Life big_to_native start s' d
      next [] e empty = (s, rw e refl, life)
      next (c ∷ cs) e (ahead low known new rest) =
          let (s', called, later) =
            add_to_lobby-Life big_to_native start s d k c y free.at (free.lobbies k y free.at).0
              known new free.free life in
          (
            record s' { player_queue = cs },
            rw (on_lobby_available, e, called) refl,
            moved-Life big_to_native start s' (record s' { player_queue = cs }) d later refl refl,
          )

  module _ (s : Server) (i : IsServing s) (k : ℕ) (y : GameLobby)
      (at : get_elem? s.lobbies k ≡ some y) (call : Room → Result (Room × Bool)) (r : Room)
      (b : Bool) (runs : call (room s y) ≡ ok (r, b)) (h : IsHandled (room s y) r b) where
    goes_on :
        (available : Bool)
        → b ≡ available
        → Life big_to_native start (after s k r) d
        → (s' : Server) × ((if available
              then on_lobby_available k (after s k r)
              else ok (after s k r))
            ≡ ok s')
          × Life big_to_native start s' d
    goes_on false e life = (after s k r, refl, life)
    goes_on true e life =
        on_lobby_available-Life (after s k r) k r.lobby (leaves-IsOpen s i k y at call r b runs h e)
          life

    -- A handler of the lobby `k`, which was `y`.
    pub lobby_call-Life :
        ((x : Connection) (o : Option FourAcross)
          → Watches (room s y) d x o
          → Told big_to_native d x o r)
        → (occurs d y.subscribers ≡ 0 → Apart d (room s y) r)
        → Life big_to_native start s d
        → (s' : Server) × (lobby_call k call s ≡ ok s') × Life big_to_native start s' d
    unfolding lobby_call
    lobby_call-Life told spared life =
        let (s', called, later) =
          goes_on b refl
            (called-Life big_to_native start s d k y r at told spared h.ids.silent life) in
        (s', rw (with_lobby_lem s k y call r b at runs) called, later)
