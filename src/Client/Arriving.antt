-- ===== src/Client/Arriving.antt =====
-- The connections that server/src/server.cpp accepts: one of them, and the others.
use connectdisks.Prelude.{
  ℕ, ◌≡◌, ◌≢◌, refl, inl, inr, Bool, true, false, some, none, List, Result, ok, arith, get_elem?,
  length, ltb, ◌==◌, if◌then◌else◌, Bool-cases,
}
use connectdisks.Game.{min_num_players}
use connectdisks.Lobby
use connectdisks.Lobby.{GameLobby}
use connectdisks.Lobby.Seats.{get_elem?-lt, occupied-le-length}
use connectdisks.Lobby.Joining.{start-new-Inv, start-new-free}
use connectdisks.Server.{
  Server, max_lobbies, add_to_lobby, add_to_new_lobby, make_new_lobby, add_to_queue,
  on_connection_accepted, wait_for_connections,
}
use connectdisks.Server.Queue.{get_elem?-last}
use connectdisks.Server.Serving.{IsServing}
use connectdisks.Server.Accepting.{accepted, accepted-known, accepted-new, accepted-lobbies}
use connectdisks.Server.Lookup.{find_available_lobby_lem}
use connectdisks.Client.{Client}
use connectdisks.Client.Receiving.{Listens}
use connectdisks.Client.Life.{Life, moved-Life}
use connectdisks.Client.Accepted.{accepted-Life, grown-Life}
use connectdisks.Client.Called.{add_to_lobby-Life}
use connectdisks.Client.Queueing.{add_to_queue-Life}

module _ (native_to_big : ℕ → List ℕ) (big_to_native : List ℕ → ℕ) (start : Client)
    (h : Listens 0 none start) (d : ℕ) (s : Server) (i : IsServing s) where
  abbrev c : ℕ
  c = length s.conns

  abbrev Assigned : Result Server → Type 0
  Assigned m = (s' : Server) × (m ≡ ok s') × Life big_to_native start s' d

  joins-Life :
      (k : ℕ) (y : GameLobby)
      → get_elem? s.lobbies k ≡ some y
      → y.num_players ≢ y.max_players
      → Life big_to_native start (accepted s) d
      → Assigned (add_to_lobby k c (accepted s))
  joins-Life k y at free life =
      let seating = (i.lobbies k y at).0.seating in
      add_to_lobby-Life big_to_native start (accepted s) d k c y at (accepted-lobbies s i k y at).0
        (accepted-known s) (accepted-new s)
        (omega (arith, free, occupied-le-length y.players, seating.size, seating.counted)) life

  joins_new-Life :
      Life big_to_native start (accepted s) d → Assigned (add_to_new_lobby c (accepted s))
  unfolding add_to_new_lobby make_new_lobby
  joins_new-Life life =
      let fresh = Lobby.start (Lobby.new min_num_players) in
      let (limit, empty_lobby) = start-new-free min_num_players in
      add_to_lobby-Life big_to_native start (make_new_lobby (accepted s)) d (length s.lobbies) c
        fresh (get_elem?-last s.lobbies fresh)
        (start-new-Inv min_num_players (accepted s).conns (omega arith) (omega arith))
        (accepted-known s) (accepted-new s) (omega (arith, limit, empty_lobby))
        (grown-Life big_to_native start (accepted s) d life)

  grows-Life :
      Life big_to_native start (accepted s) d
      → Assigned (
          if ltb (length s.lobbies) max_lobbies
          then add_to_new_lobby c (accepted s)
          else ok (add_to_queue native_to_big c (accepted s)))
  grows-Life life = elim (Bool-cases (ltb (length s.lobbies) max_lobbies)) [
    | inl room_left ↦ rw room_left (joins_new-Life life)
    | inr most ↦ rw most (
      add_to_queue native_to_big c (accepted s),
      refl,
      add_to_queue-Life native_to_big big_to_native start (accepted s) d c (accepted-known s)
          (accepted-new s) life,
    )
  ]

  -- An accept completes.
  pub on_connection_accepted-Life :
      (failed : Bool)
      → Life big_to_native start s d
      → Assigned (on_connection_accepted native_to_big failed s)
  unfolding on_connection_accepted
  on_connection_accepted-Life true life = (
    record s { accepting = false },
    refl,
    moved-Life big_to_native start s (record s { accepting = false }) d life refl refl,
  )
  on_connection_accepted-Life false life =
      let here = accepted-Life big_to_native start h d s life in
      elim (find_available_lobby_lem s.lobbies) [
        | inl (k, y, found, at, free) ↦
            let some_lobby : (length s.lobbies == 0) ≡ false =
              ground (arith, get_elem?-lt s.lobbies k at) in
            let (s', e, later) = joins-Life k y at free here in
            (wait_for_connections s', rw (some_lobby, found, e) refl, waiting s' later)
        | inr (unseen, full) ↦
            let (s', e, later) = grows-Life here in
            elim (Bool-cases (length s.lobbies == 0)) [
              | inl no_lobby ↦ (wait_for_connections s', rw (no_lobby, e) refl, waiting s' later)
              | inr some_lobby ↦
                  (wait_for_connections s', rw (some_lobby, unseen, e) refl, waiting s' later)
            ]
      ]
    where
      waiting :
          (s' : Server)
          → Life big_to_native start s' d
          → Life big_to_native start (wait_for_connections s') d
      waiting s' life = moved-Life big_to_native start s' (wait_for_connections s') d life refl refl
