-- ===== src/Server/Accepting.antt =====
-- Connections that are accepted by server/src/server.cpp.
use connectdisks.Prelude.{
  ℕ, ◌≤◌, ◌<◌, ◌≡◌, ◌≢◌, ◌∙◌, refl, ap, inl, inr, Bool, true, false, Bool-cases, some, List, [],
  ◌∷◌, ◌++◌, arith, length, length-modify, get_elem?, length-set, ok, ltb, ◌==◌, if◌then◌else◌,
  modify,
}
use connectdisks.Game.{min_num_players}
use connectdisks.Connection.{Connection, create, on_accept}
use connectdisks.Connection.Rounds.{on_accept-id}
use connectdisks.Lobby
use connectdisks.Lobby.{Room, GameLobby, id_of, is_full}
use connectdisks.Lobby.Seats.{get_elem?-lt, id_of-modify, occupied-le-length}
use connectdisks.Lobby.Invariant.{Inv}
use connectdisks.Lobby.Joining.{start-new-Inv, start-new-free}
use connectdisks.Server.{
  Server, max_lobbies, add_to_lobby, make_new_lobby, add_to_new_lobby, add_to_queue,
  on_connection_accepted, notify_queue_position, wait_for_connections,
}
use connectdisks.Server.Queue.{
  get_elem?-append, get_elem?-last, IsQueue, empty, IsQueue-last, notify_queue_position-id, Kept,
  Kept-all, Inv-Kept, id_of-append, id_of-last, length-append,
}
use connectdisks.Server.Serving.{IsServing, room, Kept-added, set-lobbies, add_to_lobby_lem}
use connectdisks.Server.Lookup.{find_available_lobby_lem}

-- A connection more, which nobody in a lobby is.
abbrev pub accepted : Server → Server
accepted s = record s { accepting = false; conns = s.conns ++ on_accept create ∷ [] }

Kept-accepted : (s : Server) → Kept s.conns (accepted s).conns
Kept-accepted s = record {
  longer = omega (arith, length-append s.conns (on_accept create));
  same_ids = λ d h _. id_of-append s.conns (on_accept create) d h;
}

pub accepted-known : (s : Server) → length s.conns < length (accepted s).conns
accepted-known s = omega (arith, length-append s.conns (on_accept create))

pub accepted-new : (s : Server) → id_of (accepted s).conns (length s.conns) ≡ 0
accepted-new s = id_of-last s.conns (on_accept create) ∙ on_accept-id create

still_new :
    (s : Server) (d : ℕ) → d < length s.conns → id_of s.conns d ≡ 0 → id_of (accepted s).conns d ≡ 0
still_new s d h n = id_of-append s.conns (on_accept create) d h ∙ n

pub accepted-lobbies :
    (s : Server)
    → IsServing s
    → (l : ℕ) (x : GameLobby) → get_elem? s.lobbies l ≡ some x
    → Inv (room (accepted s) x) × (x.max_players ≡ 2)
accepted-lobbies s i l x at =
    let (inv, two) = i.lobbies l x at in
    (Inv-Kept s.conns (accepted s).conns x (Kept-accepted s) inv, two)

IsQueue-none : (conns : List Connection) (lo : ℕ) (q : List ℕ) → length q ≡ 0 → IsQueue conns lo q
IsQueue-none conns lo [] e = empty
IsQueue-none conns lo (c ∷ cs) e = absurd (omega arith)

-- With nobody waiting, a connection sits down in a lobby that is not full.
seats :
    (s : Server) (l c : ℕ) (x : GameLobby)
    → get_elem? s.lobbies l ≡ some x
    → length s.lobbies ≤ max_lobbies
    → ((k : ℕ) (y : GameLobby)
        → get_elem? s.lobbies k ≡ some y
        → Inv (room s y) × (y.max_players ≡ 2))
    → length s.player_queue ≡ 0
    → c < length s.conns
    → id_of s.conns c ≡ 0
    → x.num_players < x.max_players
    → (s' : Server) × (add_to_lobby l c s ≡ ok s') × IsServing s'
seats s l c x at few lobbies nobody known new free =
    let (s', called, a) = add_to_lobby_lem s l c x at (lobbies l x at).0 known new free in
    let none_waits : length s'.player_queue ≡ 0 = ap length a.queue ∙ nobody in
    let size : length s'.lobbies ≡ length s.lobbies =
      ap length a.lobbies ∙ length-set s.lobbies l a.y in
    (
      s',
      called,
      record {
        few = omega (arith, few, size);
        lobbies =
            set-lobbies s s' l a.y (Kept-added l c x s s' new a) a.lobbies a.inv
              (a.limit ∙ (lobbies l x at).1) lobbies;
        in_order = IsQueue-none s'.conns 0 s'.player_queue none_waits;
        needed = λ w. absurd (omega (arith, none_waits, w));
      },
    )

module _ (s : Server) (i : IsServing s) where
  -- A lobby that is not full means that nobody waits.
  nobody :
      (l : ℕ) (x : GameLobby)
      → get_elem? s.lobbies l ≡ some x
      → x.num_players ≢ x.max_players
      → length s.player_queue ≡ 0
  nobody l x at free = elim (Bool-cases (ltb 0 (length s.player_queue))) [
    | inl some_wait ↦ absurd (free ((i.needed (ground arith)).1 l x at))
    | inr none_wait ↦ ground arith
  ]

  joins :
      (l : ℕ) (x : GameLobby)
      → get_elem? s.lobbies l ≡ some x
      → x.num_players ≢ x.max_players
      → (s' : Server) × (add_to_lobby l (length s.conns) (accepted s) ≡ ok s') × IsServing s'
  joins l x at free =
      let seating = (i.lobbies l x at).0.seating in
      seats (accepted s) l (length s.conns) x at i.few (accepted-lobbies s i) (nobody l x at free)
        (accepted-known s) (accepted-new s)
        (omega (arith, free, occupied-le-length x.players, seating.size, seating.counted))

  joins_new :
      length s.lobbies < max_lobbies
      → (s' : Server) × (add_to_new_lobby (length s.conns) (accepted s) ≡ ok s') × IsServing s'
  unfolding add_to_new_lobby make_new_lobby
  joins_new room_left =
      let fresh = Lobby.start (Lobby.new min_num_players) in
      let (limit, empty_lobby) = start-new-free min_num_players in
      seats (make_new_lobby (accepted s)) (length s.lobbies) (length s.conns) fresh
        (get_elem?-last s.lobbies fresh) (omega (arith, length-append s.lobbies fresh)) grown
        none_waits (accepted-known s) (accepted-new s) (omega (arith, limit, empty_lobby))
    where
      grown :
          (l : ℕ) (x : GameLobby)
          → get_elem? (s.lobbies ++ Lobby.start (Lobby.new min_num_players) ∷ []) l ≡ some x
          → Inv (room (accepted s) x) × (x.max_players ≡ 2)
      grown l x at =
          elim (get_elem?-append s.lobbies (Lobby.start (Lobby.new min_num_players)) l at) [
            | inl old ↦ accepted-lobbies s i l x old
            | inr same ↦ rw (← same) (
              start-new-Inv min_num_players (accepted s).conns (omega arith) (omega arith),
              (start-new-free min_num_players).0,
            )
          ]

      none_waits : length s.player_queue ≡ 0
      none_waits = elim (Bool-cases (ltb 0 (length s.player_queue))) [
        | inl some_wait ↦ let (most, full) = i.needed (ground arith) in absurd (omega arith)
        | inr none_wait ↦ ground arith
      ]

  waits :
      (native_to_big : ℕ → List ℕ)
      → max_lobbies ≤ length s.lobbies
      → ((l : ℕ) (x : GameLobby) → get_elem? s.lobbies l ≡ some x → x.num_players ≡ x.max_players)
      → IsServing (add_to_queue native_to_big (length s.conns) (accepted s))
  unfolding add_to_queue
  waits native_to_big most full =
      let c = length s.conns in
      let told = notify_queue_position native_to_big (length (s.player_queue ++ c ∷ [])) in
      let conns' = modify (accepted s).conns c told in
      let ids = id_of-modify told (notify_queue_position-id native_to_big _) (accepted s).conns c in
      let count : length conns' ≡ length (accepted s).conns =
        length-modify (accepted s).conns c told in
      record {
        few = i.few;
        lobbies = λ l x at.
            let (inv, two) = accepted-lobbies s i l x at in
            (
              Inv-Kept (accepted s).conns conns' x (Kept-all (accepted s).conns conns' count ids)
                  inv,
              two,
            );
        in_order =
            IsQueue-last s.conns conns' 0 s.player_queue (omega arith)
              (omega (arith, count, accepted-known s)) (ids c ∙ accepted-new s)
              (λ d h n. ids d ∙ still_new s d h n) i.in_order;
        needed = λ _. (omega (arith, i.few), full);
      }

  -- With every lobby full, a lobby is made, or the connection waits.
  grows :
      (native_to_big : ℕ → List ℕ)
      → ((l : ℕ) (x : GameLobby) → get_elem? s.lobbies l ≡ some x → x.num_players ≡ x.max_players)
      → (s' : Server) × ((if ltb (length s.lobbies) max_lobbies
            then add_to_new_lobby (length s.conns) (accepted s)
            else ok (add_to_queue native_to_big (length s.conns) (accepted s)))
          ≡ ok s')
        × IsServing s'
  grows native_to_big full = elim (Bool-cases (ltb (length s.lobbies) max_lobbies)) [
    | inl room_left ↦
        let (s', e, serving) = joins_new (ground arith) in (s', rw room_left e, serving)
    | inr most ↦ (
      add_to_queue native_to_big (length s.conns) (accepted s),
      rw most refl,
      waits native_to_big (ground arith) full,
    )
  ]

IsServing-waits :
    (accepting : Bool) (s : Server) → IsServing s → IsServing (record s { accepting = accepting })
IsServing-waits accepting s i = record {
  few = i.few;
  lobbies = i.lobbies;
  in_order = i.in_order;
  needed = i.needed;
}

-- A connection that is accepted is served: `onConnectionAccepted` returns, no call goes to a lobby or
-- a seat that is not there, and what the server keeps true stays so.
module _ (native_to_big : ℕ → List ℕ) where
  pub on_connection_accepted_lem :
      (failed : Bool) (s : Server)
      → IsServing s
      → (s' : Server) × (on_connection_accepted native_to_big failed s ≡ ok s') × IsServing s'
  unfolding on_connection_accepted
  on_connection_accepted_lem true s i =
      (record s { accepting = false }, refl, IsServing-waits false s i)
  on_connection_accepted_lem false s i = elim (find_available_lobby_lem s.lobbies) [
    | inl (l, x, found, at, free) ↦
        let (s', e, serving) = joins s i l x at free in
        let some_lobby : (length s.lobbies == 0) ≡ false =
          ground (arith, get_elem?-lt s.lobbies l at) in
        (wait_for_connections s', rw (some_lobby, found, e) refl, IsServing-waits true s' serving)
    | inr (unseen, full) ↦
        let (s', e, serving) = grows s i native_to_big full in
        elim (Bool-cases (length s.lobbies == 0)) [
          | inl no_lobby ↦
              (wait_for_connections s', rw (no_lobby, e) refl, IsServing-waits true s' serving)
          | inr some_lobby ↦ (
            wait_for_connections s',
            rw (some_lobby, unseen, e) refl,
            IsServing-waits true s' serving,
          )
        ]
  ]
