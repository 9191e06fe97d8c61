-- ===== src/Server/Serving.antt =====
-- What the server of server/src/server.cpp keeps true.
use connectdisks.Prelude.{
  ℕ, suc, ◌+◌, ◌≤◌, ◌<◌, ◌≡◌, ◌≢◌, ◌∙◌, refl, sym, ap, subst, inl, inr, Bool, false, some, List, [],
  ◌∷◌, arith, length, get_elem?, set, length-set, Result, ok, ◌>>=◌, index, write_lem,
}
use connectdisks.Lobby.{Room, GameLobby, id_of, add_player}
use connectdisks.Lobby.Seats.{get_elem?-set_self_or_ne, get_elem?-lt}
use connectdisks.Lobby.Invariant.{Inv}
use connectdisks.Lobby.Joining.{add_player_lem}
use connectdisks.Server.{Server, with_lobby, add_to_lobby, max_lobbies, on_lobby_available}
use connectdisks.Server.Queue.{IsQueue, ahead, IsQueue-le, IsQueue-change, Kept, Inv-Kept}

abbrev pub room : Server → GameLobby → Room
room s lobby = record { conns = s.conns; lobby = lobby }

-- The lobbies are well formed, and are at most four, for two players each. The queue is in the order
-- of arrival, and nobody waits in it while a lobby could be made or has a free seat.
pub record IsServing (s : Server) : Type 0 where
  pub few : length s.lobbies ≤ max_lobbies
  pub lobbies :
      (l : ℕ) (x : GameLobby)
      → get_elem? s.lobbies l ≡ some x
      → Inv (room s x) × (x.max_players ≡ 2)
  pub in_order : IsQueue s.conns 0 s.player_queue
  pub needed :
      0 < length s.player_queue
      → (length s.lobbies ≡ max_lobbies)
        × ((l : ℕ) (x : GameLobby) → get_elem? s.lobbies l ≡ some x → x.num_players ≡ x.max_players)

-- A call of a lobby changes that lobby, and the connections.
pub with_lobby_lem :
    (s : Server) (l : ℕ) (x : GameLobby) (call : Room → Result (Room × Bool)) (r : Room) (b : Bool)
    → get_elem? s.lobbies l ≡ some x
    → call (room s x) ≡ ok (r, b)
    → with_lobby l call s ≡ ok (record s { conns = r.conns; lobbies = set s.lobbies l r.lobby }, b)
unfolding with_lobby index
with_lobby_lem s l x call r b at e =
    rw (at, e, write_lem s.lobbies l r.lobby (get_elem?-lt s.lobbies l at))

-- `s'` is `s` with the connection `c` in the lobby `l`, which was `x`.
pub record IsAdded (l c : ℕ) (x : GameLobby) (s s' : Server) : Type 0 where
  pub y : GameLobby
  pub lobbies : s'.lobbies ≡ set s.lobbies l y
  pub queue : s'.player_queue ≡ s.player_queue
  pub inv : Inv (room s' y)
  pub limit : y.max_players ≡ x.max_players
  pub one_more : y.num_players ≡ x.num_players + 1
  pub same_count : length s'.conns ≡ length s.conns
  pub others : (d : ℕ) → c ≢ d → id_of s'.conns d ≡ id_of s.conns d

module _ (s : Server) (l c : ℕ) (x : GameLobby) (at : get_elem? s.lobbies l ≡ some x)
    (i : Inv (room s x)) (known : c < length s.conns) (new : id_of s.conns c ≡ 0)
    (free : x.num_players < x.max_players) where
  not_playing : x.is_playing_game ≡ false
  not_playing = elim i.phase [ inl p ↦ p.idle | inr p ↦ absurd (omega (arith, p.full)) ]

  pub add_to_lobby_lem : (s' : Server) × (add_to_lobby l c s ≡ ok s') × IsAdded l c x s s'
  unfolding add_to_lobby
  add_to_lobby_lem =
      let (r, e, seated) = (add_player_lem l c (room s x) i known new).1 not_playing free in
      let called =
        with_lobby_lem s l x (λ r. add_player l c r >>= λ r'. ok (r', false)) r false at
          (rw e refl) in
      (
        record s { conns = r.conns; lobbies = set s.lobbies l r.lobby },
        rw called refl,
        record {
          y = r.lobby;
          lobbies = refl;
          queue = refl;
          inv = seated.inv;
          limit = seated.same_limit;
          one_more = seated.one_more;
          same_count = seated.same_count;
          others = seated.others;
        },
      )

-- A lobby has one seat free that nobody in the queue has taken yet.
pub record IsOpen (l : ℕ) (x : GameLobby) (s : Server) : Type 0 where
  pub few : length s.lobbies ≤ max_lobbies
  pub lobbies :
      (k : ℕ) (y : GameLobby)
      → get_elem? s.lobbies k ≡ some y
      → Inv (room s y) × (y.max_players ≡ 2)
  pub in_order : IsQueue s.conns 0 s.player_queue
  pub at : get_elem? s.lobbies l ≡ some x
  pub free : x.num_players < x.max_players
  pub needed :
      0 < length s.player_queue
      → (length s.lobbies ≡ max_lobbies)
        × (x.num_players + 1 ≡ x.max_players)
        × ((k : ℕ) (y : GameLobby)
            → l ≢ k
            → get_elem? s.lobbies k ≡ some y
            → y.num_players ≡ y.max_players)

pub Kept-added :
    (l c : ℕ) (x : GameLobby) (s s' : Server)
    → id_of s.conns c ≡ 0
    → IsAdded l c x s s'
    → Kept s.conns s'.conns
Kept-added l c x s s' new a = record {
  longer = omega (arith, a.same_count);
  same_ids = λ d _ owned. a.others d (λ h. owned (ap (id_of s.conns) (sym h) ∙ new));
}

-- The lobbies after one of them has changed.
pub set-lobbies :
    (s s' : Server) (l : ℕ) (y : GameLobby)
    → Kept s.conns s'.conns
    → s'.lobbies ≡ set s.lobbies l y
    → Inv (room s' y)
    → y.max_players ≡ 2
    → ((k : ℕ) (x : GameLobby)
        → get_elem? s.lobbies k ≡ some x
        → Inv (room s x) × (x.max_players ≡ 2))
    → (k : ℕ) (x : GameLobby) → get_elem? s'.lobbies k ≡ some x
    → Inv (room s' x) × (x.max_players ≡ 2)
set-lobbies s s' l y kept e i two old k x at =
    elim (get_elem?-set_self_or_ne s.lobbies l k y (ap (λ ls. get_elem? ls k) (sym e) ∙ at)) [
      | inl (same, v) ↦ rw (← v) (i, two)
      | inr (other, v) ↦ let (j, t) = old k x v in (Inv-Kept s.conns s'.conns x kept j, t)
    ]

module _ (l : ℕ) (x : GameLobby) (s : Server) (o : IsOpen l x s) where
  seats_next :
      (c : ℕ) (cs : List ℕ)
      → s.player_queue ≡ c ∷ cs
      → IsQueue s.conns 0 (c ∷ cs)
      → (s' : Server) × (add_to_lobby l c s ≡ ok s') × IsServing (record s' { player_queue = cs })
  seats_next c cs e (ahead low known new rest) =
      let (s', called, a) = add_to_lobby_lem s l c x o.at (o.lobbies l x o.at).0 known new o.free in
      let waiting : 0 < length s.player_queue = rw e (omega arith) in
      let (most, last, full) = o.needed waiting in
      let size : length s'.lobbies ≡ length s.lobbies =
        ap length a.lobbies ∙ length-set s.lobbies l a.y in
      (
        s',
        called,
        record {
          few = omega (arith, o.few, size);
          lobbies =
              set-lobbies s s' l a.y (Kept-added l c x s s' new a) a.lobbies a.inv
                (a.limit ∙ (o.lobbies l x o.at).1) o.lobbies;
          in_order = IsQueue-le s'.conns (suc c) 0 cs (omega arith) (
              IsQueue-change s.conns s'.conns (suc c) cs (omega (arith, a.same_count))
                (λ d h k n. a.others d (λ same. absurd (omega arith)) ∙ n) rest);
          needed = λ _. (
            size ∙ most,
            λ k y at.
                elim (get_elem?-set_self_or_ne s.lobbies l k a.y
                  (ap (λ ls. get_elem? ls k) (sym a.lobbies) ∙ at)) [
                    | inl (same, v) ↦ rw (← v) (omega (arith, a.one_more, a.limit, last))
                    | inr (other, v) ↦ full k y other v
                  ],
          );
        },
      )

  no_one : s.player_queue ≡ [] → 0 < length s.player_queue → ⊥
  no_one e h = let z = ap length e in omega arith

  seats_first :
      (q : List ℕ)
      → s.player_queue ≡ q
      → (s' : Server) × (on_lobby_available l s ≡ ok s') × IsServing s'
  unfolding on_lobby_available
  seats_first [] e = (
    s,
    rw e refl,
    record {
      few = o.few;
      lobbies = o.lobbies;
      in_order = o.in_order;
      needed = λ h. absurd (no_one e h);
    },
  )
  seats_first (c ∷ cs) e =
      let (s', called, serving) = seats_next c cs e (subst (IsQueue s.conns 0) e o.in_order) in
      (record s' { player_queue = cs }, rw (on_lobby_available, e, called) refl, serving)

  pub on_lobby_available_lem : (s' : Server) × (on_lobby_available l s ≡ ok s') × IsServing s'
  on_lobby_available_lem = seats_first s.player_queue refl
