-- ===== src/Client/Seen.antt =====
-- One connection of the server, whose client follows the games of its lobby.
use connectdisks.Prelude.{
  ℕ, zero, suc, ◌<◌, ◌≡◌, ◌≢◌, ◌∙◌, sym, ap, subst, inl, inr, some, some_inj, Option, List, ◌∷◌, [],
  get_elem?, set, length, Bool-cases, ◌==◌, ==→eq, ==→ne,
}
use connectdisks.Game.{FourAcross}
use connectdisks.Connection.{Connection}
use connectdisks.Lobby.{Room, GameLobby, id_of}
use connectdisks.Lobby.Seats.{get_elem?-set_self_or_ne, get_elem?-lt}
use connectdisks.Lobby.Messages.{occurs}
use connectdisks.Server.{Server}
use connectdisks.Server.Queue.{get_elem?-set_self, get_elem?-set_ne}
use connectdisks.Server.Serving.{room}
use connectdisks.Client.Learning.{Learns, Learns-map, Learns-none}
use connectdisks.Client.Beside.{Apart}
use connectdisks.Client.Mirror.{Watches, Told}

-- The connection `d` is `x`, sits in the lobby `l`, and hears each signal of that lobby once and none
-- of another; its client's game is `o`, which is the lobby's, if the lobby has one.
pub record Seen (s : Server) (l d : ℕ) (x : Connection) (o : Option FourAcross) : Type 0 where
  pub lobby : GameLobby
  pub at : get_elem? s.lobbies l ≡ some lobby
  pub watches : Watches (room s lobby) d x o
  pub alone :
      (k : ℕ) (y : GameLobby) → k ≢ l → get_elem? s.lobbies k ≡ some y → occurs d y.subscribers ≡ 0
  pub has_id : x.id ≢ 0

pub id_of-get_elem? :
    (conns : List Connection) (d : ℕ) {x : Connection}
    → get_elem? conns d ≡ some x
    → id_of conns d ≡ x.id
id_of-get_elem? [] d e = absurd (cc)
id_of-get_elem? (y ∷ ys) zero e = ap (λ x. x.id) (some_inj e)
id_of-get_elem? (y ∷ ys) (suc d) e = id_of-get_elem? ys d e

-- The server after a call that leaves the lobby `k` and the connections as in the room `r`.
abbrev pub after : Server → ℕ → Room → Server
after s k r = record s { conns = r.conns; lobbies = set s.lobbies k r.lobby }

module _ (s : Server) (l d : ℕ) (x : Connection) (o : Option FourAcross) (w : Seen s l d x o) where
  -- A connection without an id is another one.
  pub another : (c : ℕ) → id_of s.conns c ≡ 0 → c ≢ d
  another c new same =
      w.has_id (sym (id_of-get_elem? s.conns d w.watches.at) ∙ ap (id_of s.conns) (sym same) ∙ new)

  own-Seen :
      (r : Room) (x' : Connection) (o' : Option FourAcross)
      → l < length s.lobbies
      → x'.id ≡ x.id
      → Watches r d x' o'
      → Seen (after s l r) l d x' o'
  own-Seen r x' o' known same_id w' = record {
    lobby = r.lobby;
    at = get_elem?-set_self s.lobbies l r.lobby known;
    watches = w';
    alone = λ k y other at. elim (get_elem?-set_self_or_ne s.lobbies l k r.lobby at) [
      | inl (same, v) ↦ absurd (other (sym same))
      | inr (n, v) ↦ w.alone k y other v
    ];
    has_id = λ z. w.has_id (sym same_id ∙ z);
  }

  other-Seen :
      (k : ℕ) (r : Room)
      → k ≢ l
      → get_elem? r.conns d ≡ some x
      → occurs d r.lobby.subscribers ≡ 0
      → Seen (after s k r) l d x o
  other-Seen k r other at absent = record {
    lobby = w.lobby;
    at = get_elem?-set_ne s.lobbies k l r.lobby other ∙ w.at;
    watches = record {
      at = at;
      here = w.watches.here;
      once = w.watches.once;
      same = w.watches.same;
    };
    alone = λ j y n at'. elim (get_elem?-set_self_or_ne s.lobbies k j r.lobby at') [
      | inl (same, v) ↦ ap (λ y. occurs d y.subscribers) (sym v) ∙ absent
      | inr (_, v) ↦ w.alone j y n v
    ];
    has_id = w.has_id;
  }

  -- The same connection and lobbies, whatever else of the server has changed.
  pub moved-Seen :
      (s' : Server) → get_elem? s'.conns d ≡ some x → s'.lobbies ≡ s.lobbies → Seen s' l d x o
  moved-Seen s' at e = record {
    lobby = w.lobby;
    at = ap (λ ls. get_elem? ls l) e ∙ w.at;
    watches = record {
      at = at;
      here = w.watches.here;
      once = w.watches.once;
      same = w.watches.same;
    };
    alone = λ k y n v. w.alone k y n (ap (λ ls. get_elem? ls k) (sym e) ∙ v);
    has_id = w.has_id;
  }

  module _ (big_to_native : List ℕ → ℕ) where
    -- What the client reads keeps its copy of the game up to date with `s'`.
    abbrev pub Follows : Server → Type 0
    Follows s' = Learns big_to_native x o (Seen s' l d)

    pub untold-Follows : (s' : Server) → Seen s' l d x o → Follows s'
    untold-Follows s' w' = Learns-none big_to_native w.watches.here w'

    -- A call of a lobby: of the client's, or of another.
    pub called-Follows :
        (k : ℕ) (y : GameLobby) (r : Room)
        → get_elem? s.lobbies k ≡ some y
        → (Watches (room s y) d x o → Told big_to_native d x o r)
        → (occurs d y.subscribers ≡ 0 → Apart d (room s y) r)
        → Follows (after s k r)
    called-Follows k y r at told spared = elim (Bool-cases (k == l)) [
      | inl here ↦
          let same : k ≡ l = ==→eq k l here in
          let lobby : w.lobby ≡ y =
            some_inj (sym w.at ∙ ap (get_elem? s.lobbies) (sym same) ∙ at) in
          rw same (
            Learns-map big_to_native (told (subst (λ y. Watches (room s y) d x o) lobby w.watches))
              (λ x' o' same_id w'. own-Seen r x' o' (get_elem?-lt s.lobbies l w.at) same_id w'))
      | inr there ↦
          let n : k ≢ l = ==→ne k l there in
          let (at', absent) = spared (w.alone k y n at) in
          untold-Follows (after s k r) (other-Seen k r n (at' ∙ w.watches.at) absent)
    ]
