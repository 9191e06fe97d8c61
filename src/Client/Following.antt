-- ===== src/Client/Following.antt =====
-- A client that reads what it is sent follows the games of its lobby.
use connectdisks.Prelude.{
  ℕ, ◌≡◌, ◌≢◌, ◌∙◌, refl, sym, true, some, Option, List, [], ◌∷◌, ◌++◌, ok, get_elem?,
}
use connectdisks.Messaging.{Message}
use connectdisks.Game.{FourAcross}
use connectdisks.Connection.{Connection}
use connectdisks.Lobby.{Room}
use connectdisks.Lobby.Invariant.{Inv}
use connectdisks.Lobby.Runs.{
  Call, adds, disconnects, readies, turns, changes, call, calls, IsCall, added, disconnected,
  readied, turned, changed, StartsNoOther,
}
use connectdisks.Client.{Client, Notice, read_all}
use connectdisks.Client.Fairness.{AreFair}
use connectdisks.Client.Stages.{Understands-Reads}
use connectdisks.Client.Learning.{Learns-then}
use connectdisks.Client.Sharing.{
  Follows, add_player-Follows, on_disconnect-Follows, on_ready-Follows, changes-Follows,
}
use connectdisks.Client.Mirror.{Watches, Told, untold, on_take_turn-Told}

-- The calls that are made while a client follows: others are seated and others change, and no second
-- game starts while one is played.
pub data IsShared (d : ℕ) : Call → Room → Type 0 where
  another : {l c : ℕ} {r : Room} → c ≢ d → IsShared d (adds l c) r
  leaving : {c : ℕ} {r : Room} → IsShared d (disconnects c) r
  before_game : {first c : ℕ} {r : Room} → StartsNoOther r.lobby → IsShared d (readies first c) r
  turning : {c column : ℕ} {r : Room} → IsShared d (turns c column) r
  elsewhere : {c : ℕ} {f : Connection → Connection} {r : Room} → c ≢ d → IsShared d (changes c f) r

module _ (big_to_native : List ℕ → ℕ) (d : ℕ) (r : Room) (x : Connection) (o : Option FourAcross)
    (w : Watches r d x o) where
  call-Follows :
      (k : Call) → IsCall k r → IsShared d k r → Inv r → Follows big_to_native d r x o w k
  unfolding call
  call-Follows (adds l c) (added known fresh) (another other) i =
      add_player-Follows big_to_native d r x o w l c i known fresh other
  call-Follows (disconnects c) disconnected leaving i =
      on_disconnect-Follows big_to_native d r x o w c i
  call-Follows (readies first c) (readied low high) (before_game spared) i =
      on_ready-Follows big_to_native d r x o w first c i low high spared
  call-Follows (turns c column) turned turning i =
      on_take_turn-Told big_to_native d r x o w c column i
  call-Follows (changes c f) (changed keeps) (elsewhere other) i =
      changes-Follows big_to_native d r x o w c f i keeps other

pub data AreShared (d : ℕ) : List Call → Room → Type 0 where
  no_call : {r : Room} → AreShared d [] r
  a_call :
      {k : Call} {ks : List Call} {r : Room}
      → IsCall k r
      → IsShared d k r
      → ((r' : Room) → call k r ≡ ok r' → AreShared d ks r')
      → AreShared d (k ∷ ks) r

module _ (big_to_native : List ℕ → ℕ) (d : ℕ) where
  calls-Told :
      (ks : List Call) (r : Room) (x : Connection) (o : Option FourAcross)
      → AreShared d ks r
      → Inv r
      → Watches r d x o
      → (r' : Room) × (calls ks r ≡ ok r') × Told big_to_native d x o r'
  unfolding calls
  calls-Told [] r x o no_call i w = (r, refl, untold big_to_native d r x o w r refl refl (λ g h. h))
  calls-Told (k ∷ ks) r x o (a_call this shared later) i w =
      let (r', e, i', t) = call-Follows big_to_native d r x o w k this shared i in
      let (r'', es, u) = calls-Told ks r' t.x' t.o' (later r' e) i' t.after in
      (r'', rw e es, Learns-then big_to_native t u)

  -- A room is well formed, a connection of it is connected and hears each of the lobby's signals
  -- once, and its client has a socket, has an outstanding read, and has the connection's id and, if
  -- the lobby has a game, a copy of that game. Then calls of the lobby's member functions, in any
  -- number and order, all return, under these conditions, which `AreShared` says: a connection that
  -- is added has no id and is not the client's, each first player that is drawn is one of the
  -- lobby's, while a game is played no ready message makes the count of ready clients, a `uint8_t`,
  -- the number of players again, and other connections may change but keep their ids. Whatever
  -- messages the connection then has sent in addition, the client takes each from its socket, one
  -- for each read that is outstanding, with none left over, no exception and no null pointer used;
  -- a read is outstanding after them, it keeps its id, and if the lobby has a game after the calls,
  -- the client has that game: the same board, players, turn number and winner. None of the messages
  -- is the start of a game on a board that cannot be.
  pub read_all-calls :
      (ks : List Call) (r : Room) (x : Connection) (client : Client)
      → AreShared d ks r
      → Inv r
      → Watches r d x client.game
      → client.player_id ≡ x.id
      → client.has_socket ≡ true
      → client.reading ≡ true
      → (r' : Room) × (x' : Connection) × (ms : List Message) × (client' : Client) × (notices : List
          Notice)
        × (calls ks r ≡ ok r')
        × (get_elem? r'.conns d ≡ some x')
        × (x'.sent ≡ x.sent ++ ms)
        × (read_all big_to_native ms client ≡ ok (client', notices, []))
        × (client'.player_id ≡ x'.id)
        × (client'.reading ≡ true)
        × AreFair ms
        × ((g : FourAcross) → r'.lobby.game ≡ some g → client'.game ≡ some g)
  read_all-calls ks r x client shared i w same_id socket reading =
      let (r', e, t) = calls-Told ks r x client.game shared i w in
      let v =
        Understands-Reads big_to_native x.id t.ms client.game t.o' t.understood client
          (record { socket = socket; same_id = same_id; same_game = refl; reading = reading }) in
      (
        r',
        t.x',
        t.ms,
        v.after,
        v.notices,
        e,
        t.after.at,
        t.sent,
        v.reads,
        v.holds.same_id ∙ sym t.same_id,
        v.holds.reading,
        t.fair,
        λ g h. v.holds.same_game ∙ t.after.same g h,
      )
