-- ===== src/Lobby/Runs.antt =====
-- A lobby from its start on: calls of its four member functions in any number and order.
use connectdisks.Prelude.{
  u8, ◌+◌, ◌≢◌, ℕ, true, false, ◌≤◌, ◌<◌, ◌≡◌, ◌∙◌, refl, inl, inr, List, [], ◌∷◌, Result, ok,
  ◌>>=◌, arith, length, true, modify, length-modify, Bool-cases, leb, Option-cases, ◌||◌, ◌⊎◌, ◌&&◌,
}
use connectdisks.Connection.{Connection}
use connectdisks.Game.{FourAcross}
use connectdisks.Lobby.{
  Room, GameLobby, add_player, on_disconnect, on_ready, on_take_turn, id_of, find_player,
  all_players_are_ready, is_full,
}
use connectdisks.Lobby.Seats.{find_player_lem, id_of-modify}
use connectdisks.Lobby.Invariant.{Inv}
use connectdisks.Lobby.Joining.{IsSeated, add_player_lem}
use connectdisks.Lobby.Leaving.{IsLeft, IsTold, leave_lem}
use connectdisks.Lobby.Starting.{IsStarted, counted, counted-Inv, begin_lem}
use connectdisks.Lobby.Turns.{on_take_turn_lem}

-- A call of the lobby, or a change of one connection in which the lobby has no part.
pub data Call : Type 0 where
  adds : ℕ → ℕ → Call
  disconnects : ℕ → Call
  readies turns : ℕ → ℕ → Call
  changes : ℕ → (Connection → Connection) → Call

unfoldable pub call : Call → Room → Result Room
call (adds l c) r = add_player l c r
call (disconnects c) r = do (r', available) ← on_disconnect c r; ok r'
call (readies first c) r = on_ready first c r
call (turns c column) r = on_take_turn c column r
call (changes c f) r = ok (record r { conns = modify r.conns c f })

unfoldable pub calls : List Call → Room → Result Room
unfolding call
calls [] r = ok r
calls (k ∷ ks) r = do r' ← call k r; calls ks r'

-- The server adds connections that have no id yet, the first player is one, and a connection keeps
-- its id.
pub data IsCall : Call → Room → Type 0 where
  added : {l c : ℕ} {r : Room} → c < length r.conns → id_of r.conns c ≡ 0 → IsCall (adds l c) r
  disconnected : {c : ℕ} {r : Room} → IsCall (disconnects c) r
  readied :
      {first c : ℕ} {r : Room}
      → 1 ≤ first
      → first ≤ r.lobby.max_players
      → IsCall (readies first c) r
  turned : {c column : ℕ} {r : Room} → IsCall (turns c column) r
  changed :
      {c : ℕ} {f : Connection → Connection} {r : Room}
      → ((x : Connection) → (f x).id ≡ x.id)
      → IsCall (changes c f) r

pub data AreCalls : List Call → Room → Type 0 where
  no_call : {r : Room} → AreCalls [] r
  a_call :
      {k : Call} {ks : List Call} {r : Room}
      → IsCall k r
      → ((r' : Room) → call k r ≡ ok r' → AreCalls ks r')
      → AreCalls (k ∷ ks) r

abbrev Keeps : Call → Room → Type 0
Keeps k r = (r' : Room) × (call k r ≡ ok r') × Inv r'

-- Either nobody in the lobby has that id, or somebody leaves.
pub on_disconnect_cases :
    (c : ℕ) (r : Room)
    → Inv r
    → (on_disconnect c r ≡ ok (r, false))
      ⊎ ((s : ℕ) × (r' : Room) × (on_disconnect c r ≡ ok (r', true)) × IsLeft s r r' × IsTold r r')
unfolding on_disconnect
on_disconnect_cases c r i = elim (Option-cases (find_player r.conns r.lobby.players c)) [
  | inl unseen ↦ inl (rw (on_disconnect, unseen))
  | inr ((s, d), found) ↦
      let (seat, same) = find_player_lem r.conns r.lobby.players c found in
      let (r', e, left, told) = leave_lem r i s d seat in
      inr (s, r', rw (on_disconnect, found, e), left, told)
]

on_disconnect-Keeps : (c : ℕ) (r : Room) → Inv r → Keeps (disconnects c) r
unfolding call
on_disconnect-Keeps c r i = elim (on_disconnect_cases c r i) [
  | inl e ↦ (r, rw e refl, i)
  | inr (s, r', e, left, told) ↦ (r', rw e refl, left.inv)
]

-- No game is played, or one more ready client does not make as many as there are players.
abbrev pub StartsNoOther : GameLobby → Type 0
StartsNoOther l = (l.is_playing_game ≡ false) ⊎ (u8 (l.num_ready + 1) ≢ l.num_players)

-- Either nobody in the lobby has that id, or one more client is counted, and a game may start.
pub on_ready_cases :
    (first c : ℕ) (r : Room)
    → Inv r
    → 1 ≤ first
    → first ≤ r.lobby.max_players
    → (on_ready first c r ≡ ok r)
      ⊎ (on_ready first c r ≡ ok (counted r))
      ⊎ ((g : FourAcross) × (r' : Room) × (on_ready first c r ≡ ok r')
          × IsStarted first r g r'
          × (u8 (r.lobby.num_ready + 1) ≡ r.lobby.num_players))
unfolding on_ready
on_ready_cases first c r i low high = elim (Option-cases (find_player r.conns r.lobby.players c)) [
  | inl unseen ↦ inl (rw (on_ready, unseen))
  | inr (seat, found) ↦
      elim (Bool-cases (all_players_are_ready (counted r).lobby && is_full (counted r).lobby)) [
        | inl complete ↦
            let full : r.lobby.num_players ≡ r.lobby.max_players = ground (arith, complete) in
            let (g, r', e, started) = begin_lem first r i low high full in
            inr (inr (g, r', rw (on_ready, found, complete) e, started, ground (arith, complete)))
        | inr waiting ↦ inr (inl (rw (on_ready, found, waiting)))
      ]
]

on_ready-Keeps :
    (first c : ℕ) (r : Room)
    → Inv r
    → 1 ≤ first
    → first ≤ r.lobby.max_players
    → Keeps (readies first c) r
unfolding call
on_ready-Keeps first c r i low high = elim (on_ready_cases first c r i low high) [
  | inl e ↦ (r, e, i)
  | inr (inl e) ↦ (counted r, e, counted-Inv r i)
  | inr (inr (g, r', e, started, all_ready)) ↦ (r', e, started.inv)
]

on_take_turn-Keeps : (c column : ℕ) (r : Room) → Inv r → Keeps (turns c column) r
unfolding call
on_take_turn-Keeps c column r i =
    let l = on_take_turn_lem c column r i in
    elim i.phase [
      | inl p ↦ let (e, inv) = l.0 p.idle in (_, e, inv)
      | inr p ↦ let (t, g', r', played, e, taken) = l.1 p in (r', e, taken.inv)
    ]

-- Either the client is refused, or it sits down.
pub add_player_cases :
    (l c : ℕ) (r : Room)
    → Inv r
    → c < length r.conns
    → id_of r.conns c ≡ 0
    → (add_player l c r ≡ ok r) ⊎ ((r' : Room) × (add_player l c r ≡ ok r') × IsSeated l c r r')
add_player_cases l c r i known fresh =
    let a = add_player_lem l c r i known fresh in
    elim (Bool-cases (r.lobby.is_playing_game || leb r.lobby.max_players r.lobby.num_players)) [
      | inl refused ↦ inl (a.0 (refusal refused))
      | inr open_seat ↦ inr (a.1 (ground arith) (ground arith))
    ]
  where
    refusal :
        (r.lobby.is_playing_game || leb r.lobby.max_players r.lobby.num_players) ≡ true
        → (r.lobby.is_playing_game ≡ true) ⊎ (r.lobby.max_players ≤ r.lobby.num_players)
    refusal refused = elim (Bool-cases r.lobby.is_playing_game) [
      | inl playing ↦ inl playing
      | inr idle ↦ inr (ground arith)
    ]

add_player-Keeps :
    (l c : ℕ) (r : Room) → Inv r → c < length r.conns → id_of r.conns c ≡ 0 → Keeps (adds l c) r
unfolding call
add_player-Keeps l c r i known fresh = elim (add_player_cases l c r i known fresh) [
  | inl e ↦ (r, e, i)
  | inr (r', e, seated) ↦ (r', e, seated.inv)
]

pub changes-Inv :
    (c : ℕ) (f : Connection → Connection) (r : Room)
    → Inv r
    → ((x : Connection) → (f x).id ≡ x.id)
    → Inv (record r { conns = modify r.conns c f })
changes-Inv c f r i keeps =
    let s = i.seating in
    record {
      seating = record {
        limits = s.limits;
        size = s.size;
        counted = s.counted;
        seated = λ t d e.
            let (l, k) = s.seated t d e in
            (omega (arith, length-modify r.conns c f), id_of-modify f keeps r.conns c d ∙ k);
        opened = s.opened;
      };
      phase = i.phase;
    }

call-Keeps : (k : Call) (r : Room) → IsCall k r → Inv r → Keeps k r
unfolding call
call-Keeps (adds l c) r (added known fresh) i = add_player-Keeps l c r i known fresh
call-Keeps (disconnects c) r disconnected i = on_disconnect-Keeps c r i
call-Keeps (readies first c) r (readied low high) i = on_ready-Keeps first c r i low high
call-Keeps (turns c column) r turned i = on_take_turn-Keeps c column r i
call-Keeps (changes c f) r (changed keeps) i = (_, refl, changes-Inv c f r i keeps)

-- From a well-formed room, such as that of a lobby just started, calls of `addPlayer` with
-- connections that have no id, of `onDisconnect`, `onReady` and `onTakeTurn` with any connections, and
-- changes of connections that keep their ids, in any number and order, all return, if each first
-- player that is drawn is one of the lobby's: no null pointer to a game is used, and no seat is
-- written that is not there. The room after them is well formed.
pub calls_lem :
    (ks : List Call) (r : Room)
    → AreCalls ks r
    → Inv r
    → (r' : Room) × (calls ks r ≡ ok r') × Inv r'
unfolding calls
calls_lem [] r no_call i = (r, refl, i)
calls_lem (k ∷ ks) r (a_call this later) i =
    let (r', e, i') = call-Keeps k r this i in
    let (r'', es, i'') = calls_lem ks r' (later r' e) i' in (r'', rw e es, i'')
