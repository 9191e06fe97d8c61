-- ===== src/Client/Totality.antt =====
-- Which messages a client can handle while it has a game.
use connectdisks.Prelude.{
  ℕ, ◌≡◌, ◌≢◌, ◌≤◌, ◌<◌, ◌⊎◌, ◌∙◌, refl, ap, inl, inr, true, Bool-cases, some, List, [], ◌∷◌, ok,
  err, Result, ◌>>=◌, invalid_argument, arith,
}
use connectdisks.Messaging.{
  MessageType, Message, message, byte, connected, in_queue, ping, pong, game_start, game_end, ready,
  take_turn, turn_result, update,
}
use connectdisks.Game.{
  FourAcross, TurnResult, success, wrong_player, bad_column, column_full, game_finished,
}
use connectdisks.Game.Turn.{Inv}
use connectdisks.Game.Play.{take_turn-Returns}
use connectdisks.Game.Players.{new-IsStart}
use connectdisks.Game.Ending.{IsStart-Inv}
use connectdisks.Client.{
  Client, Notice, on_game_start, TurnValue, named, unnamed, receive, start_game, stop_game,
  toggle_ready, send_turn, wait_for_messages, set_player_id, send_pong, send_message, turn_of_game,
  after_turn, check_turn_result, take_opponent_turn,
}

-- The client has a game that keeps the rules, on a board with a row.
pub record Plays (c : Client) : Type 0 where
  pub game : FourAcross
  pub has_game : c.game ≡ some game
  pub rules : Inv game
  pub some_row : 1 ≤ game.board.num_rows

-- It returns a client that plays on, over the same socket.
abbrev pub PlaysOn : Client → Result (Client × List Notice) → Type 0
PlaysOn c r =
    (c' : Client) × (ns : List Notice) × (r ≡ ok (c', ns))
    × Plays c'
    × (c'.has_socket ≡ c.has_socket)

turn_of_game-Plays :
    (player column : ℕ) (c : Client)
    → Plays c
    → (c' : Client) × (turn_of_game player column c ≡ ok c')
      × Plays c'
      × (c'.has_socket ≡ c.has_socket)
unfolding turn_of_game after_turn
turn_of_game-Plays player column c p =
    let t = take_turn-Returns p.game player column p.rules in
    (
      record c { game = some t.after },
      rw (p.has_game, t.returns) refl,
      record {
        game = t.after;
        has_game = refl;
        rules = t.inv;
        some_row = elim t.effect [
          | inl same ↦ rw same p.some_row
          | inr turn ↦ omega (arith, turn.dropped.same_rows)
        ];
      },
      refl,
    )

-- A client with the same game.
pub same_game-Plays : (c c' : Client) → c'.game ≡ c.game → Plays c → Plays c'
same_game-Plays c c' same p = record {
  game = p.game;
  has_game = same ∙ p.has_game;
  rules = p.rules;
  some_row = p.some_row;
}

-- The client keeps its game and its socket.
abbrev pub Keeps : Client → Client → Type 0
Keeps c c' = (c'.game ≡ c.game) × (c'.has_socket ≡ c.has_socket)

send_message-Keeps : (m : Message) (c : Client) → Keeps c (send_message m c)
unfolding send_message
send_message-Keeps m c = elim (Bool-cases c.has_socket) [
  | inl here ↦ (rw here refl, rw here refl)
  | inr gone ↦ (rw gone refl, rw gone refl)
]

send_pong-Keeps : (c : Client) → Keeps c (send_pong c)
unfolding send_pong
send_pong-Keeps c = send_message-Keeps (message pong []) c

pub send_turn-Keeps : (column : ℕ) (c : Client) → Keeps c (send_turn column c)
unfolding send_turn
send_turn-Keeps column c = send_message-Keeps (message take_turn (c.player_id ∷ column ∷ [])) c

pub toggle_ready-Keeps : (c : Client) → Keeps c (toggle_ready c)
unfolding toggle_ready
toggle_ready-Keeps c = send_message-Keeps (message ready (c.player_id ∷ [])) c

pub wait_for_messages-Keeps : (c : Client) → Keeps c (wait_for_messages c)
unfolding wait_for_messages
wait_for_messages-Keeps c = elim (Bool-cases c.has_socket) [
  | inl here ↦ (rw here refl, rw here refl)
  | inr gone ↦ (rw gone refl, rw gone refl)
]

after_take_turn :
    (player column : ℕ) (n : Notice) (c : Client)
    → Plays c
    → PlaysOn c (turn_of_game player column c >>= λ c'. ok (c', n ∷ []))
after_take_turn player column n c p =
    let (c', e, p', socket) = turn_of_game-Plays player column c p in
    (c', n ∷ [], ap (λ r. r >>= λ c'. ok (c', n ∷ [])) e, p', socket)

check_turn_result-PlaysOn :
    (v : TurnValue) (column : ℕ) (c : Client) → Plays c → PlaysOn c (check_turn_result v column c)
unfolding check_turn_result
check_turn_result-PlaysOn (named success) column c p = after_take_turn c.player_id column _ c p
check_turn_result-PlaysOn (named TurnResult.error) column c p = (c, _, refl, p, refl)
check_turn_result-PlaysOn (named wrong_player) column c p = (c, _, refl, p, refl)
check_turn_result-PlaysOn (named bad_column) column c p = (c, _, refl, p, refl)
check_turn_result-PlaysOn (named column_full) column c p = (c, _, refl, p, refl)
check_turn_result-PlaysOn (named game_finished) column c p = (c, _, refl, p, refl)
check_turn_result-PlaysOn (unnamed n) column c p = (c, _, refl, p, refl)

module _ (big_to_native : List ℕ → ℕ) where
  in_play :
      (kind : MessageType) (bytes : List ℕ) (c : Client)
      → kind ≢ game_start
      → Plays c
      → PlaysOn c (receive big_to_native (record { kind = kind; bytes = bytes }) c)
  unfolding receive stop_game set_player_id take_opponent_turn
  in_play connected bytes c other p = (
    _,
    _,
    refl,
    same_game-Plays c
        (record c {
          player_id = byte (record { kind = connected; bytes = bytes }) 0;
          is_connected = true;
        })
        refl p,
    refl,
  )
  in_play in_queue bytes c other p = (c, _, refl, p, refl)
  in_play ping bytes c other p =
      let (game, socket) = send_pong-Keeps c in
      (send_pong c, [], refl, same_game-Plays c (send_pong c) game p, socket)
  in_play pong bytes c other p = (c, _, refl, p, refl)
  in_play ready bytes c other p = (c, _, refl, p, refl)
  in_play MessageType.error bytes c other p = (c, _, refl, p, refl)
  in_play (MessageType.unlisted n) bytes c other p = (c, _, refl, p, refl)
  in_play game_end bytes c other p = (c, _, refl, p, refl)
  in_play game_start bytes c other p = absurd (other refl)
  in_play take_turn bytes c other p = (c, _, refl, p, refl)
  in_play turn_result bytes c other p = check_turn_result-PlaysOn _ _ c p
  in_play update bytes c other p = after_take_turn _ _ _ c p

  module _ (m : Message) (c : Client) where
    abbrev cols : ℕ
    cols = byte m 1

    abbrev rows : ℕ
    rows = byte m 2

    starts :
        m.kind ≡ game_start
        → receive big_to_native m c ≡ start_game (byte m 0) (byte m 3) cols rows c
    unfolding receive
    starts e = ap (λ kind. receive big_to_native (record { kind = kind; bytes = m.bytes }) c) e

    -- A client has a game that keeps the rules, on a board with a row, and a message arrives. If it is
    -- no `gameStart`, the client handles it with no exception and no null pointer, whatever its
    -- type and data are, and again has a game that keeps the rules, and the same socket. If it is a
    -- `gameStart` whose first two bytes are below 256, it does so for a board of at least 5 columns, at
    -- least 4 rows and fewer rows than columns, and throws `invalid_argument` for any other.
    pub receive_lem :
        Plays c
        → (m.kind ≢ game_start → PlaysOn c (receive big_to_native m c))
          × (m.kind ≡ game_start
              → byte m 0 < 256
              → byte m 1 < 256
              → (5 ≤ cols → 4 ≤ rows → rows < cols → PlaysOn c (receive big_to_native m c))
                × ((cols < 5) ⊎ (rows < 4) ⊎ (cols ≤ rows)
                    → receive big_to_native m c ≡ err invalid_argument))
    unfolding start_game
    receive_lem p = (
      λ other. in_play m.kind m.bytes c other p,
      λ start few narrow.
          let new = new-IsStart (byte m 0) (byte m 3) cols rows narrow in
          (
            λ wide tall low.
                let (g, e, s) = new.0 wide tall low in
                (
                  record c { game = some g },
                  on_game_start (byte m 0) (byte m 3) cols rows ∷ [],
                  starts start ∙ rw e refl,
                  record {
                    game = g;
                    has_game = refl;
                    rules = IsStart-Inv (byte m 0) (byte m 3) cols rows g few s;
                    some_row = omega (arith, s.rows, tall);
                  },
                  refl,
                ),
            λ bad. starts start ∙ rw (new.1 bad) refl,
          ),
    )
