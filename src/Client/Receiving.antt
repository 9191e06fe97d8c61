-- ===== src/Client/Receiving.antt =====
-- What each message of the server makes of a client's game.
use connectdisks.Prelude.{
  ℕ, ◌≡◌, ◌≢◌, refl, sym, subst, true, false, some, Option, List, [], ◌∷◌, ◌++◌, ok, u8_max,
}
use connectdisks.Messaging.{
  Message, message, take_turn, turn_result, update, game_start, game_end, ping, pong, in_queue,
  connected,
}
use connectdisks.Game
use connectdisks.Game.{
  FourAcross, TurnResult, success, error, wrong_player, bad_column, column_full, game_finished,
  returned,
}
use connectdisks.Connection.{to_underlying_type}
use connectdisks.Client.{
  Client, Notice, receive, named, start_game, stop_game, check_turn_result, take_opponent_turn,
  turn_of_game, after_turn, on_game_start, on_connect, send_pong, send_message, set_player_id,
  on_game_update, on_turn_result,
}
use connectdisks.Client.Reading.{cast-to_underlying_type}

-- A client that has a socket, and the id and the game given.
pub record Holds (id : ℕ) (game : Option FourAcross) (c : Client) : Type 0 where
  pub socket : c.has_socket ≡ true
  pub same_id : c.player_id ≡ id
  pub same_game : c.game ≡ game

-- The same, and an `async_read` is outstanding.
pub record Listens (id : ℕ) (game : Option FourAcross) (c : Client) : Type 0 where
  pub socket : c.has_socket ≡ true
  pub same_id : c.player_id ≡ id
  pub same_game : c.game ≡ game
  pub reading : c.reading ≡ true

-- While a message is dealt with, none is outstanding.
pub Listens-Holds :
    (id : ℕ) (o : Option FourAcross) (c : Client)
    → Listens id o c
    → Holds id o (record c { reading = false })
Listens-Holds id o c h = record { socket = h.socket; same_id = h.same_id; same_game = h.same_game }

pub Holds-Listens :
    (id : ℕ) (o : Option FourAcross) (c : Client)
    → Holds id o c
    → Listens id o (record c { reading = true })
Holds-Listens id o c h = record {
  socket = h.socket;
  same_id = h.same_id;
  same_game = h.same_game;
  reading = refl;
}

module _ (big_to_native : List ℕ → ℕ) where
  -- Whoever has the game `o` and receives the message then has the game `o'`.
  abbrev pub Hears : ℕ → Message → Option FourAcross → Option FourAcross → Type 0
  Hears id m o o' =
      (c : Client)
      → Holds id o c
      → (c' : Client) × (ns : List Notice) × (receive big_to_native m c ≡ ok (c', ns))
        × Holds id o' c'

  pub Hears-take_turn :
      (id p : ℕ) (o : Option FourAcross) → Hears id (message take_turn (p ∷ u8_max ∷ [])) o o
  unfolding receive
  Hears-take_turn id p o c h = (c, _, refl, h)

  pub Hears-ping : (id : ℕ) (o : Option FourAcross) → Hears id (message ping []) o o
  unfolding receive send_pong send_message
  Hears-ping id o c h = (
    record c { sent = c.sent ++ message pong [] ∷ [] },
    [],
    rw h.socket refl,
    record { socket = h.socket; same_id = h.same_id; same_game = h.same_game },
  )

  pub Hears-in_queue :
      (id : ℕ) (bytes : List ℕ) (o : Option FourAcross) → Hears id (message in_queue bytes) o o
  unfolding receive
  Hears-in_queue id bytes o c h = (c, _, refl, h)

  -- The message that gives a client its id.
  pub receive-connected :
      (id n : ℕ) (o : Option FourAcross) (c : Client)
      → Holds id o c
      → (c' : Client) × (ns : List Notice) × (receive big_to_native (message connected (n ∷ [])) c
          ≡ ok (c', ns))
        × Holds n o c'
  unfolding receive set_player_id
  receive-connected id n o c h = (
    record c { player_id = n; is_connected = true },
    on_connect n ∷ [],
    refl,
    record { socket = h.socket; same_id = refl; same_game = h.same_game },
  )

  pub Hears-game_end : (id w : ℕ) (o : Option FourAcross) → Hears id (message game_end (w ∷ [])) o o
  unfolding receive stop_game
  Hears-game_end id w o c h = (c, _, refl, h)

  pub Hears-game_start :
      (id np cols rows first : ℕ) (o : Option FourAcross) (g : FourAcross)
      → Game.new np first cols rows ≡ ok g
      → Hears id (message game_start (np ∷ cols ∷ rows ∷ first ∷ [])) o (some g)
  unfolding receive start_game
  Hears-game_start id np cols rows first o g e c h = (
    record c { game = some g },
    on_game_start np first cols rows ∷ [],
    rw e,
    record { socket = h.socket; same_id = h.same_id; same_game = refl },
  )

  -- The turn that the server's game took is taken again.
  turns :
      (c : Client) (player column : ℕ) (g g' : FourAcross) (t : TurnResult)
      → c.game ≡ some g
      → Game.take_turn g player column ≡ returned t g'
      → turn_of_game player column c ≡ ok (record c { game = some g' })
  unfolding turn_of_game after_turn
  turns c player column g g' t e played = rw (turn_of_game, e, played)

  pub Hears-update :
      (id player column : ℕ) (g g' : FourAcross) (t : TurnResult)
      → Game.take_turn g player column ≡ returned t g'
      → Hears id (message update (player ∷ column ∷ [])) (some g) (some g')
  unfolding receive take_opponent_turn
  Hears-update id player column g g' t played c h = (
    record c { game = some g' },
    on_game_update player column ∷ [],
    rw (turns c player column g g' t h.same_game played),
    record { socket = h.socket; same_id = h.same_id; same_game = refl },
  )

  pub Hears-success :
      (id column : ℕ) (g g' : FourAcross)
      → Game.take_turn g id column ≡ returned success g'
      → Hears id (message turn_result (to_underlying_type success ∷ column ∷ [])) (some g) (some g')
  unfolding receive check_turn_result
  Hears-success id column g g' played c h = (
    record c { game = some g' },
    on_turn_result (named success) column ∷ [],
    rw (
      cast-to_underlying_type success,
      turns c c.player_id column g g' success h.same_game
          (subst (λ i. Game.take_turn g i column ≡ returned success g') (sym h.same_id) played),
    ),
    record { socket = h.socket; same_id = h.same_id; same_game = refl },
  )

  -- A turn that did not count leaves the game alone.
  pub Hears-refused :
      (id column : ℕ) (t : TurnResult) (o : Option FourAcross)
      → t ≢ success
      → Hears id (message turn_result (to_underlying_type t ∷ column ∷ [])) o o
  unfolding receive check_turn_result
  Hears-refused id column t o refused c h =
      let (ns, e) = checks t refused in (c, ns, rw (cast-to_underlying_type t) e, h)
    where
      checks :
          (t : TurnResult)
          → t ≢ success
          → (ns : List Notice) × (check_turn_result (named t) column c ≡ ok (c, ns))
      checks success r = absurd (r refl)
      checks error r = (_, refl)
      checks wrong_player r = (_, refl)
      checks bad_column r = (_, refl)
      checks column_full r = (_, refl)
      checks game_finished r = (_, refl)
