-- ===== src/Client/Reading.antt =====
-- What the server and a client make of each other's messages.
use connectdisks.Prelude.{
  ℕ, ◌<◌, ◌≡◌, ◌≢◌, refl, ap, subst, ◌≤◌, true, false, none, some, List, [], ◌∷◌, ◌++◌, arith,
  length, ok, eq→==, u8_max, replicate,
}
use Prim.Native.Nat.{◌^◌}
use connectdisks.Messaging.{Message, message, fill, in_queue, ready, take_turn, pong}
use connectdisks.Game.{
  TurnResult, error, success, wrong_player, bad_column, column_full, game_finished,
}
use connectdisks.Connection.{
  Connection, readied, took_turn, arrived, on_read_socket, to_underlying_type,
}
use connectdisks.Connection.Reading.{reads-ready, reads-take_turn, reads-pong}
use connectdisks.Server.{notify_queue_position}
use connectdisks.Server.Queue.{notify_queue_position-sent}
use connectdisks.Client.{
  Client, cast, named, toggle_ready, send_turn, send_pong, send_message, first_bytes, receive,
  on_queue_update, handle_turn_request,
}

-- A result survives its journey as a byte.
pub cast-to_underlying_type : (t : TurnResult) → cast (to_underlying_type t) ≡ named t
unfolding cast
cast-to_underlying_type error = refl
cast-to_underlying_type success = refl
cast-to_underlying_type wrong_player = refl
cast-to_underlying_type bad_column = refl
cast-to_underlying_type column_full = refl
cast-to_underlying_type game_finished = refl

-- The data of a message starts with what is written there.
first_bytes-fill :
    (bytes rest : List ℕ)
    → length bytes ≤ length rest
    → first_bytes (length bytes) (fill bytes rest) ≡ bytes
first_bytes-fill [] rest h = refl
first_bytes-fill (b ∷ bs) [] h = absurd (omega arith)
first_bytes-fill (b ∷ bs) (r ∷ rest) h = ap (λ t. b ∷ t) (first_bytes-fill bs rest (omega arith))

-- What the documentation of boost::endian says of the two conversions: 8 bytes in memory, and back.
pub record IsEndian (native_to_big : ℕ → List ℕ) (big_to_native : List ℕ → ℕ) : Type 0 where
  pub size : (n : ℕ) → length (native_to_big n) ≡ 8
  pub inverse : (n : ℕ) → n < 2 ^ 64 → big_to_native (native_to_big n) ≡ n

module _ (native_to_big : ℕ → List ℕ) (big_to_native : List ℕ → ℕ)
    (endian : IsEndian native_to_big big_to_native) where
  -- The position in the queue that the server sends, below 2 ^ 64, is the one that the client's
  -- `onQueueUpdate` is called with.
  pub receive-notify_queue_position :
      (n : ℕ) (x : Connection) (c : Client)
      → n < 2 ^ 64
      → x.client_is_connected ≡ true
      → (m : Message) × ((notify_queue_position native_to_big n x).sent ≡ x.sent ++ m ∷ [])
        × (receive big_to_native m c ≡ ok (c, on_queue_update n ∷ []))
  unfolding receive
  receive-notify_queue_position n x c small here =
      let bytes = native_to_big n in
      let read : first_bytes 8 (fill bytes (replicate 16 0)) ≡ bytes =
        subst (λ k. first_bytes k (fill bytes (replicate 16 0)) ≡ bytes) (endian.size n)
          (first_bytes-fill bytes (replicate 16 0) (omega (arith, endian.size n))) in
      (
        message in_queue bytes,
        notify_queue_position-sent native_to_big n x here,
        rw (read, endian.inverse n small),
      )

-- A client that is asked for a turn calls `handleTurnRequest`.
pub receive-take_turn :
    (big_to_native : List ℕ → ℕ) (c : Client)
    → receive big_to_native (message take_turn (c.player_id ∷ u8_max ∷ [])) c
      ≡ ok (c, handle_turn_request ∷ [])
unfolding receive
receive-take_turn big_to_native c = rw (eq→== c.player_id c.player_id refl) refl

-- What a client that has a socket sends is understood by the connection whose id it was given: the
-- client is ready, takes a turn in any column but 255, or has answered a ping.
pub on_read_socket-send :
    (c : Client) (x : Connection)
    → c.has_socket ≡ true
    → c.player_id ≡ x.id
    → ((m : Message) × (toggle_ready c ≡ record c { sent = c.sent ++ m ∷ [] })
        × (on_read_socket x (arrived m)
            ≡ (record x { client_is_ready = true; reading = false }, some readied)))
      × ((column : ℕ)
          → column ≢ u8_max
          → (m : Message) × (send_turn column c ≡ record c { sent = c.sent ++ m ∷ [] })
            × (on_read_socket x (arrived m)
                ≡ (record x { reading = false }, some (took_turn column))))
      × ((m : Message) × (send_pong c ≡ record c { sent = c.sent ++ m ∷ [] })
          × (on_read_socket x (arrived m)
              ≡ (record x { received_pong = true; reading = false }, none)))
unfolding toggle_ready send_turn send_pong send_message
on_read_socket-send c x socket mine = (
  (message ready (c.player_id ∷ []), rw socket, reads-ready x c.player_id mine),
  λ column good. (
    message take_turn (c.player_id ∷ column ∷ []),
    rw socket,
    reads-take_turn x c.player_id column mine good,
  ),
  (message pong [], rw socket, reads-pong x),
)
