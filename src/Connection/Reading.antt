-- ===== src/Connection/Reading.antt =====
-- What server/src/connection.cpp makes of the messages that a client sends.
use connectdisks.Prelude.{ℕ, ◌≡◌, ◌≢◌, refl, true, false, none, some, [], ◌∷◌, u8_max, eq→==, ne→==}
use connectdisks.Messaging.{message, ready, take_turn, pong}
use connectdisks.Connection.{
  Connection, readied, took_turn, arrived, on_read_socket, receive, handle_client_ready,
}

module _ (x : Connection) (id : ℕ) where
  pub reads-ready :
      id ≡ x.id
      → on_read_socket x (arrived (message ready (id ∷ [])))
        ≡ (record x { client_is_ready = true; reading = false }, some readied)
  unfolding on_read_socket receive handle_client_ready
  reads-ready mine = rw (eq→== _ _ mine)

  pub reads-take_turn :
      (column : ℕ)
      → id ≡ x.id
      → column ≢ u8_max
      → on_read_socket x (arrived (message take_turn (id ∷ column ∷ [])))
        ≡ (record x { reading = false }, some (took_turn column))
  unfolding on_read_socket receive
  reads-take_turn column mine good = rw (eq→== _ _ mine, ne→== _ _ good)

pub reads-pong :
    (x : Connection)
    → on_read_socket x (arrived (message pong []))
      ≡ (record x { received_pong = true; reading = false }, none)
unfolding on_read_socket receive
reads-pong x = refl
