-- ===== src/Connection/Alone.antt =====
-- What a connection of server/src/connection.cpp does by itself, with no call of its lobby or of the
-- server: it reads, and its timer is done.
use connectdisks.Prelude.{
  Bool-cases, false, ◌≡◌, ◌⊎◌, refl, inl, inr, Bool, true, [], ◌∷◌, ◌++◌, arith,
}
use connectdisks.Messaging.{message, ping}
use connectdisks.Connection.{
  Connection, ReadResult, create, on_accept, start_pings, on_read_socket, ping_on_timer, receive,
  handle_disconnect, reads_on, handle_client_ready, send_ping, send_message, wait_for_messages,
}
use connectdisks.Connection.Liveness.{reads, ticks, step}

-- The connection is still there, has its id, and has sent nothing or a ping.
pub record IsPinged (x x' : Connection) : Type 0 where
  pub same_id : x'.id ≡ x.id
  pub here : x'.client_is_connected ≡ true
  pub sent : (x'.sent ≡ x.sent) ⊎ (x'.sent ≡ x.sent ++ message ping [] ∷ [])

-- The client is gone after it, and has been sent nothing.
pub record IsMute (x x' : Connection) : Type 0 where
  pub gone : x'.client_is_connected ≡ false
  pub unsent : x'.sent ≡ x.sent

-- A client that is there stays, or goes, and one that is gone stays gone.
abbrev pub IsAlone : Connection → Connection → Type 0
IsAlone x x' = (x.client_is_connected ≡ true) × IsPinged x x' ⊎ IsMute x x'

-- Whatever is read, and whenever the timer is done, unless the client is gone then.
reads-IsPinged :
    (result : ReadResult) (x : Connection)
    → x.client_is_connected ≡ true
    → (step (reads result) x).0.client_is_connected ≡ true
    → IsPinged x (step (reads result) x).0
unfolding step on_read_socket receive handle_disconnect handle_client_ready wait_for_messages
    reads_on
reads-IsPinged result x here still = record {
  same_id = grind arith;
  here = still;
  sent = inl (grind (arith, here));
}

ticks-IsPinged :
    (error : Bool) (x : Connection)
    → x.client_is_connected ≡ true
    → (step (ticks error) x).0.client_is_connected ≡ true
    → IsPinged x (step (ticks error) x).0
unfolding step ping_on_timer send_ping send_message handle_disconnect
ticks-IsPinged error x here still = record {
  same_id = grind arith;
  here = still;
  sent = grind (arith, here);
}

-- A connection that is accepted is sent a ping.
pub on_accept-IsPinged : IsPinged create (on_accept create)
unfolding on_accept wait_for_messages start_pings send_ping send_message
on_accept-IsPinged = record { same_id = refl; here = refl; sent = inr refl }

-- Whatever is read.
reads-IsAlone : (result : ReadResult) (x : Connection) → IsAlone x (step (reads result) x).0
unfolding step on_read_socket receive handle_disconnect handle_client_ready wait_for_messages
    reads_on
reads-IsAlone result x = elim (Bool-cases x.client_is_connected) [
  | inr gone ↦ inr (record { gone = grind (arith, gone); unsent = grind (arith, gone) })
  | inl here ↦ elim (Bool-cases (step (reads result) x).0.client_is_connected) [
    | inl still ↦ inl (here, reads-IsPinged result x here still)
    | inr gone ↦ inr (record { gone = gone; unsent = grind (arith, here, gone) })
  ]
]

-- Whenever the timer is done.
ticks-IsAlone : (error : Bool) (x : Connection) → IsAlone x (step (ticks error) x).0
unfolding step ping_on_timer send_ping send_message handle_disconnect
ticks-IsAlone error x = elim (Bool-cases x.client_is_connected) [
  | inr gone ↦ inr (record { gone = grind (arith, gone); unsent = grind (arith, gone) })
  | inl here ↦ elim (Bool-cases (step (ticks error) x).0.client_is_connected) [
    | inl still ↦ inl (here, ticks-IsPinged error x here still)
    | inr gone ↦ inr (record { gone = gone; unsent = grind (arith, here, gone) })
  ]
]
