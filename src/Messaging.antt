-- ===== src/Messaging.antt =====
-- include/four-across/networking/messaging.hpp: what the server and a client send each other.
use package.connectdisks.Prelude.{ℕ, List, [], ◌∷◌, replicate, get_or}

-- `MessageType`, in the order of its values. A byte that is read may be none of them, which `unlisted`
-- holds.
pub data MessageType : Type 0 where
  error connected ping pong in_queue game_start game_end ready take_turn turn_result update :
      MessageType
  unlisted : ℕ → MessageType

-- `data` is a `std::array<uint8_t, 16>`.
pub record Message : Type 0 where
  pub kind : MessageType
  pub bytes : List ℕ

-- The first entries written over those of `rest`.
abbrev pub fill : List ℕ → List ℕ → List ℕ
fill [] rest = rest
fill (x ∷ xs) [] = []
fill (x ∷ xs) (y ∷ rest) = x ∷ fill xs rest

-- `new Message{}` and the assignments to its type and to its first entries.
abbrev pub message : MessageType → List ℕ → Message
message kind first = record { kind = kind; bytes = fill first (replicate 16 0) }

-- `message->data[i]`, at an index below 16.
abbrev pub byte : Message → ℕ → ℕ
byte m i = get_or m.bytes i 0
