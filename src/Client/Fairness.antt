-- ===== src/Client/Fairness.antt =====
-- The messages that cannot fail a client in a game.
use connectdisks.Prelude.{◌≡◌, ◌≢◌, ◌≤◌, ◌<◌, List, [], ◌∷◌, ◌++◌}
use connectdisks.Messaging.{Message, byte, game_start}

-- No start of a game, or the start of one on a board that can be.
pub data IsFair (m : Message) : Type 0 where
  no_start : m.kind ≢ game_start → IsFair m
  good_start :
      m.kind ≡ game_start
      → byte m 0 < 256
      → byte m 1 < 256
      → 5 ≤ byte m 1
      → 4 ≤ byte m 2
      → byte m 2 < byte m 1
      → IsFair m

pub data AreFair : List Message → Type 0 where
  all_read : AreFair []
  one_fair : {m : Message} {ms : List Message} → IsFair m → AreFair ms → AreFair (m ∷ ms)

pub AreFair-append : {ms ns : List Message} → AreFair ms → AreFair ns → AreFair (ms ++ ns)
AreFair-append all_read k = k
AreFair-append (one_fair h hs) k = one_fair h (AreFair-append hs k)
