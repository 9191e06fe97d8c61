-- ===== src/Console/FairEvents.antt =====
-- Fair messages and words in any order.
use connectdisks.Prelude.{ℕ, ◌≡◌, refl, false, none, some, Option, ok, List, [], ◌∷◌, Text, codes}
use connectdisks.Connection.{arrived, nothing, closed, failed}
use connectdisks.Messaging.{Message}
use connectdisks.Client.Fairness.{IsFair}
use connectdisks.Input.{same_text}
use connectdisks.Console.{ConsoleClient}
use connectdisks.Console.Handlers.{IsSound, at_rest, in_join}
use connectdisks.Console.Events.{Event, arrives, enters, happen, happen_all}
use connectdisks.Console.Fair.{IsFine, Stays, deliver-Stays, enter-Stays}

-- A fair message that arrives while the I/O thread is free, or a word but `quit`.
pub data IsFairEvent : Event → ConsoleClient → Type 0 where
  fair_message :
      {m : Message} {s : ConsoleClient}
      → s.joining ≡ none
      → IsFair m
      → IsFairEvent (arrives (arrived m)) s
  fair_word :
      {w : Text} {s : ConsoleClient} → same_text w (codes "quit") ≡ false → IsFairEvent (enters w) s

module _ (big_to_native : List ℕ → ℕ) where
  pub data AreFairEvents : List Event → ConsoleClient → Type 0 where
    no_event : {s : ConsoleClient} → AreFairEvents [] s
    an_event :
        {e : Event} {es : List Event} {s : ConsoleClient}
        → IsFairEvent e s
        → ((s' : ConsoleClient) → happen big_to_native e s ≡ ok s' → AreFairEvents es s')
        → AreFairEvents (e ∷ es) s

  arrive-Stays :
      (m : Message) (s : ConsoleClient)
      → s.joining ≡ none
      → IsFair m
      → IsSound s
      → IsFine s
      → Stays (happen big_to_native (arrives (arrived m)) s)
  unfolding happen
  arrive-Stays m s free fair (at_rest {c = c} {w = w} {p = p} idle) fine =
      deliver-Stays big_to_native m c w p fair idle fine.plays fine.socket
  arrive-Stays m s free fair in_join fine = absurd (some-none free)
    where
      some-none : {A : Type 0} {a : A} → ◌≡◌ {A = Option A} (some a) none → ⊥
      some-none e = cc

  happen-Stays :
      (e : Event) (s : ConsoleClient)
      → IsFairEvent e s
      → IsFine s
      → Stays (happen big_to_native e s)
  unfolding happen
  happen-Stays (arrives (arrived m)) s (fair_message free fair) fine =
      arrive-Stays m s free fair fine.sound fine
  happen-Stays (arrives nothing) s event fine = elim event [ ]
  happen-Stays (arrives closed) s event fine = elim event [ ]
  happen-Stays (arrives failed) s event fine = elim event [ ]
  happen-Stays (enters w) s (fair_word stays) fine =
      enter-Stays w s stays fine.sound fine.plays fine.socket

  -- A console is sound, and its client has a socket and a game that keeps the rules, on a board with a
  -- row. Then messages and words in any number and order never fail it, and it stays such a console:
  -- no exception, null pointer or bad read, and no thread assigned or joined that must not be. The
  -- messages arrive while the I/O thread waits in no `join` and are of any type with any data, but a
  -- `gameStart` has two first bytes below 256 and is for a board of at least 5 columns, at least 4 rows
  -- and fewer rows than columns; the words are any words but `quit`.
  pub happen_all-IsFine :
      (es : List Event) (s : ConsoleClient)
      → AreFairEvents es s
      → IsFine s
      → (s' : ConsoleClient) × (happen_all big_to_native es s ≡ ok s') × IsFine s'
  unfolding happen_all
  happen_all-IsFine [] s no_event fine = (s, refl, fine)
  happen_all-IsFine (e ∷ es) s (an_event this later) fine =
      let (s', f, fine') = happen-Stays e s this fine in
      let (s'', g, fine'') = happen_all-IsFine es s' (later s' f) fine' in (s'', rw f g, fine'')
