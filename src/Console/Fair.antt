-- ===== src/Console/Fair.antt =====
-- A console whose client is in a game, as long as the messages and the words are fair.
use connectdisks.Prelude.{
  ℕ, ◌-◌, ◌≡◌, ◌∙◌, refl, sym, ap, subst, inl, inr, Bool, true, false, ok, Result, List, [], ◌∷◌,
  ◌++◌, ◌>>=◌, Text, codes, Bool-cases, Option-cases, u8,
}
use connectdisks.Connection.{arrived}
use connectdisks.Messaging.{Message}
use connectdisks.Client.{Client, Notice, receive, toggle_ready, send_turn}
use connectdisks.Client.Fairness.{IsFair, no_start, good_start}
use connectdisks.Client.Totality.{
  Plays, PlaysOn, Keeps, receive_lem, same_game-Plays, send_turn-Keeps, toggle_ready-Keeps,
  wait_for_messages-Keeps,
}
use connectdisks.Input.{
  InputCallback, ask_ready, ask_rematch, ask_column, call, answer, same_text, read_column,
}
use connectdisks.Console.{
  ConsoleClient, InputWorker, then_start, then_return, start, go_on, tell, wait_if_free, joined,
  after_call, enter, deliver,
}
use connectdisks.Console.Worker.{IsIdle, quiet, asking, answered}
use connectdisks.Console.Handlers.{
  IsSound, at_rest, in_join, resting, CanHandleAll, none_left, one_more, shows, Shows,
}
use connectdisks.Console.Events.{deliver-Returns, wait_if_free-IsSound, after_call-IsIdle}

-- The console is sound, and its client has a socket and a game that keeps the rules.
pub record IsFine (s : ConsoleClient) : Type 0 where
  pub sound : IsSound s
  pub plays : Plays s.client
  pub socket : s.client.has_socket ≡ true

abbrev pub Stays : Result ConsoleClient → Type 0
Stays r = (s : ConsoleClient) × (r ≡ ok s) × IsFine s

keep :
    (c c' : Client) → Keeps c c' → Plays c → c.has_socket ≡ true → Plays c' × (c'.has_socket ≡ true)
keep c c' (game, same) plays socket = (same_game-Plays c c' game plays, same ∙ socket)

Shows-all : (c : Client) → Shows c → (ns : List Notice) → CanHandleAll c ns
Shows-all c h [] = none_left
Shows-all c h (n ∷ ns) = one_more (shows h) (Shows-all c h ns)

Plays-Shows : (c : Client) → Plays c → Shows c
Plays-Shows c p = record {
  game = p.game;
  has_game = p.has_game;
  valid = p.rules.valid;
  some_row = p.some_row;
}

wait_if_free-Keeps : (s : ConsoleClient) → IsSound s → Keeps s.client (wait_if_free s).client
unfolding wait_if_free
wait_if_free-Keeps s (at_rest {c = c} idle) = wait_for_messages-Keeps c
wait_if_free-Keeps s in_join = (refl, refl)

module _ (big_to_native : List ℕ → ℕ) where
  receive-IsFair :
      (m : Message) (c : Client) → IsFair m → Plays c → PlaysOn c (receive big_to_native m c)
  receive-IsFair m c (no_start other) p = (receive_lem big_to_native m c p).0 other
  receive-IsFair m c (good_start start few narrow wide tall low) p =
      ((receive_lem big_to_native m c p).1 start few narrow).0 wide tall low

  pub deliver-Stays :
      (m : Message) (c : Client) (w : InputWorker) (p : Text)
      → IsFair m
      → IsIdle w
      → Plays c
      → c.has_socket ≡ true
      → Stays (deliver big_to_native (arrived m) (resting c w p))
  deliver-Stays m c w p fair idle plays socket =
      let silent = record c { reading = false } in
      let (d, ns, e, plays', same) =
        receive-IsFair m silent fair (same_game-Plays c silent refl plays) in
      let (s, f, sound, is_d) =
        deliver-Returns big_to_native m c d w p ns idle e (Shows-all d (Plays-Shows d plays') ns) in
      let (game, still) =
        keep s.client (wait_if_free s).client (wait_if_free-Keeps s sound)
          (subst Plays (sym is_d) plays') (ap (λ c. c.has_socket) is_d ∙ same ∙ socket) in
      (
        wait_if_free s,
        f,
        record { sound = wait_if_free-IsSound s sound; plays = game; socket = still },
      )

answer-Keeps :
    (agreed sending exiting w : Text) (c : Client)
    → same_text w (codes "quit") ≡ false
    → (x : Client × Text × Bool) × (answer agreed sending exiting w c ≡ ok x) × Keeps c x.0
unfolding answer
answer-Keeps agreed sending exiting w c stays = elim (Bool-cases (same_text w agreed)) [
  | inl same ↦ ((toggle_ready c, sending, true), rw (answer, same) refl, toggle_ready-Keeps c)
  | inr other ↦
      ((c, codes "Unrecognized input\n", false), rw (answer, other, stays) refl, (refl, refl))
]

call-Keeps :
    (callback : InputCallback) (w : Text) (c : Client)
    → same_text w (codes "quit") ≡ false
    → (x : Client × Text × Bool) × (call callback w c ≡ ok x) × Keeps c x.0
unfolding call
call-Keeps ask_ready w c stays = answer-Keeps _ _ _ w c stays
call-Keeps ask_rematch w c stays = answer-Keeps _ _ _ w c stays
call-Keeps (ask_column max_columns) w c stays = elim (Option-cases (read_column max_columns w)) [
  | inl nothing_read ↦
      ((c, codes "Invalid input, try again: ", false), rw (call, nothing_read) refl, (refl, refl))
  | inr (n, read) ↦
      ((send_turn (u8 (n - 1)) c, [], true), rw (call, read) refl, send_turn-Keeps (u8 (n - 1)) c)
]

pub enter-Stays :
    (w : Text) (s : ConsoleClient)
    → same_text w (codes "quit") ≡ false
    → IsSound s
    → Plays s.client
    → s.client.has_socket ≡ true
    → Stays (enter w s)
unfolding enter tell joined go_on start wait_if_free
enter-Stays w s stays (at_rest quiet) plays socket =
    (_, refl, record { sound = at_rest quiet; plays = plays; socket = socket })
enter-Stays w s stays (at_rest answered) plays socket =
    (_, refl, record { sound = at_rest answered; plays = plays; socket = socket })
enter-Stays w s stays (at_rest (asking {callback = callback})) plays socket =
    let (x, e, keeps) = call-Keeps callback w s.client stays in
    let (game, still) = keep s.client x.0 keeps plays socket in
    (
      resting x.0 (record { running = true; thread = after_call callback x.2 }) (s.printed ++ x.1),
      ap
          (λ r. r >>= λ x. ok (
            resting x.0 (record { running = true; thread = after_call callback x.2 })
              (s.printed ++ x.1)))
          e,
      record { sound = at_rest (after_call-IsIdle callback x.2); plays = game; socket = still },
    )
enter-Stays w s stays (in_join {after = then_return}) plays socket =
    (_, refl, record { sound = at_rest quiet; plays = plays; socket = socket })
enter-Stays w s stays (in_join {after = then_start callback}) plays socket =
    let (game, still) = keep s.client _ (wait_for_messages-Keeps s.client) plays socket in
    (_, refl, record { sound = at_rest asking; plays = game; socket = still })
