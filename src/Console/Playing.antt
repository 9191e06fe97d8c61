-- ===== src/Console/Playing.antt =====
-- A turn, from the server's request over the console and back to the server.
use connectdisks.Prelude.{
  ℕ, ◌-◌, ◌≤◌, ◌≡◌, ◌∙◌, refl, ap, true, false, none, some, List, [], ◌∷◌, ◌++◌, ok, err, Result,
  ◌>>=◌, arith, u8_max, Text,
}
use connectdisks.Messaging.{Message, message, take_turn}
use connectdisks.Board.Cells.{IsValid}
use connectdisks.Game.{FourAcross}
use connectdisks.Connection.{Connection, arrived, on_read_socket, took_turn}
use connectdisks.Client.{Client}
use connectdisks.Client.Reading.{on_read_socket-send}
use connectdisks.Input.Numerals.{IsNumeral}
use connectdisks.Console.{ConsoleClient, InputWorker, finished, enter, enter_all, deliver}
use connectdisks.Console.Worker.{IsIdle}
use connectdisks.Console.Turns.{lost, asked, asks, AreInvalid, enter_all-invalid, enter-numeral}

enter_all-append :
    (ws vs : List Text) (s s' : ConsoleClient)
    → enter_all ws s ≡ ok s'
    → enter_all (ws ++ vs) s ≡ enter_all vs s'
unfolding enter_all
enter_all-append [] vs s s' e = ap (λ r. r >>= λ s. enter_all vs s) e
enter_all-append (w ∷ ws) vs s s' e =
    assoc (enter w s) ws vs s' (λ t e. enter_all-append ws vs t s' e) e
  where
    assoc :
        (r : Result ConsoleClient) (ws vs : List Text) (s' : ConsoleClient)
        → ((t : ConsoleClient) → enter_all ws t ≡ ok s' → enter_all (ws ++ vs) t ≡ enter_all vs s')
        → (r >>= λ t. enter_all ws t) ≡ ok s'
        → (r >>= λ t. enter_all (ws ++ vs) t) ≡ enter_all vs s'
    assoc (ok t) ws vs s' k e = k t e
    assoc (err f) ws vs s' k e = absurd (cc)

enter_all-one : (w : Text) (s : ConsoleClient) → enter_all (w ∷ []) s ≡ (enter w s >>= λ s'. ok s')
unfolding enter_all
enter_all-one w s = refl

-- The I/O thread of a console does not wait in a `join`, and its client has a socket, the id of the
-- connection `x`, and a game on a well-formed board that has a row. The server's request for a turn
-- arrives. If a question is still open, the user enters any word, which is lost. Then the user enters
-- any number of words that are not numbers of a column, and then the number of a column. Nothing
-- fails, the client has then sent just one more message, the server's connection takes that
-- message for a turn in the column, counted from 0, and the input thread is done.
pub turn_lem :
    (big_to_native : List ℕ → ℕ) (c : Client) (worker : InputWorker) (p : Text) (g : FourAcross)
    (x : Connection) (word : Text) (bad : List Text) (w : Text) (n : ℕ)
    → IsIdle worker
    → c.has_socket ≡ true
    → c.player_id ≡ x.id
    → c.game ≡ some g
    → IsValid g.board
    → 1 ≤ g.board.num_rows
    → AreInvalid g.board.num_columns bad
    → IsNumeral w n
    → 1 ≤ n
    → n ≤ g.board.num_columns
    → (s s' : ConsoleClient) × (m : Message) × (deliver big_to_native
          (arrived (message take_turn (c.player_id ∷ u8_max ∷ [])))
          (record { client = c; input_worker = worker; joining = none; printed = p })
        ≡ ok s)
      × (enter_all (lost worker.thread word ++ (bad ++ (w ∷ []))) s ≡ ok s')
      × (s'.client.sent ≡ c.sent ++ m ∷ [])
      × (on_read_socket x (arrived m) ≡ (record x { reading = false }, some (took_turn (n - 1))))
      × (s'.input_worker.thread ≡ finished)
turn_lem big_to_native c worker p g x word bad w n idle socket mine has_game v some_row invalid i
      low high =
    let small = v.wide in
    let columns = g.board.num_columns in
    let c' = record c { reading = true } in
    let (s, p1, e1, e2) = asks big_to_native c g has_game socket v some_row worker p word idle in
    let (p2, e3) = enter_all-invalid columns small c' bad p1 (w ∷ []) invalid in
    let (s', e4, sends, done) = enter-numeral columns small c' w p2 n i low high in
    let (m, sent, reads) =
      (on_read_socket-send c' x socket mine).1 (n - 1) (omega (arith, low, high, small)) in
    (
      s,
      s',
      m,
      e1,
      enter_all-append (lost worker.thread word) (bad ++ (w ∷ [])) s (asked columns c' p1) e2
          ∙ e3
          ∙ enter_all-one w (asked columns c' p2)
          ∙ ap (λ r. r >>= λ s. ok s) e4,
      ap (λ c. c.sent) (sends ∙ sent),
      reads,
      done,
    )
