-- ===== src/Console/Turns.antt =====
-- From the server's request for a turn to the turn that the user has entered.
use connectdisks.Prelude.{
  ℕ, ◌-◌, ◌≤◌, ◌<◌, ◌≡◌, ◌∙◌, refl, sym, ap, inl, inr, true, false, none, some, some_inj, List, [],
  ◌∷◌, ◌++◌, ok, ◌>>=◌, u8_max, Text, Bool,
}
use connectdisks.Messaging.{Message, message, take_turn}
use connectdisks.Board.Cells.{IsValid}
use connectdisks.Game.{FourAcross}
use connectdisks.Connection.{arrived}
use connectdisks.Client.{Client, send_turn, wait_for_messages}
use connectdisks.Client.Reading.{receive-take_turn}
use connectdisks.Input.{ask_column, call}
use connectdisks.Input.Numerals.{IsNumeral, read_column-numeral}
use connectdisks.Input.Answers.{call_lem}
use connectdisks.Console.{
  ConsoleClient, InputWorker, Thread, not_joinable, finished, reading_for, then_start, start, stop,
  restart, tell, handle, handle_all, wait_if_free, joined, go_on, enter, enter_all, deliver,
  after_call,
}
use connectdisks.Console.Worker.{IsIdle, quiet, asking, answered, asking_worker, ask_turn_lem}

-- The word that is lost, if a question is still open when the next is asked.
abbrev pub lost : Thread → Text → List Text
lost (reading_for callback) w = w ∷ []
lost not_joinable w = []
lost finished w = []

-- The user is asked for a column.
abbrev pub asked : ℕ → Client → Text → ConsoleClient
asked max_columns c p = record {
  client = c;
  input_worker = asking_worker (ask_column max_columns);
  joining = none;
  printed = p;
}

module _ (big_to_native : List ℕ → ℕ) where
  abbrev request : ℕ → Message
  request id = message take_turn (id ∷ u8_max ∷ [])

  module _ (c : Client) (g : FourAcross) (has_game : c.game ≡ some g) (socket : c.has_socket ≡ true)
      (v : IsValid g.board) (some_row : 1 ≤ g.board.num_rows) where
    abbrev columns : ℕ
    columns = g.board.num_columns

    abbrev silent : Client
    silent = record c { reading = false }

    waits : wait_for_messages silent ≡ record c { reading = true }
    unfolding wait_for_messages
    waits = rw socket refl

    -- The console, when the I/O thread does not wait in a `join`.
    abbrev free : InputWorker → Text → ConsoleClient
    free w p = record { client = c; input_worker = w; joining = none; printed = p }

    asks_by :
        (w : InputWorker) (p : Text) (s : ConsoleClient)
        → ((p' : Text)
            → restart (ask_column columns) (record (free w p') { client = silent })
              ≡ ok (record s { printed = p' }))
        → (p' : Text) × (deliver big_to_native (arrived (request c.player_id)) (free w p)
            ≡ ok (wait_if_free (record s { printed = p' })))
    unfolding deliver handle_all handle
    asks_by w p s restarts =
        let (p', e) = ask_turn_lem (record (free w p) { client = silent }) g has_game v some_row in
        (
          p',
          ap
                (λ r. r >>= λ x. handle_all x.1 (record (free w p) { client = x.0 }) >>= λ s'.
                  ok (wait_if_free s'))
                (receive-take_turn big_to_native silent)
              ∙ ap (λ r. (r >>= λ s'. ok s') >>= λ s'. ok (wait_if_free s')) (e ∙ restarts p'),
        )

    abbrev Asks : InputWorker → Text → Text → Type 0
    Asks w p word =
        (s1 : ConsoleClient) × (p' : Text) × (deliver big_to_native (arrived (request c.player_id))
            (free w p)
          ≡ ok s1)
        × (enter_all (lost w.thread word) s1 ≡ ok (asked columns (record c { reading = true }) p'))

    -- The question is asked at once, or when the word is read that ends the old question.
    pub asks : (w : InputWorker) (p word : Text) → IsIdle w → Asks w p word
    unfolding restart stop wait_if_free enter_all enter joined go_on start
    asks w p word quiet =
        let (p', e) = asks_by w p (asked columns silent p) (λ p'. refl) in
        (_, p', e, ap (λ c. ok (asked columns c p')) waits)
    asks w p word answered =
        let (p', e) = asks_by w p (asked columns silent p) (λ p'. refl) in
        (_, p', e, ap (λ c. ok (asked columns c p')) waits)
    asks w p word (asking {callback = old}) =
        let blocked : ConsoleClient = record {
          client = silent;
          input_worker = record { running = false; thread = reading_for old };
          joining = some (then_start (ask_column columns));
          printed = p;
        } in
        let (p', e) = asks_by w p blocked (λ p'. refl) in
        (_, p', e, ap (λ c. ok (asked columns c p')) waits)

-- Not the number of a column.
abbrev pub IsInvalid : ℕ → Text → Type 0
IsInvalid max_columns w = (n : ℕ) → IsNumeral w n → 1 ≤ n → n ≤ max_columns → ⊥

pub data AreInvalid (max_columns : ℕ) : List Text → Type 0 where
  no_word : AreInvalid max_columns []
  a_word :
      {w : Text} {ws : List Text}
      → IsInvalid max_columns w
      → AreInvalid max_columns ws
      → AreInvalid max_columns (w ∷ ws)

module _ (max_columns : ℕ) (small : max_columns < 256) (c : Client) where
  enter-call :
      (w : Text) (p t : Text) (c' : Client) (done : Bool)
      → call (ask_column max_columns) w c ≡ ok (c', t, done)
      → enter w (asked max_columns c p)
        ≡ ok (record {
          client = c';
          input_worker = record {
            running = true;
            thread = after_call (ask_column max_columns) done;
          };
          joining = none;
          printed = p ++ t;
        })
  unfolding enter tell
  enter-call w p t c' done e =
      ap
        (λ r. r >>= λ x. ok (record {
          client = x.0;
          input_worker = record {
            running = true;
            thread = after_call (ask_column max_columns) x.2;
          };
          joining = none;
          printed = p ++ x.1;
        }))
        e

  enter-invalid :
      (w : Text) (p : Text)
      → IsInvalid max_columns w
      → (p' : Text) × (enter w (asked max_columns c p) ≡ ok (asked max_columns c p'))
  enter-invalid w p invalid = elim (call_lem max_columns w c small) [
    | inl (n, i, low, high, e) ↦ absurd (invalid n i low high)
    | inr (none_of_them, e) ↦ (_, enter-call w p _ c false e)
  ]

  pub enter_all-invalid :
      (ws : List Text) (p : Text) (later : List Text)
      → AreInvalid max_columns ws
      → (p' : Text) × (enter_all (ws ++ later) (asked max_columns c p)
          ≡ enter_all later (asked max_columns c p'))
  unfolding enter_all
  enter_all-invalid [] p later no_word = (p, refl)
  enter_all-invalid (w ∷ ws) p later (a_word invalid rest) =
      let (p', e) = enter-invalid w p invalid in
      let (p'', es) = enter_all-invalid ws p' later rest in
      (p'', ap (λ r. r >>= λ s. enter_all (ws ++ later) s) e ∙ es)

  pub enter-numeral :
      (w : Text) (p : Text) (n : ℕ)
      → IsNumeral w n
      → 1 ≤ n
      → n ≤ max_columns
      → (s : ConsoleClient) × (enter w (asked max_columns c p) ≡ ok s)
        × (s.client ≡ send_turn (n - 1) c)
        × (s.input_worker.thread ≡ finished)
  enter-numeral w p n i low high = elim (call_lem max_columns w c small) [
    | inl (m, j, low', high', e) ↦
        let same : m ≡ n = some_inj (
          sym (read_column-numeral max_columns m w j low' high' small)
          ∙ read_column-numeral max_columns n w i low high small) in
        (_, enter-call w p _ _ true e, ap (λ k. send_turn (k - 1) c) same, refl)
    | inr (none_of_them, e) ↦ absurd (none_of_them n i low high)
  ]
