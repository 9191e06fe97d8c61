-- ===== src/Console/Handlers.antt =====
-- The handlers, and the input thread as they stop and start it.
use connectdisks.Prelude.{
  ℕ, ◌+◌, ◌≡◌, ◌≢◌, ◌≤◌, ◌⊎◌, refl, sym, ap, subst, inl, inr, false, none, some, ok, Result, List,
  [], ◌∷◌, ◌++◌, ◌>>=◌, Text, codes, decimal,
}
use connectdisks.Board.Cells.{IsValid}
use connectdisks.Game.{
  FourAcross, TurnResult, success, wrong_player, bad_column, column_full, game_finished,
}
use connectdisks.Client.{
  Client, Notice, TurnValue, named, unnamed, on_connect, on_queue_update, on_game_end,
  on_disconnect, handle_turn_request, on_game_start, on_game_update, on_turn_result,
}
use connectdisks.Client.Notices.{IsBrief, no_call, one_call, refusal}
use connectdisks.Input.{InputCallback, ask_ready, ask_rematch, ask_column}
use connectdisks.Console.{
  ConsoleClient, InputWorker, Afterwards, then_start, then_return, reading_for, start, stop,
  restart, go_on, tell, tell_game, handle, handle_all, ask_turn, on_turn_result_text,
}
use connectdisks.Console.Worker.{IsIdle, quiet, asking, answered, ask_turn_lem, tell_game_lem}
use connectdisks.Game.Print.{to_string-returns}

-- The I/O thread waits in no `join`, and the worker is idle; or it waits for a thread that reads.
pub data IsSound : ConsoleClient → Type 0 where
  at_rest :
      {c : Client} {w : InputWorker} {p : Text}
      → IsIdle w
      → IsSound (record { client = c; input_worker = w; joining = none; printed = p })
  in_join :
      {c : Client} {old : InputCallback} {after : Afterwards} {p : Text}
      → IsSound (record {
        client = c;
        input_worker = record { running = false; thread = reading_for old };
        joining = some after;
        printed = p;
      })

abbrev pub resting : Client → InputWorker → Text → ConsoleClient
resting c w p = record { client = c; input_worker = w; joining = none; printed = p }

-- A sound console with that client comes of it.
abbrev pub Returns : Client → Result ConsoleClient → Type 0
Returns c r = (s : ConsoleClient) × (r ≡ ok s) × IsSound s × (s.client ≡ c)

stop-Returns :
    (after : Afterwards) (c : Client) (w : InputWorker) (p : Text)
    → IsIdle w
    → Returns c (stop after (resting c w p))
unfolding stop go_on start
stop-Returns (then_start callback) c w p quiet = (_, refl, at_rest asking, refl)
stop-Returns (then_start callback) c w p answered = (_, refl, at_rest asking, refl)
stop-Returns then_return c w p quiet = (_, refl, at_rest quiet, refl)
stop-Returns then_return c w p answered = (_, refl, at_rest quiet, refl)
stop-Returns after c w p asking = (_, refl, in_join, refl)

-- The game that is printed, if one is.
pub record Shows (c : Client) : Type 0 where
  pub game : FourAcross
  pub has_game : c.game ≡ some game
  pub valid : IsValid game.board
  pub some_row : 1 ≤ game.board.num_rows

-- The client has a game, if the handler prints one.
pub data CanHandle (c : Client) : Notice → Type 0 where
  shows : {n : Notice} → Shows c → CanHandle c n
  connecting : {id : ℕ} → CanHandle c (on_connect id)
  leaving : CanHandle c on_disconnect
  queueing : {position : ℕ} → CanHandle c (on_queue_update position)
  starting : {np first cols rows : ℕ} → CanHandle c (on_game_start np first cols rows)
  ending : {winner : ℕ} → CanHandle c (on_game_end winner)
  refusing :
      {result : TurnValue} {column : ℕ}
      → result ≢ named success
      → CanHandle c (on_turn_result result column)

tell_game-resting :
    (c : Client) (w : InputWorker) (p : Text)
    → Shows c
    → (p' : Text) × (tell_game (resting c w p) ≡ ok (resting c w p'))
unfolding tell
tell_game-resting c w p h =
    let (t, e) = to_string-returns h.game h.valid h.some_row in
    (p ++ (t ++ codes "\n"), tell_game_lem (resting c w p) h.game t h.has_game e)

start-Returns :
    (callback : InputCallback) (c : Client) (w : InputWorker) (p : Text)
    → IsIdle w
    → Returns c (start callback (resting c w p))
unfolding start
start-Returns callback c w p quiet = (_, refl, at_rest asking, refl)
start-Returns callback c w p answered = (_, refl, at_rest answered, refl)
start-Returns callback c w p asking = (_, refl, at_rest asking, refl)

-- A result is only printed.
result-resting :
    (c : Client) (w : InputWorker) (p : Text) (result : TurnValue)
    → (result ≢ named success) ⊎ Shows c
    → (p' : Text) × (on_turn_result_text result (resting c w p) ≡ ok (resting c w p'))
unfolding on_turn_result_text tell
result-resting c w p (named success) (inl no_success) = absurd (no_success refl)
result-resting c w p (named success) (inr h) =
    tell_game-resting c w (p ++ codes "Your move was accepted\n") h
result-resting c w p (named TurnResult.error) h = (_, refl)
result-resting c w p (named wrong_player) h = (_, refl)
result-resting c w p (named bad_column) h = (_, refl)
result-resting c w p (named column_full) h = (_, refl)
result-resting c w p (named game_finished) h = (_, refl)
result-resting c w p (unnamed n) h = (_, refl)

result_of :
    (c : Client) (result : TurnValue) (column : ℕ)
    → CanHandle c (on_turn_result result column)
    → (result ≢ named success) ⊎ Shows c
result_of c result column (shows h) = inr h
result_of c result column (refusing no_success) = inl no_success

ask_turn-Returns :
    (c : Client) (w : InputWorker) (p : Text)
    → IsIdle w
    → Shows c
    → Returns c (ask_turn (resting c w p))
unfolding restart
ask_turn-Returns c w p idle h =
    let (p', e) = ask_turn_lem (resting c w p) h.game h.has_game h.valid h.some_row in
    subst (Returns c) (sym e)
      (stop-Returns (then_start (ask_column h.game.board.num_columns)) c w p' idle)

handle-Returns :
    (n : Notice) (c : Client) (w : InputWorker) (p : Text)
    → IsIdle w
    → CanHandle c n
    → Returns c (handle n (resting c w p))
unfolding handle tell restart
handle-Returns (on_connect id) c w p idle h = start-Returns ask_ready c w _ idle
handle-Returns on_disconnect c w p idle h = stop-Returns then_return c w _ idle
handle-Returns (on_queue_update position) c w p idle h = (_, refl, at_rest idle, refl)
handle-Returns (on_game_start np first cols rows) c w p idle h = (_, refl, at_rest idle, refl)
handle-Returns (on_game_end winner) c w p idle h = stop-Returns (then_start ask_rematch) c w _ idle
handle-Returns (on_game_update player column) c w p idle (shows h) =
    let (p', e) = tell_game-resting c w p h in
    let text =
      codes "Player "
      ++ (decimal player
          ++ (codes " dropped a piece in column " ++ (decimal (column + 1) ++ codes "\n"))) in
    (resting c w (p' ++ text), ap (λ r. r >>= λ s. ok (tell text s)) e, at_rest idle, refl)
handle-Returns (on_turn_result result column) c w p idle h =
    let (p', e) = result-resting c w p result (result_of c result column h) in
    (_, e, at_rest idle, refl)
handle-Returns handle_turn_request c w p idle (shows h) = ask_turn-Returns c w p idle h

-- The handlers of one message, each of which can print what it prints.
pub data CanHandleAll (c : Client) : List Notice → Type 0 where
  none_left : CanHandleAll c []
  one_more :
      {n : Notice} {ns : List Notice} → CanHandle c n → CanHandleAll c ns → CanHandleAll c (n ∷ ns)

pub handle_all-Returns :
    (ns : List Notice) (c : Client) (w : InputWorker) (p : Text)
    → IsBrief ns
    → IsIdle w
    → CanHandleAll c ns
    → Returns c (handle_all ns (resting c w p))
unfolding handle_all handle
handle_all-Returns [] c w p no_call idle h = (_, refl, at_rest idle, refl)
handle_all-Returns (n ∷ []) c w p one_call idle (one_more h none_left) =
    let (s, e, sound, same) = handle-Returns n c w p idle h in (s, rw e refl, sound, same)
handle_all-Returns (_ ∷ _ ∷ []) c w p (refusal {result = result} no_success) idle
      (one_more h (one_more (shows k) none_left)) =
    let (p', e) = result-resting c w p result (inl no_success) in
    let (s, f, sound, same) = ask_turn-Returns c w p' idle k in (s, rw (e, f) refl, sound, same)
handle_all-Returns (_ ∷ _ ∷ _ ∷ _) c w p brief idle h = elim brief [ ]
