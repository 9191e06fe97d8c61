-- ===== src/Input.antt =====
-- client/src/consoleclient.cpp, the callbacks: what a word that a user enters does.
pub mod Numerals
pub mod Columns
pub mod Answers
mod Tests
use package.connectdisks.Prelude.{
  ℕ, zero, suc, ◌+◌, ◌-◌, ◌*◌, Bool, true, false, not, ◌&&◌, ◌||◌, Option, none, some, List, [],
  ◌∷◌, ◌++◌, ltb, leb, ◌==◌, if◌then◌else◌, Result, ok, err, undefined, ◌>>=◌, u8, Text, codes,
  decimal, is_digit, length,
}
use Prim.Native.Nat.{◌^◌}
use package.connectdisks.Game.{
  FourAcross, TurnResult, error, success, wrong_player, bad_column, column_full, game_finished,
}
use package.connectdisks.Game.Print
use package.connectdisks.Connection.{ReadResult, arrived, nothing, closed, failed}
use package.connectdisks.Client
use package.connectdisks.Client.{
  Client, Notice, on_connect, on_queue_update, on_game_end, on_disconnect, handle_turn_request,
  on_game_start, on_game_update, on_turn_result, TurnValue, named, unnamed, toggle_ready, send_turn,
}

-- The callbacks of `onConnect`, of `onGameEnd`, and of `handleTurnRequest` with its `maxColumns`.
pub data InputCallback : Type 0 where
  ask_ready ask_rematch : InputCallback
  ask_column : ℕ → InputCallback

-- White space, as `isspace` tells it.
abbrev pub is_space : ℕ → Bool
is_space c = c == 32 || (leb 9 c && leb c 13)

abbrev pub skip_spaces : Text → Text
skip_spaces [] = []
skip_spaces (c ∷ cs) = let rest = skip_spaces cs in if is_space c then rest else c ∷ cs

-- The digits at the front of a text after the number so far, and the rest.
abbrev pub read_digits : ℕ → Text → ℕ × Text
read_digits n [] = (n, [])
read_digits n (c ∷ cs) =
    let more = read_digits (10 * n + (c - 48)) cs in if is_digit c then more else (n, c ∷ cs)

-- An `int`, by sign: whether it is negative, and its absolute value.
pub record SignedNumber : Type 0 where
  pub negative : Bool
  pub magnitude : ℕ

-- What follows the sign: none if it starts with no digit, or if the number is not an `int`.
abbrev pub unsigned_digits : Bool → Text → Option (SignedNumber × Text)
unsigned_digits negative [] = none
unsigned_digits negative (c ∷ cs) =
    let (n, rest) = read_digits 0 (c ∷ cs) in
    if is_digit c && leb n (if negative then 2 ^ 31 else 2 ^ 31 - 1)
    then some (record { negative = negative; magnitude = n }, rest)
    else none

abbrev pub signed_digits : Text → Option (SignedNumber × Text)
signed_digits [] = none
signed_digits (c ∷ cs) =
    if c == 45
    then unsigned_digits true cs
    else (if c == 43 then unsigned_digits false cs else unsigned_digits false (c ∷ cs))

-- `std::stoi`: the number, and how many characters it took; none for an exception.
unfoldable pub stoi : Text → Option (SignedNumber × ℕ)
stoi input = elim (signed_digits (skip_spaces input)) [
  | none ↦ none
  | some (n, rest) ↦ some (n, length input - length rest)
]

abbrev pub chosen : ℕ → ℕ → SignedNumber × ℕ → Option ℕ
chosen max_columns size (column, pos) =
    if pos == size
      && (not column.negative && ltb 0 column.magnitude)
      && leb column.magnitude max_columns
    then some column.magnitude
    else none

-- The `try` block of the callback of `handleTurnRequest`, up to the call of `sendTurn`.
unfoldable pub read_column : ℕ → Text → Option ℕ
unfolding stoi
read_column max_columns input = elim (stoi input) [
  | none ↦ none
  | some number ↦ chosen max_columns (length input) number
]

unfoldable pub same_text : Text → Text → Bool
same_text [] [] = true
same_text [] (d ∷ ds) = false
same_text (c ∷ cs) [] = false
same_text (c ∷ cs) (d ∷ ds) = c == d && same_text cs ds

-- The callbacks of the two questions, with their word for yes, and what they print.
unfoldable pub answer : Text → Text → Text → Text → Client → Result (Client × Text × Bool)
unfolding same_text
answer agreed sending exiting input c =
    if same_text input agreed
    then ok (toggle_ready c, sending, true)
    else (if same_text input (codes "quit")
        then (do c' ← Client.stop c; ok (c', exiting, false))
        else ok (c, codes "Unrecognized input\n", false))

-- The client after a callback, what it prints, and what it returns.
unfoldable pub call : InputCallback → Text → Client → Result (Client × Text × Bool)
unfolding answer read_column
call ask_ready input c =
    answer (codes "ready") (codes "Sending ready to server\n") (codes "Exiting\n") input c
call ask_rematch input c =
    answer (codes "rematch") (codes "Sending rematch request to server\n") (codes "Exiting...\n")
      input c
call (ask_column max_columns) input c = elim (read_column max_columns input) [
  | some column ↦ ok (send_turn (u8 (column - 1)) c, [], true)
  | none ↦ ok (c, codes "Invalid input, try again: ", false)
]
