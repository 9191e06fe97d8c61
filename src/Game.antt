-- ===== src/Game.antt =====
-- game/src/game.cpp and include/four-across/game/game.hpp: the rules of a Four-Across game.
-- Every member function of `FourAcross` is here, under its own name, but the conversion in `Print`;
-- the laws are in the modules below.
pub mod Winner
pub mod Players
pub mod Turn
pub mod Play
pub mod Ending
pub mod Print
pub mod Tests
use package.connectdisks.Prelude.{
  ℕ, zero, suc, ◌+◌, Bool, true, false, not, ◌&&◌, ◌||◌, List, ltb, leb, ◌==◌, if◌then◌else◌,
  Result, ok, err, Failure, invalid_argument, out_of_range, undefined, stuck, ◌>>=◌, index, u8,
  u8_pred, u8_max, u32,
}
use package.connectdisks.Board
use package.connectdisks.Board.{Board}
use package.connectdisks.Lines.{check_column, check_row, check_rising, check_falling}

-- `FourAcross::TurnResult`, in the order of its values.
pub data TurnResult : Type 0 where
  error success wrong_player bad_column column_full game_finished : TurnResult

pub record FourAcross : Type 0 where
  pub num_turns : ℕ
  pub num_players : ℕ
  pub current_player : ℕ
  pub last_move : ℕ × ℕ
  pub winner : ℕ
  pub board : Board

abbrev pub no_winner : ℕ
no_winner = Board.empty_slot

abbrev pub default_first_player : ℕ
default_first_player = 1

abbrev pub min_num_players : ℕ
min_num_players = 2

-- The constructor. The test of `firstPlayer` reads the argument `numPlayers`, not the member.
pub new : ℕ → ℕ → ℕ → ℕ → Result FourAcross
new num_players first_player num_columns num_rows = do
  board ← Board.new num_columns num_rows
  ok (record {
    num_turns = 0;
    num_players = if leb min_num_players num_players then num_players else min_num_players;
    current_player =
        if ltb default_first_player first_player && leb first_player num_players
        then first_player
        else default_first_player;
    last_move = (0, 0);
    winner = no_winner;
    board = board;
  })

abbrev pub has_winner : FourAcross → Bool
has_winner g = not (g.winner == no_winner)

pub board_full : FourAcross → Result Bool
board_full g = Board.is_full g.board

pub get_next_player : FourAcross → ℕ
get_next_player g =
    let next_player = u8 (g.current_player + 1) in
    if ltb g.num_players next_player || next_player == 0 then default_first_player else next_player

-- `lastPlayer` if the check finds four pieces, and what follows if not.
abbrev or_else : Result Bool → ℕ → Result ℕ → Result ℕ
or_else check player rest = check >>= λ found. if found then ok player else rest

pub check_for_winner : FourAcross → Result ℕ
check_for_winner g = do
  last_player ← Board.get_disk_owner_at g.board g.last_move.0 g.last_move.1
  or_else (check_column g.board last_player g.last_move) last_player (
      or_else (check_row g.board last_player g.last_move) last_player (
        or_else (check_rising g.board last_player g.last_move) last_player
          (or_else (check_falling g.board last_player g.last_move) last_player (ok no_winner))))

-- A call of `takeTurn` returns, or an exception leaves it; the game after it either way.
pub data Outcome : Type 0 where
  returned : TurnResult → FourAcross → Outcome
  threw : Failure → FourAcross → Outcome

-- The handlers: `std::out_of_range` is a bad column, any other exception is thrown on.
abbrev pub catch : Failure → FourAcross → Outcome
catch out_of_range g = returned bad_column g
catch e g = threw e g

-- `lastMove` and `numTurns` of a turn whose column is now `height` high. `make_pair` and the
-- assignment cut the row to a `uint8_t`.
pub count_turn : FourAcross → ℕ → ℕ → FourAcross
count_turn g column height = record g {
  last_move = (column, u8_pred height);
  num_turns = u32 (g.num_turns + 1);
}

-- `winner = checkForWinner()`, and the return.
pub settle : FourAcross → Result ℕ → Outcome
settle g (ok w) = returned success (record g { winner = w })
settle g (err e) = catch e g

pub settle_at : FourAcross → ℕ → Result ℕ → Outcome
unfolding count_turn settle
settle_at g column (err e) = catch e g
settle_at g column (ok height) =
    settle (count_turn g column height) (check_for_winner (count_turn g column height))

-- The rest of a turn once the piece has dropped.
pub finish_turn : FourAcross → ℕ → Outcome
finish_turn g column =
    settle_at (record g { current_player = get_next_player g }) column
      (Board.get_column_height g.board column)

-- The drop's result: an exception, a full column, or a valid turn.
pub after_drop : FourAcross → ℕ → Result (Board × Bool) → Outcome
after_drop g column (err e) = catch e g
after_drop g column (ok (b, false)) = returned column_full (record g { board = b })
after_drop g column (ok (b, true)) = finish_turn (record g { board = b }) column

pub try_turn : FourAcross → ℕ → ℕ → Outcome
try_turn g player column = after_drop g column (Board.drop_piece_in_column g.board column player)

pub take_turn : FourAcross → ℕ → ℕ → Outcome
unfolding try_turn
take_turn g player column =
    if has_winner g
    then returned game_finished g
    else (if not (g.current_player == player)
        then returned wrong_player g
        else try_turn g player column)

-- What a game is left as when it has been moved from, with its board moved away.
abbrev emptied : FourAcross → FourAcross
emptied g = record g {
  num_turns = 0;
  num_players = 0;
  current_player = 0;
  last_move = (0, 0);
  winner = no_winner;
}

-- The move constructor: the new game, and the argument after it.
pub move_new : FourAcross → FourAcross × FourAcross
move_new g =
    let (board, left) = Board.move_new g.board in
    (
      record {
        num_turns = g.num_turns;
        num_players = g.num_players;
        current_player = g.current_player;
        last_move = g.last_move;
        winner = g.winner;
        board = board;
      },
      emptied (record g { board = left }),
    )

-- Move assignment between two distinct games: the target and the argument after it.
pub move_assign : FourAcross → FourAcross → FourAcross × FourAcross
move_assign target g =
    let (board, left) = Board.move_assign target.board g.board in
    (
      record target {
        num_turns = g.num_turns;
        num_players = g.num_players;
        current_player = g.current_player;
        last_move = g.last_move;
        winner = g.winner;
        board = board;
      },
      emptied (record g { board = left }),
    )
