-- ===== src/Game/Tests.antt =====
-- Runs of short games, and the theorems at concrete inputs.
use connectdisks.Prelude.{
  ℕ, Text, numbers, ◌++◌, ◌+◌, ◌*◌, ◌%◌, ◌≤◌, ◌<◌, ◌≡◌, ◌≢◌, ◌↔◌, inl, refl, ap, sym, subst, ◌∙◌,
  Result, false, [], ◌∷◌, List, ok, err, arith, index, write,
}
use connectdisks.Board
use connectdisks.Board.{Board, fresh}
use connectdisks.Board.Cells.{owner, height, pieces}
use connectdisks.Game.{
  FourAcross, Outcome, returned, threw, success, new, no_winner, take_turn, check_for_winner,
  get_next_player, board_full, after_drop, finish_turn, settle_at,
}
use connectdisks.Lines.{check_column, check_row, check_rising, check_falling}
use connectdisks.Lines.Four.{HasFour}
use connectdisks.Game.Winner.{Verdict, check_for_winner-Verdict}
use connectdisks.Game.Players.{IsStart, new-IsStart, get_next_player_lem}
use connectdisks.Game.Turn.{Inv, Succeeds, take_turn_lem}
use connectdisks.Game.Play.{play, play-IsPlayed}
use connectdisks.Game.Print.{to_string, numbers-to_string, winners}
use connectdisks.Board.Print.{owners_down}
use connectdisks.Game.Ending.{
  IsStart-Inv, IsStart-of_new, play_lem, play_over, play_goes_on, board_full_lem,
}

abbrev start : FourAcross
start = record {
  num_turns = 0;
  num_players = 2;
  current_player = 1;
  last_move = (0, 0);
  winner = 0;
  board = fresh 5 4;
}

new-start : new 2 1 5 4 ≡ ok start
unfolding new Board.new
new-start = refl

-- Player 1 builds column 0 and player 2 column 1, three pieces each.
abbrev columns_of_three : List (ℕ × ℕ)
columns_of_three = (1, 0) ∷ (2, 1) ∷ (1, 0) ∷ (2, 1) ∷ (1, 0) ∷ (2, 1) ∷ []

abbrev pub one_to_win : FourAcross
one_to_win = record {
  num_turns = 6;
  num_players = 2;
  current_player = 1;
  last_move = (1, 2);
  winner = 0;
  board = record {
    num_columns = 5;
    num_rows = 4;
    columns =
        (1 ∷ 1 ∷ 1 ∷ 0 ∷ [])
        ∷ (2 ∷ 2 ∷ 2 ∷ 0 ∷ [])
        ∷ (0 ∷ 0 ∷ 0 ∷ 0 ∷ [])
        ∷ (0 ∷ 0 ∷ 0 ∷ 0 ∷ [])
        ∷ (0 ∷ 0 ∷ 0 ∷ 0 ∷ [])
        ∷ [];
    row_indices = 3 ∷ 3 ∷ 0 ∷ 0 ∷ 0 ∷ [];
  };
}

abbrev won : FourAcross
won = record {
  num_turns = 7;
  num_players = 2;
  current_player = 2;
  last_move = (0, 3);
  winner = 1;
  board = record {
    num_columns = 5;
    num_rows = 4;
    columns =
        (1 ∷ 1 ∷ 1 ∷ 1 ∷ [])
        ∷ (2 ∷ 2 ∷ 2 ∷ 0 ∷ [])
        ∷ (0 ∷ 0 ∷ 0 ∷ 0 ∷ [])
        ∷ (0 ∷ 0 ∷ 0 ∷ 0 ∷ [])
        ∷ (0 ∷ 0 ∷ 0 ∷ 0 ∷ [])
        ∷ [];
    row_indices = 4 ∷ 3 ∷ 0 ∷ 0 ∷ 0 ∷ [];
  };
}

played : play start columns_of_three ≡ ok one_to_win
unfolding play take_turn after_drop finish_turn settle_at get_next_player check_for_winner
    check_column check_row check_rising check_falling Board.drop_piece_in_column Board.place
    Board.get_column Board.get_row Board.get_disk_owner_at Board.get_column_height index write
played = refl

winning_turn : take_turn one_to_win 1 0 ≡ returned success won
unfolding take_turn after_drop finish_turn settle_at get_next_player check_for_winner check_column
    Board.drop_piece_in_column Board.place Board.get_column Board.get_disk_owner_at
    Board.get_column_height index write
winning_turn = refl

start-Inv : Inv start
start-Inv =
    IsStart-Inv 2 1 5 4 start (omega arith) (IsStart-of_new 2 1 5 4 start (omega arith) new-start)

pub one_to_win-Inv : Inv one_to_win
one_to_win-Inv =
    let (g, e, p) = play-IsPlayed columns_of_three start start-Inv in
    let same : g ≡ one_to_win = ap (or_start) (sym e ∙ played) in subst Inv same p.inv
  where
    or_start : Result FourAcross → FourAcross
    or_start (ok g) = g
    or_start (err e) = start

new-IsStart_example : (g : FourAcross) × (new 2 2 7 6 ≡ ok g) × IsStart 2 2 7 6 g
new-IsStart_example =
    (new-IsStart 2 2 7 6 (omega arith)).0 (omega arith) (omega arith) (omega arith)

get_next_player_example :
    (get_next_player won ≡ 1) × (1 ≤ get_next_player won) × (get_next_player won ≤ 2)
get_next_player_example = get_next_player_lem won (omega arith) (omega arith) (omega arith)

check_for_winner_example : Verdict one_to_win.board 2 (1, 2) (check_for_winner one_to_win)
unfolding owner
check_for_winner_example =
    check_for_winner-Verdict one_to_win 2 one_to_win-Inv.valid (omega arith) refl

take_turn_example : Succeeds one_to_win 0 (take_turn one_to_win 1 0)
unfolding height
take_turn_example =
    (take_turn_lem one_to_win 1 0 one_to_win-Inv).4 refl refl (omega arith) (omega arith)

play_example :
    (g : FourAcross) × (play start columns_of_three ≡ ok g)
    × (g.board.num_columns ≡ 5)
    × (g.board.num_rows ≡ 4)
    × (g.num_players ≡ 2)
    × (g.num_turns ≡ pieces g.board)
    × (g.num_turns ≤ 5 * 4)
    × (g.current_player ≡ (0 + g.num_turns) % 2 + 1)
    × ((p : ℕ) → p ≢ no_winner → HasFour g.board p ↔ (g.winner ≡ p))
play_example = play_lem 2 1 5 4 start columns_of_three (omega arith) (omega arith) new-start

board_full_example : board_full one_to_win ≡ ok false
board_full_example = board_full_lem one_to_win one_to_win-Inv

after_of : Outcome → FourAcross
after_of (returned _ g) = g
after_of (threw _ g) = g

won-Inv : Inv won
unfolding after_of height
won-Inv =
    let s = (take_turn_lem one_to_win 1 0 one_to_win-Inv).4 refl refl (omega arith) (omega arith) in
    subst Inv (ap after_of (sym s.returns ∙ winning_turn)) s.inv

play_over_example : play won ((2, 4) ∷ (1, 0) ∷ []) ≡ ok won
play_over_example = play_over ((2, 4) ∷ (1, 0) ∷ []) won won-Inv (inl (omega arith))

not_full : board_full one_to_win ≡ ok false
unfolding board_full Board.is_full index
not_full = refl

play_goes_on_example :
    (column : ℕ) × (column < 5) × Succeeds one_to_win column (take_turn one_to_win 1 column)
play_goes_on_example = play_goes_on one_to_win one_to_win-Inv refl not_full

numbers-to_string_example :
    (t : Text) × (to_string one_to_win ≡ ok t)
    × (numbers t
        ≡ owners_down one_to_win.board one_to_win.board.num_rows
          ++ (one_to_win.current_player
              ∷ get_next_player one_to_win
              ∷ one_to_win.num_turns
              ∷ winners one_to_win))
numbers-to_string_example = numbers-to_string one_to_win one_to_win-Inv (omega arith)
