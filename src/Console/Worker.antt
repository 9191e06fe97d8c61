-- ===== src/Console/Worker.antt =====
-- The input worker, and the question for a column.
use connectdisks.Prelude.{
  ◌≤◌, ◌≡◌, ◌∙◌, ap, true, false, some, ◌++◌, ok, ◌>>=◌, Text, codes, decimal,
}
use connectdisks.Board.Cells.{IsValid}
use connectdisks.Game.{FourAcross}
use connectdisks.Game.Print
use connectdisks.Game.Print.{to_string-returns}
use connectdisks.Input.{InputCallback, ask_column}
use connectdisks.Console.{
  ConsoleClient, InputWorker, not_joinable, finished, reading_for, restart, tell, with_game,
  tell_game, ask_turn,
}

-- A worker whose thread nobody joins: not started, reading, or done with its question.
pub data IsIdle : InputWorker → Type 0 where
  quiet : IsIdle (record { running = false; thread = not_joinable })
  asking :
      {callback : InputCallback} → IsIdle (record { running = true; thread = reading_for callback })
  answered : IsIdle (record { running = true; thread = finished })

abbrev pub asking_worker : InputCallback → InputWorker
asking_worker callback = record { running = true; thread = reading_for callback }

pub tell_game_lem :
    (s : ConsoleClient) (g : FourAcross) (t : Text)
    → s.client.game ≡ some g
    → Print.to_string g ≡ ok t
    → tell_game s ≡ ok (tell (t ++ codes "\n") s)
unfolding tell_game
tell_game_lem s g t has_game e =
    ap (λ o. with_game o (λ g. do t ← Print.to_string g; ok (tell (t ++ codes "\n") s))) has_game
    ∙ ap (λ r. r >>= λ t. ok (tell (t ++ codes "\n") s)) e

pub ask_turn_lem :
    (s : ConsoleClient) (g : FourAcross)
    → s.client.game ≡ some g
    → IsValid g.board
    → 1 ≤ g.board.num_rows
    → (p : Text) × (ask_turn s
        ≡ restart (ask_column g.board.num_columns) (record s { printed = p }))
unfolding ask_turn tell tell_game
ask_turn_lem s g has_game v some_row =
    let (t, e) = to_string-returns g v some_row in
    let shown = tell (t ++ codes "\n") s in
    let question =
      codes "It's your turn!\nEnter the column to place your piece (min=1,max="
      ++ (decimal g.board.num_columns ++ codes "): ") in
    (
      s.printed ++ (t ++ codes "\n") ++ question,
      ap
            (λ r. r >>= λ s'. with_game s'.client.game (λ g.
              restart (ask_column g.board.num_columns) (
                tell
                  (codes "It's your turn!\nEnter the column to place your piece (min=1,max="
                    ++ (decimal g.board.num_columns ++ codes "): "))
                  s')))
            (tell_game_lem s g t has_game e)
          ∙ ap
              (λ o. with_game o (λ g. restart (ask_column g.board.num_columns) (
                tell
                  (codes "It's your turn!\nEnter the column to place your piece (min=1,max="
                    ++ (decimal g.board.num_columns ++ codes "): "))
                  shown)))
              has_game,
    )
