-- ===== src/Lobby/Verdicts.antt =====
-- `onTakeTurn`: what the game may say of a turn, and what is tested after it.
use connectdisks.Prelude.{
  ℕ, ◌*◌, ◌≡◌, ◌≢◌, ◌⊎◌, ◌∙◌, refl, sym, false≢true, inl, inr, Bool, true, false, ok, arith, ◌==◌,
  ltb, if◌then◌else◌, Bool-cases, ==→eq, eq→==,
}
use connectdisks.Board.Cells.{height}
use connectdisks.Game.{
  FourAcross, TurnResult, error, success, wrong_player, bad_column, column_full, game_finished,
  returned, no_winner, board_full, take_turn, has_winner,
}
use connectdisks.Game.Turn
use connectdisks.Game.Turn.{Succeeds, take_turn_lem}
use connectdisks.Game.Ending.{board_full_lem}
use connectdisks.Lobby.{Room, after_turn}

-- A turn that does not count leaves the game as it was.
pub turn_cases :
    (g : FourAcross) (id column : ℕ)
    → Turn.Inv g
    → g.winner ≡ no_winner
    → ((t : TurnResult) × (t ≢ success) × (take_turn g id column ≡ returned t g))
      ⊎ Succeeds g column (take_turn g id column)
turn_cases g id column i unwon =
    let l = take_turn_lem g id column i in
    elim (Bool-cases (id == g.current_player)) [
      | inr other ↦ inl (wrong_player, cc, l.1 unwon (ground arith))
      | inl mine ↦ elim (Bool-cases (ltb column g.board.num_columns)) [
        | inr off ↦ inl (bad_column, cc, l.2 unwon (ground arith) (ground arith))
        | inl on ↦ elim (Bool-cases (height g.board column == g.board.num_rows)) [
          | inl full ↦
              inl (column_full, cc, l.3 unwon (ground arith) (ground arith) (==→eq _ _ full))
          | inr short ↦
              inr (l.4 unwon (ground arith) (ground arith) (ground (arith, i.valid.within column)))
        ]
      ]
    ]

pub after_turn-refused :
    (t : TurnResult) (g : FourAcross) (r : Room)
    → t ≢ success
    → g.winner ≡ no_winner
    → board_full g ≡ ok false
    → after_turn t g r ≡ ok r
unfolding after_turn
after_turn-refused success g r h unwon left = absurd (h refl)
after_turn-refused error g r h unwon left = rw (left, unwon)
after_turn-refused wrong_player g r h unwon left = rw (left, unwon)
after_turn-refused bad_column g r h unwon left = rw (left, unwon)
after_turn-refused column_full g r h unwon left = rw (left, unwon)
after_turn-refused game_finished g r h unwon left = rw (left, unwon)

-- The game is over: somebody has won, or every slot is taken.
abbrev pub IsOver : FourAcross → Type 0
IsOver g = (g.winner ≢ no_winner) ⊎ (g.num_turns ≡ g.board.num_columns * g.board.num_rows)

-- What the test after a turn says.
pub test_lem :
    (g : FourAcross)
    → Turn.Inv g
    → (full : Bool) × ((if has_winner g then ok true else board_full g) ≡ ok full)
      × (full ≡ true → IsOver g)
      × (full ≡ false → ¬ IsOver g)
test_lem g i = elim (Bool-cases (g.winner == no_winner)) [
  | inr won ↦
      let w : g.winner ≢ no_winner = ground arith in
      (true, ground (arith, won), λ _. inl w, λ h. absurd (cc))
  | inl unwon ↦
      let none_yet : g.winner ≡ no_winner = ==→eq _ _ unwon in
      let area = g.board.num_columns * g.board.num_rows in
      (
        g.num_turns == area,
        rw unwon (board_full_lem g i),
        λ h. inr (==→eq _ _ h),
        λ h o. elim o [
          | inl won ↦ won none_yet
          | inr full ↦ absurd (false≢true (sym h ∙ eq→== _ _ full))
        ],
      )
]

pub success_or_not : (t : TurnResult) → (t ≡ success) ⊎ (t ≢ success)
success_or_not success = inl refl
success_or_not error = inr (cc)
success_or_not wrong_player = inr (cc)
success_or_not bad_column = inr (cc)
success_or_not column_full = inr (cc)
success_or_not game_finished = inr (cc)

pub IsOver-or_not : (g : FourAcross) → IsOver g ⊎ ¬ IsOver g
IsOver-or_not g = elim (Bool-cases (g.winner == no_winner)) [
  | inr won ↦ inl (inl (ground arith))
  | inl unwon ↦ elim (Bool-cases (g.num_turns == g.board.num_columns * g.board.num_rows)) [
    | inl full ↦ inl (inr (==→eq _ _ full))
    | inr room ↦ inr (λ o. elim o [
      | inl won ↦ won (==→eq _ _ unwon)
      | inr full ↦ absurd (ground (arith, room, full))
    ])
  ]
]
