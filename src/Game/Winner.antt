-- ===== src/Game/Winner.antt =====
-- `checkForWinner` finds exactly the four pieces in a line that go through the last move.
use connectdisks.Prelude.{
  ℕ, ◌≡◌, ◌≢◌, ◌∙◌, ◌⊎◌, refl, sym, ap, subst, Bool, inl, inr, Result, ok, Bool-cases,
}
use connectdisks.Board.{Board}
use connectdisks.Board.Cells.{IsValid, owned_inside, get_disk_owner_at-owner}
use connectdisks.Game.{FourAcross, no_winner, check_for_winner, or_else}
use connectdisks.Lines.Checks.{
  Decides, check_column-Decides, check_row-Decides, check_rising-Decides, check_falling-Decides,
}
use connectdisks.Lines.Four.{Direction, vertical, horizontal, rising, falling, Owns, Through}

module _ (b : Board) (player : ℕ) (slot : ℕ × ℕ) where
  -- The answer of the checks in the directions `Tried`.
  abbrev Stage : (Direction → Type 0) → Result ℕ → Type 0
  Stage Tried result =
      (answer : ℕ) × (result ≡ ok answer)
      × ((answer ≡ player) × ((d : Direction) × Through b player slot d)
          ⊎ (answer ≡ no_winner) × ((d : Direction) → Tried d → ¬ Through b player slot d))

  -- One more check in front.
  or_else-Stage :
      {Tried : Direction → Type 0} {check : Result Bool} {rest : Result ℕ} (d : Direction)
      → Decides b player slot d check
      → Stage Tried rest
      → Stage (λ e. (e ≡ d) ⊎ Tried e) (or_else check player rest)
  or_else-Stage d (w, e, i) (answer, f, said) = elim (Bool-cases w) [
    | inl t ↦ (player, rw (e, t), inl (refl, (d, i.0 t)))
    | inr n ↦ (
      answer,
      rw (e, n) f,
      elim said [
        | inl won ↦ inl won
        | inr (none_won, lineless) ↦ inr (
          none_won,
          λ d' tried line. elim tried [
            | inl same ↦ let t = i.1 (subst (Through b player slot) same line) in cc
            | inr other ↦ lineless d' other line
          ],
        )
      ],
    )
  ]

  ok-Stage : Stage (λ _. ⊥) (ok no_winner)
  ok-Stage = (no_winner, refl, inr (refl, λ d t. absurd t))

-- What `checkForWinner` answers: the owner of the last move, if four of theirs in a line go through
-- it, and no winner if not.
pub record Verdict (b : Board) (player : ℕ) (last : ℕ × ℕ) (result : Result ℕ) : Type 0 where
  pub answer : ℕ
  pub returns : result ≡ ok answer
  pub correct :
      (answer ≡ player) × ((d : Direction) × Through b player last d)
      ⊎ (answer ≡ no_winner) × ((d : Direction) → ¬ Through b player last d)

-- On a well-formed board whose last move is a slot that a player owns, `checkForWinner` returns: no
-- loop runs out of rounds and no read is out of bounds. It returns that player exactly if four slots
-- of the player in a line, in any of the four directions, go through the last move; otherwise it
-- returns no winner.
pub check_for_winner-Verdict :
    (g : FourAcross) (player : ℕ)
    → IsValid g.board
    → player ≢ no_winner
    → Owns g.board player g.last_move
    → Verdict g.board player g.last_move (check_for_winner g)
unfolding check_for_winner
check_for_winner-Verdict g p v owned own =
    let b = g.board in
    let c = g.last_move.0 in
    let r = g.last_move.1 in
    let (hc, hr, _) = owned_inside b v c r (λ z. owned (sym own ∙ z)) in
    let (answer, returns, said) =
      or_else-Stage b p (c, r) vertical (check_column-Decides b p v owned c r hc hr own)
        (or_else-Stage b p (c, r) horizontal (check_row-Decides b p v owned c r hc hr own)
          (or_else-Stage b p (c, r) rising (check_rising-Decides b p v owned c r hc hr own)
            (or_else-Stage b p (c, r) falling (check_falling-Decides b p v owned c r hc hr own)
              (ok-Stage b p (c, r))))) in
    record {
      answer = answer;
      returns = rw (get_disk_owner_at-owner b v c r hc hr ∙ ap ok own) returns;
      correct = elim said [
        | inl won ↦ inl won
        | inr (none_won, lineless) ↦ inr (
          none_won,
          elim [
            | vertical ↦ lineless vertical (inl refl)
            | horizontal ↦ lineless horizontal (inr (inl refl))
            | rising ↦ lineless rising (inr (inr (inl refl)))
            | falling ↦ lineless falling (inr (inr (inr (inl refl))))
          ],
        )
      ];
    }
