-- ===== src/Game/Print.antt =====
-- The conversion of a game to a string, in game/src/game.cpp.
use connectdisks.Prelude.{
  ℕ, ◌-◌, ◌≤◌, ◌<◌, ◌≡◌, ◌∙◌, refl, ap, List, [], ◌∷◌, ◌++◌, Result, ok, ◌>>=◌, arith, Text, codes,
  decimal, numbers, scan, scan-decimal, some, inl, inr, Bool-cases, if◌then◌else◌, ltb, lt→ltb,
}
use Prim.Native.Nat.{◌^◌}
use native.Mathlib.Nat.{mul-le-mul_right}
use connectdisks.Board.Cells.{IsValid, pieces-le}
use connectdisks.Board.Print
use connectdisks.Board.Print.{owners_down, to_string_lem}
use connectdisks.Game.{FourAcross, has_winner, get_next_player}
use connectdisks.Game.Turn.{Inv}

-- What `<<` prints for the `int` that a `uint32_t` is cast to.
pub show_int : ℕ → Text
show_int n = if ltb n (2 ^ 31) then decimal n else codes "-" ++ decimal (2 ^ 32 - n)

pub show_winner : FourAcross → Text
show_winner g = if has_winner g then codes "Winner: " ++ (decimal g.winner ++ codes "\n") else []

pub show_state : FourAcross → Text
unfolding show_int show_winner
show_state g =
    codes "\nCurrent player: "
    ++ (decimal g.current_player
        ++ (codes " Next player: "
            ++ (decimal (get_next_player g)
                ++ (codes "\nNum turns: "
                    ++ (show_int g.num_turns ++ (codes "\n" ++ show_winner g))))))

pub to_string : FourAcross → Result Text
unfolding show_state
to_string g = do board ← Print.to_string g.board; ok (board ++ show_state g)

show_int_lem :
    (n : ℕ) (rest : Text) → n < 2 ^ 31 → numbers (show_int n ++ rest) ≡ scan (some n) rest
unfolding show_int
show_int_lem n rest small = rw (lt→ltb n (2 ^ 31) small) (scan-decimal n rest)

abbrev pub winners : FourAcross → List ℕ
winners g = if has_winner g then g.winner ∷ [] else []

numbers-show_winner : (g : FourAcross) → numbers (show_winner g) ≡ winners g
unfolding show_winner scan
numbers-show_winner g = elim (Bool-cases (has_winner g)) [
  | inl won ↦ rw won (scan-decimal g.winner (codes "\n"))
  | inr not_yet ↦ rw not_yet refl
]

numbers-show_state :
    (g : FourAcross)
    → g.num_turns < 2 ^ 31
    → numbers (show_state g) ≡ g.current_player ∷ get_next_player g ∷ g.num_turns ∷ winners g
unfolding show_state scan
numbers-show_state g small =
    let end = codes "\n" ++ show_winner g in
    let turns = codes "\nNum turns: " ++ (show_int g.num_turns ++ end) in
    let next = codes " Next player: " ++ (decimal (get_next_player g) ++ turns) in
    scan-decimal g.current_player next
    ∙ ap (λ l. g.current_player ∷ l)
        (scan-decimal (get_next_player g) turns
          ∙ ap (λ l. get_next_player g ∷ l)
              (show_int_lem g.num_turns end small
                ∙ ap (λ l. g.num_turns ∷ l) (numbers-show_winner g)))

pub to_string-returns :
    (g : FourAcross) → IsValid g.board → 1 ≤ g.board.num_rows → (t : Text) × (to_string g ≡ ok t)
unfolding to_string
to_string-returns g v some_row =
    let (board, e, reads) = (to_string_lem g.board v).0 some_row in
    (board ++ show_state g, rw e refl)

-- A game that keeps the rules, on a board with at least one row, is converted to a string with no
-- exception and no bad read. The numbers in that string are the owners of all slots, row by
-- row from the top and each row from the left, then the current player, the next player, the number
-- of turns, and the winner if there is one.
pub numbers-to_string :
    (g : FourAcross)
    → Inv g
    → 1 ≤ g.board.num_rows
    → (t : Text) × (to_string g ≡ ok t)
      × (numbers t
          ≡ owners_down g.board g.board.num_rows
            ++ (g.current_player ∷ get_next_player g ∷ g.num_turns ∷ winners g))
unfolding to_string
numbers-to_string g i some_row =
    let (board, e, reads) = (to_string_lem g.board i.valid).0 some_row in
    let wide : g.board.num_columns ≤ 255 = omega (arith, i.valid.wide) in
    let few : g.num_turns < 2 ^ 31 = omega (
      arith,
      i.counted,
      pieces-le g.board i.valid,
      mul-le-mul_right g.board.num_rows wide,
      i.valid.wide,
      i.valid.low,
    ) in
    (
      board ++ show_state g,
      rw e refl,
      reads (show_state g)
          ∙ ap (λ l. owners_down g.board g.board.num_rows ++ l) (numbers-show_state g few),
    )
