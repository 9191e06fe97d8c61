-- ===== src/Game/Players.antt =====
-- The constructor's checks of the players, and whose turn is next.
use connectdisks.Prelude.{
  ℕ, ◌+◌, ◌≤◌, ◌<◌, ◌≡◌, ◌⊎◌, refl, ok, err, invalid_argument, arith, ◌==◌, if◌then◌else◌, leb, ltb,
  ◌&&◌,
}
use connectdisks.Board.Cells
use connectdisks.Board.Cells.{IsValid, owner, pieces}
use connectdisks.Game.{FourAcross, new, no_winner, get_next_player}

-- The players take turns in the order of their ids, and the first follows the last. The sum of
-- `getNextPlayer` is a `uint8_t`: with 255 players it wraps to 0, which is player 1 too.
pub get_next_player_lem :
    (g : FourAcross)
    → g.num_players < 256
    → 1 ≤ g.current_player
    → g.current_player ≤ g.num_players
    → (get_next_player g ≡ (if g.current_player == g.num_players then 1 else g.current_player + 1))
      × (1 ≤ get_next_player g)
      × (get_next_player g ≤ g.num_players)
unfolding get_next_player
get_next_player_lem g small low high = (ground arith, ground arith, ground arith)

-- A game that has just begun on a board of `nc` columns and `nr` rows.
pub record IsStart (num_players first_player nc nr : ℕ) (g : FourAcross) : Type 0 where
  pub players : g.num_players ≡ (if leb 2 num_players then num_players else 2)
  pub first :
      g.current_player
      ≡ (if ltb 1 first_player && leb first_player num_players then first_player else 1)
  pub in_turn : (1 ≤ g.current_player) × (g.current_player ≤ g.num_players)
  pub valid : IsValid g.board
  pub columns : g.board.num_columns ≡ nc
  pub rows : g.board.num_rows ≡ nr
  pub no_pieces : pieces g.board ≡ 0
  pub unowned : (c r : ℕ) → owner g.board c r ≡ 0
  pub no_turns : g.num_turns ≡ 0
  pub unwon : g.winner ≡ no_winner

-- What the constructor does on all `uint8_t` arguments. On dimensions that a board refuses it throws
-- `invalid_argument`. On any others it makes a game with an empty, well-formed board, no turns and no
-- winner, of at least two players, and the first player is the one asked for if that is a player,
-- and player 1 if not.
pub new-IsStart :
    (num_players first_player nc nr : ℕ)
    → nc < 256
    → (5 ≤ nc
        → 4 ≤ nr
        → nr < nc
        → (g : FourAcross) × (new num_players first_player nc nr ≡ ok g)
          × IsStart num_players first_player nc nr g)
      × ((nc < 5) ⊎ (nr < 4) ⊎ (nc ≤ nr)
          → new num_players first_player nc nr ≡ err invalid_argument)
unfolding new
new-IsStart np fp nc nr small =
    let b = Cells.new-IsValid nc nr small in
    (
      λ hc hr low.
          let (board, e, v, ec, er, none_yet, unowned) = b.0 hc hr low in
          (
            record {
              num_turns = 0;
              num_players = if leb 2 np then np else 2;
              current_player = if ltb 1 fp && leb fp np then fp else 1;
              last_move = (0, 0);
              winner = no_winner;
              board = board;
            },
            rw e,
            record {
              players = refl;
              first = refl;
              in_turn = (ground arith, ground arith);
              valid = v;
              columns = ec;
              rows = er;
              no_pieces = none_yet;
              unowned = unowned;
              no_turns = refl;
              unwon = refl;
            },
          ),
      λ bad. rw (b.1 bad),
    )
