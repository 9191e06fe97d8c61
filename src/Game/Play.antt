-- ===== src/Game/Play.antt =====
-- Whole games: any sequence of calls of `takeTurn` on a game that the constructor made.
use connectdisks.Prelude.{
  ℕ, ◌+◌, ◌-◌, ◌%◌, ◌≤◌, ◌<◌, ◌≡◌, ◌⊎◌, ◌∙◌, refl, sym, ap, subst, inl, inr, List, [], ◌∷◌, Result,
  ok, err, arith, ◌==◌, Bool-cases, ==→eq, ==→ne, ltb, ltb→lt, not_ltb→le,
}
use connectdisks.Board.Cells.{height}
use connectdisks.Game.{
  FourAcross, Outcome, TurnResult, returned, threw, no_winner, take_turn, get_next_player,
}
use native.Mathlib.Nat.{mod-eq_of_lt, mod-add-mod, add-mod_right}
use connectdisks.Game.Players.{get_next_player_lem}
use connectdisks.Game.Turn.{Inv, IsTurn, take_turn_lem}

-- The game after the calls `takeTurn(player, column)`, or the exception that leaves one of them.
unfoldable pub play : FourAcross → List (ℕ × ℕ) → Result FourAcross
play g [] = ok g
play g ((player, column) ∷ rest) = elim (take_turn g player column) [
  | returned result g' ↦ play g' rest
  | threw e g' ↦ err e
]

-- A call returns, and leaves the game as it was or takes one turn in it.
pub record Returns (g : FourAcross) (column : ℕ) (o : Outcome) : Type 0 where
  pub result : TurnResult
  pub after : FourAcross
  pub returns : o ≡ returned result after
  pub inv : Inv after
  pub effect : (after ≡ g) ⊎ IsTurn g column after

pub take_turn-Returns :
    (g : FourAcross) (player column : ℕ) → Inv g → Returns g column (take_turn g player column)
take_turn-Returns g player column i =
    let cases = take_turn_lem g player column i in
    elim (Bool-cases (g.winner == no_winner)) [
      | inr won ↦ unchanged (cases.0 (==→ne g.winner 0 won))
      | inl unwon ↦
          let w = ==→eq g.winner 0 unwon in
          elim (Bool-cases (player == g.current_player)) [
            | inr other ↦ unchanged (cases.1 w (==→ne player g.current_player other))
            | inl same ↦
                let p = ==→eq player g.current_player same in
                elim (Bool-cases (ltb column g.board.num_columns)) [
                  | inr off ↦ unchanged (cases.2 w p (not_ltb→le column _ off))
                  | inl on ↦
                      let inside = ltb→lt column _ on in
                      elim (Bool-cases (ltb (height g.board column) g.board.num_rows)) [
                        | inl room ↦
                            let s = cases.4 w p inside (ltb→lt _ _ room) in
                            record {
                              result = TurnResult.success;
                              after = s.after;
                              returns = s.returns;
                              inv = s.inv;
                              effect = inr s.turn;
                            }
                        | inr full ↦ unchanged (
                            cases.3 w p inside
                              (omega (arith, not_ltb→le _ _ full, i.valid.within column)))
                      ]
                ]
          ]
    ]
  where
    unchanged : {t : TurnResult} {o : Outcome} → o ≡ returned t g → Returns g column o
    unchanged {t} e = record { result = t; after = g; returns = e; inv = i; effect = inl refl }

-- `g'` came from `g` by calls of `takeTurn`: the sizes stay, and the turns go round.
pub record IsPlayed (g g' : FourAcross) : Type 0 where
  pub inv : Inv g'
  pub columns : g'.board.num_columns ≡ g.board.num_columns
  pub rows : g'.board.num_rows ≡ g.board.num_rows
  pub players : g'.num_players ≡ g.num_players
  pub more : g.num_turns ≤ g'.num_turns
  pub order :
      g'.current_player - 1 ≡ (g.current_player - 1 + (g'.num_turns - g.num_turns)) % g.num_players

IsPlayed-refl : (g : FourAcross) → Inv g → IsPlayed g g
IsPlayed-refl g i = record {
  inv = i;
  columns = refl;
  rows = refl;
  players = refl;
  more = omega arith;
  order =
      let small : g.current_player - 1 + (g.num_turns - g.num_turns) < g.num_players =
        omega (arith, i.in_turn) in
      sym (mod-eq_of_lt small ∙ omega arith);
}

-- A turn moves the order on by one.
next_order :
    (g : FourAcross) → Inv g → get_next_player g - 1 ≡ (g.current_player - 1 + 1) % g.num_players
next_order g i =
    let n = get_next_player_lem g i.players i.in_turn.0 i.in_turn.1 in
    elim (Bool-cases (g.current_player == g.num_players)) [
      | inl last ↦
          let e = ==→eq g.current_player g.num_players last in
          let whole : g.current_player - 1 + 1 ≡ 0 + g.num_players = omega (arith, i.in_turn) in
          ground (arith, n, ap (λ (t : ℕ). t % g.num_players) whole, add-mod_right 0 g.num_players)
      | inr other ↦
          let e = ==→ne g.current_player g.num_players other in
          let small : g.current_player - 1 + 1 < g.num_players = omega (arith, i.in_turn) in
          ground (arith, n, mod-eq_of_lt small, i.in_turn)
    ]

IsPlayed-turn :
    (g g1 g' : FourAcross) (column : ℕ)
    → Inv g
    → IsTurn g column g1
    → IsPlayed g1 g'
    → IsPlayed g g'
IsPlayed-turn g g1 g' column i t p = record {
  inv = p.inv;
  columns = p.columns ∙ t.dropped.same_columns;
  rows = p.rows ∙ t.dropped.same_rows;
  players = p.players ∙ t.same_players;
  more = omega (arith, p.more, t.turns);
  order =
      let n = g.num_players in
      let k = g'.num_turns - g1.num_turns in
      let here : g1.current_player - 1 ≡ (g.current_player - 1 + 1) % n =
        ap (λ (x : ℕ). x - 1) t.next ∙ next_order g i in
      let sum : g.current_player - 1 + 1 + k ≡ g.current_player - 1 + (g'.num_turns - g.num_turns) =
        omega (arith, t.turns, p.more) in
      p.order
      ∙ ap (λ (m : ℕ). (g1.current_player - 1 + k) % m) t.same_players
      ∙ ap (λ (x : ℕ). (x + k) % n) here
      ∙ mod-add-mod (g.current_player - 1 + 1) n k
      ∙ ap (λ (x : ℕ). x % n) sum;
}

pub play-IsPlayed :
    (moves : List (ℕ × ℕ)) (g : FourAcross)
    → Inv g
    → (g' : FourAcross) × (play g moves ≡ ok g') × IsPlayed g g'
unfolding play
play-IsPlayed [] g i = (g, refl, IsPlayed-refl g i)
play-IsPlayed ((player, column) ∷ rest) g i =
    let r = take_turn-Returns g player column i in
    let (g', e, p) = play-IsPlayed rest r.after r.inv in
    (
      g',
      rw (r.returns, play) e,
      elim r.effect [
        | inl same ↦ subst (λ h. IsPlayed h g') same p
        | inr t ↦ IsPlayed-turn g r.after g' column i t p
      ],
    )
