-- ===== src/Lobby/Turns.antt =====
-- `onTakeTurn`: what the players hear of a turn, and when a game is over.
use connectdisks.Prelude.{
  ℕ, ◌≡◌, ◌≢◌, ◌∙◌, refl, sym, ap, inl, inr, Bool, true, false, some, none, ok, arith, ◌==◌,
  if◌then◌else◌, Bool-cases, ==→eq, ne→==,
}
use connectdisks.Connection.{on_game_end, on_turn, on_update}
use connectdisks.Game.{
  FourAcross, TurnResult, error, success, returned, no_winner, board_full, take_turn, has_winner,
}
use connectdisks.Game.Turn.{Succeeds}
use connectdisks.Game.Ending.{board_full_lem}
use connectdisks.Lobby.{Room, after_turn, on_take_turn, id_of, emit, signal}
use connectdisks.Lobby.Invariant.{
  IsSeating, IsPlaying, Inv, on_update-id, on_turn-id, regame-IsSeating, signal-IsSeating,
  on_game_over_lem,
}
use connectdisks.Lobby.Verdicts.{turn_cases, after_turn-refused, IsOver, test_lem}

-- `r'` is `r` after the turn of the player `id` in `column`, of which the game `g` made `result` and
-- the game `g'`.
pub record IsTaken (id column : ℕ) (r : Room) (g : FourAcross) (result : TurnResult)
    (g' : FourAcross) (r' : Room) : Type 0 where
  pub refused :
      result ≢ success
      → (g' ≡ g)
        × (r'.lobby ≡ r.lobby)
        × (r'.conns ≡ emit (on_update id column result) r.lobby.subscribers r.conns)
  pub goes_on :
      result ≡ success
      → ¬ IsOver g'
      → (r'.lobby ≡ record (r.lobby) { game = some g' })
        × (r'.conns
            ≡ emit
                (on_turn g'.current_player)
                r.lobby.subscribers
                (emit (on_update id column success) r.lobby.subscribers r.conns))
  pub over :
      result ≡ success
      → IsOver g'
      → (r'.lobby ≡ record (r.lobby) { game = none; is_playing_game = false; num_ready = 0 })
        × (r'.conns
            ≡ emit
                (on_game_end g'.winner)
                r.lobby.subscribers
                (emit (on_update id column success) r.lobby.subscribers r.conns))
  pub inv : Inv r'

module _ (c column : ℕ) (r : Room) (i : Inv r) (p : IsPlaying r.lobby) where
  open i use {seating}

  abbrev id : ℕ
  id = id_of r.conns c

  abbrev told : TurnResult → FourAcross → Room
  told t g =
      signal (on_update id column t) (record r { lobby = record (r.lobby) { game = some g } })

  told-IsSeating : (t : TurnResult) (g : FourAcross) → IsSeating (told t g)
  told-IsSeating t g =
      signal-IsSeating (on_update id column t) (on_update-id id column t) _
        (regame-IsSeating r r.lobby.is_playing_game (some g) r.lobby.num_ready seating)

  -- What the game returned is what is handled after it.
  runs :
      (t : TurnResult) (g : FourAcross)
      → take_turn p.game id column ≡ returned t g
      → on_take_turn c column r ≡ after_turn t g (told t g)
  unfolding on_take_turn after_turn
  runs t g e = rw (p.playing, p.has_game, e)

  abbrev Taken : Type 0
  Taken =
      (result : TurnResult) × (g' : FourAcross) × (r' : Room) × (take_turn p.game id column
        ≡ returned result g')
      × (on_take_turn c column r ≡ ok r')
      × IsTaken id column r p.game result g' r'

  takes_refused :
      (t : TurnResult) → t ≢ success → take_turn p.game id column ≡ returned t p.game → Taken
  takes_refused t h e = (
    t,
    p.game,
    told t p.game,
    e,
    runs t p.game e ∙ after_turn-refused t p.game (told t p.game) h p.unwon p.room_left,
    record {
      refused = λ _. (refl, ap (λ x. record (r.lobby) { game = x }) (sym p.has_game), refl);
      goes_on = λ s _. absurd (h s);
      over = λ s _. absurd (h s);
      inv = record {
        seating = told-IsSeating t p.game;
        phase = inr (record {
          game = p.game;
          playing = p.playing;
          has_game = refl;
          inv = p.inv;
          unwon = p.unwon;
          room_left = p.room_left;
          all_play = p.all_play;
          full = p.full;
        });
      };
    },
  )

  module _ (s : Succeeds p.game column (take_turn p.game id column)) where
    open s use {after}

    takes_over :
        (if has_winner after then ok true else board_full after) ≡ ok true → IsOver after → Taken
    unfolding after_turn
    takes_over test done =
        let (r', e, inv, conns, lobby) =
          on_game_over_lem (told success after) after (told-IsSeating success after) refl in
        (
          success,
          after,
          r',
          s.returns,
          runs success after s.returns ∙ rw test e,
          record {
            refused = λ h. absurd (h refl);
            goes_on = λ _ h. absurd (h done);
            over = λ _ _. (lobby, conns);
            inv = inv;
          },
        )

    still_unwon : ¬ IsOver after → after.winner ≡ no_winner
    still_unwon open_still = elim (Bool-cases (after.winner == no_winner)) [
      | inl e ↦ ==→eq _ _ e
      | inr won ↦ absurd (open_still (inl (ground arith)))
    ]

    still_room : ¬ IsOver after → board_full after ≡ ok false
    still_room open_still = board_full_lem after s.inv ∙ ap ok (ne→== _ _ (λ e. open_still (inr e)))

    takes_on :
        (if has_winner after then ok true else board_full after) ≡ ok false → ¬ IsOver after → Taken
    unfolding after_turn
    takes_on test open_still = (
      success,
      after,
      signal (on_turn after.current_player) (told success after),
      s.returns,
      runs success after s.returns ∙ rw test refl,
      record {
        refused = λ h. absurd (h refl);
        goes_on = λ _ _. (refl, refl);
        over = λ _ h. absurd (open_still h);
        inv = record {
          seating =
              signal-IsSeating (on_turn after.current_player) (on_turn-id after.current_player) _
                (told-IsSeating success after);
          phase = inr (record {
            game = after;
            playing = p.playing;
            has_game = refl;
            inv = s.inv;
            unwon = still_unwon open_still;
            room_left = still_room open_still;
            all_play = s.turn.same_players ∙ p.all_play;
            full = p.full;
          });
        };
      },
    )

    takes_by :
        (full : Bool)
        → (if has_winner after then ok true else board_full after) ≡ ok full
        → (full ≡ true → IsOver after)
        → (full ≡ false → ¬ IsOver after)
        → Taken
    takes_by true test over open_on = takes_over test (over refl)
    takes_by false test over open_on = takes_on test (open_on refl)

  takes : Taken
  takes = elim (turn_cases p.game id column p.inv p.unwon) [
    | inl (t, h, e) ↦ takes_refused t h e
    | inr s ↦
        let (full, test, over, open_on) = test_lem s.after s.inv in
        takes_by s full test over open_on
  ]

failing :
    (c column : ℕ) (r : Room)
    → r.lobby.is_playing_game ≡ false
    → on_take_turn c column r ≡ ok (signal (on_update (id_of r.conns c) column error) r)
unfolding on_take_turn
failing c column r idle = rw idle

-- What `onTakeTurn` does in a well-formed lobby, with any connection and any column. While no game
-- is played, the lobby stays as it is and each subscriber is told of an `error`. Otherwise
-- `takeTurn` of the game returns a result, and each subscriber is told of the turn with it. If the
-- result is not `success`, that is all, and the lobby is as it was. If it is, and the new piece
-- makes a winner or fills the board, no game is played any more, and each subscriber is told the
-- winner, if there is one; if it does neither, the game goes on as `takeTurn` left it, and each
-- subscriber is told whose turn is next. In every case the lobby stays well formed.
pub on_take_turn_lem :
    (c column : ℕ) (r : Room)
    → Inv r
    → (r.lobby.is_playing_game ≡ false
        → (on_take_turn c column r ≡ ok (signal (on_update (id_of r.conns c) column error) r))
          × Inv (signal (on_update (id_of r.conns c) column error) r))
      × ((p : IsPlaying r.lobby)
          → (result : TurnResult) × (g' : FourAcross) × (r' : Room) × (take_turn p.game
                (id_of r.conns c)
                column
              ≡ returned result g')
            × (on_take_turn c column r ≡ ok r')
            × IsTaken (id_of r.conns c) column r p.game result g' r')
on_take_turn_lem c column r i = (
  λ idle. (
    failing c column r idle,
    record {
      seating =
          signal-IsSeating (on_update (id_of r.conns c) column error)
            (on_update-id (id_of r.conns c) column error) r i.seating;
      phase = i.phase;
    },
  ),
  λ p. takes c column r i p,
)
