-- ===== src/Server/Handlers.antt =====
-- The handlers of server/src/gamelobby.cpp, as the server sees them: who is in the lobby after them.
use connectdisks.Prelude.{ℕ, ◌≤◌, ◌≡◌, ◌⊎◌, refl, ap, inl, inr, Bool, true, false, ok}
use connectdisks.Connection.{on_game_start, on_game_end, on_turn, on_update}
use connectdisks.Game.{FourAcross, TurnResult, error}
use connectdisks.Board.{min_columns, min_rows}
use connectdisks.Lobby.{Room, id_of, emit, signal, on_disconnect}
use connectdisks.Lobby.Invariant.{
  IsIdle, IsPlaying, Inv, on_game_start-id, on_game_end-id, on_turn-id, on_update-id,
}
use connectdisks.Lobby.Silence.{
  on_turn-Mutes, on_update-Mutes, on_game_start-Mutes, on_game_end-Mutes,
}
use connectdisks.Lobby.Starting.{IsStarted, counted, counted-Inv}
use connectdisks.Lobby.Runs.{on_ready_cases, on_disconnect_cases}
use connectdisks.Lobby.Verdicts.{success_or_not, IsOver-or_not}
use connectdisks.Lobby.Turns.{IsTaken, on_take_turn_lem}
use connectdisks.Server.Calls.{
  SameIds, SameIds-refl, SameIds-emit, SameIds-eq, IsHandled, turn_call, ready_call,
}

-- Nobody leaves.
all_stay :
    (r r' : Room)
    → Inv r'
    → r'.lobby.max_players ≡ r.lobby.max_players
    → r'.lobby.num_players ≡ r.lobby.num_players
    → SameIds r.conns r'.conns
    → IsHandled r r' false
all_stay r r' i limit players ids = record {
  inv = i;
  limit = limit;
  ids = ids;
  stay = λ _. players;
  one_less = λ h. absurd (cc);
}

unchanged : (r : Room) → Inv r → IsHandled r r false
unchanged r i = all_stay r r i refl refl (SameIds-refl r.conns)

module _ (id column : ℕ) (r : Room) (g : FourAcross) (t : TurnResult) (g' : FourAcross) (r' : Room)
    (taken : IsTaken id column r g t g' r') where
  told : SameIds r.conns (emit (on_update id column t) r.lobby.subscribers r.conns)
  told =
      SameIds-emit (on_update id column t) r.lobby.subscribers r.conns (on_update-id id column t)
        (on_update-Mutes id column t) (SameIds-refl r.conns)

  taken-IsHandled : IsHandled r r' false
  taken-IsHandled = elim (success_or_not t) [
    | inr refused ↦
        let (same, lobby, conns) = taken.refused refused in
        all_stay r r' taken.inv (ap (λ l. l.max_players) lobby) (ap (λ l. l.num_players) lobby)
          (SameIds-eq conns told)
    | inl won ↦ elim (IsOver-or_not g') [
      | inl done ↦
          let (lobby, conns) = taken.over won done in
          all_stay r r' taken.inv (ap (λ l. l.max_players) lobby) (ap (λ l. l.num_players) lobby) (
            SameIds-eq conns (
              SameIds-emit (on_game_end g'.winner) r.lobby.subscribers r.conns
                (on_game_end-id g'.winner) (on_game_end-Mutes g'.winner) (rw won at told)))
      | inr more ↦
          let (lobby, conns) = taken.goes_on won more in
          all_stay r r' taken.inv (ap (λ l. l.max_players) lobby) (ap (λ l. l.num_players) lobby) (
            SameIds-eq conns (
              SameIds-emit (on_turn g'.current_player) r.lobby.subscribers r.conns
                (on_turn-id g'.current_player) (on_turn-Mutes g'.current_player) (rw won at told)))
    ]
  ]

pub turn-IsHandled :
    (c column : ℕ) (r : Room)
    → Inv r
    → (r' : Room) × (turn_call c column r ≡ ok (r', false)) × IsHandled r r' false
turn-IsHandled c column r i =
    let l = on_take_turn_lem c column r i in
    elim i.phase [
      | inl p ↦
          let (e, inv) = l.0 p.idle in
          (
            _,
            rw e refl,
            all_stay r (signal (on_update (id_of r.conns c) column error) r) inv refl refl (
                SameIds-emit (on_update (id_of r.conns c) column error) r.lobby.subscribers r.conns
                  (on_update-id (id_of r.conns c) column error)
                  (on_update-Mutes (id_of r.conns c) column error) (SameIds-refl r.conns)),
          )
      | inr p ↦
          let (t, g', r', played, e, taken) = l.1 p in
          (r', rw e refl, taken-IsHandled (id_of r.conns c) column r p.game t g' r' taken)
    ]

-- A client is ready.
started-IsHandled :
    (first : ℕ) (r : Room) (g : FourAcross) (r' : Room)
    → IsIdle r.lobby ⊎ IsPlaying r.lobby
    → IsStarted first r g r'
    → IsHandled r r' false
started-IsHandled first r g r' phase s =
    all_stay r r' s.inv (ap (λ l. l.max_players) s.lobby) (ap (λ l. l.num_players) s.lobby)
      (elim phase [
        | inr p ↦ SameIds-eq (s.untold p.playing) (SameIds-refl r.conns)
        | inl p ↦ SameIds-eq (s.told p.idle) (
            SameIds-emit (on_turn first) r.lobby.subscribers r.conns (on_turn-id first)
              (on_turn-Mutes first)
              (SameIds-emit (on_game_start r.lobby.num_players min_columns min_rows first)
                r.lobby.subscribers r.conns
                (on_game_start-id r.lobby.num_players min_columns min_rows first)
                (on_game_start-Mutes r.lobby.num_players min_columns min_rows first)
                (SameIds-refl r.conns)))
      ])

pub ready-IsHandled :
    (first c : ℕ) (r : Room)
    → Inv r
    → 1 ≤ first
    → first ≤ r.lobby.max_players
    → (r' : Room) × (ready_call first c r ≡ ok (r', false)) × IsHandled r r' false
ready-IsHandled first c r i low high = elim (on_ready_cases first c r i low high) [
  | inl e ↦ (r, rw e refl, unchanged r i)
  | inr (inl e) ↦ (
    counted r,
    rw e refl,
    all_stay r (counted r) (counted-Inv r i) refl refl (SameIds-refl r.conns),
  )
  | inr (inr (g, r', e, started, all_ready)) ↦
      (r', rw e refl, started-IsHandled first r g r' i.phase started)
]

-- A client is gone.
pub disconnect-IsHandled :
    (c : ℕ) (r : Room)
    → Inv r
    → (r' : Room) × (b : Bool) × (on_disconnect c r ≡ ok (r', b)) × IsHandled r r' b
disconnect-IsHandled c r i = elim (on_disconnect_cases c r i) [
  | inl e ↦ (r, false, e, unchanged r i)
  | inr (s, r', e, left, told) ↦ (
    r',
    true,
    e,
    record {
      inv = left.inv;
      limit = left.same_limit;
      ids = elim i.phase [
        | inl p ↦ SameIds-eq (told.quiet p.idle) (SameIds-refl r.conns)
        | inr p ↦ SameIds-eq (told.over p.game p.playing p.has_game) (
            SameIds-emit (on_game_end p.game.winner) r.lobby.subscribers r.conns
              (on_game_end-id p.game.winner) (on_game_end-Mutes p.game.winner)
              (SameIds-refl r.conns))
      ];
      stay = λ h. absurd (cc);
      one_less = λ _. left.one_less;
    },
  )
]
