-- ===== src/Client/Beside.antt =====
-- What happens in a lobby of server/src/gamelobby.cpp does not reach the connections of another.
use connectdisks.Prelude.{
  ℕ, ◌+◌, ◌≤◌, ◌<◌, ◌≢◌, length, ◌≡◌, ◌∙◌, refl, ap, inl, inr, Bool, true, false, List, ok,
  get_elem?,
}
use connectdisks.Board.{min_columns, min_rows}
use connectdisks.Game.{FourAcross, TurnResult, error}
use connectdisks.Connection.{Connection, set_id, on_game_start, on_game_end, on_turn, on_update}
use connectdisks.Lobby.{Room, emit, signal, id_of, on_disconnect, add_player, enter}
use connectdisks.Lobby.Invariant.{Inv}
use connectdisks.Lobby.Messages.{occurs, occurs-append_ne, emit-absent, get_elem?-modify_ne}
use connectdisks.Lobby.Starting.{IsStarted, counted}
use connectdisks.Lobby.Runs.{add_player_cases, on_ready_cases, on_disconnect_cases}
use connectdisks.Lobby.Verdicts.{success_or_not, IsOver-or_not}
use connectdisks.Lobby.Turns.{IsTaken, on_take_turn_lem}
use connectdisks.Server.Calls.{turn_call, ready_call}

-- The connection `d` is what it was, and still hears no signal of the lobby.
abbrev pub Apart : ℕ → Room → Room → Type 0
Apart d r r' = (get_elem? r'.conns d ≡ get_elem? r.conns d) × (occurs d r'.lobby.subscribers ≡ 0)

module _ (d : ℕ) (r : Room) (absent : occurs d r.lobby.subscribers ≡ 0) where
  apart :
      (r' : Room) (conns : List Connection)
      → r'.conns ≡ conns
      → get_elem? conns d ≡ get_elem? r.conns d
      → r'.lobby.subscribers ≡ r.lobby.subscribers
      → Apart d r r'
  apart r' conns e at' subscribers =
      (ap (λ cs. get_elem? cs d) e ∙ at', ap (occurs d) subscribers ∙ absent)

  module _ (h : Connection → Connection) where
    one : get_elem? (emit h r.lobby.subscribers r.conns) d ≡ get_elem? r.conns d
    one = emit-absent h r.lobby.subscribers r.conns d absent

    two :
        (k : Connection → Connection)
        → get_elem? (emit k r.lobby.subscribers (emit h r.lobby.subscribers r.conns)) d
          ≡ get_elem? r.conns d
    two k = emit-absent k r.lobby.subscribers (emit h r.lobby.subscribers r.conns) d absent ∙ one

  taken-Apart :
      (id column : ℕ) (g : FourAcross) (t : TurnResult) (g' : FourAcross) (r' : Room)
      → IsTaken id column r g t g' r'
      → Apart d r r'
  taken-Apart id column g t g' r' taken = elim (success_or_not t) [
    | inr refused ↦
        let (same, lobby, conns) = taken.refused refused in
        apart r' _ conns (one (on_update id column t)) (ap (λ l. l.subscribers) lobby)
    | inl won ↦ elim (IsOver-or_not g') [
      | inl done ↦
          let (lobby, conns) = taken.over won done in
          apart r' _ conns (two _ (on_game_end g'.winner)) (ap (λ l. l.subscribers) lobby)
      | inr more ↦
          let (lobby, conns) = taken.goes_on won more in
          apart r' _ conns (two _ (on_turn g'.current_player)) (ap (λ l. l.subscribers) lobby)
    ]
  ]

  pub turn-Apart :
      (c column : ℕ) → Inv r → (r' : Room) × (turn_call c column r ≡ ok (r', false)) × Apart d r r'
  turn-Apart c column i =
      let l = on_take_turn_lem c column r i in
      let failed = on_update (id_of r.conns c) column error in
      elim i.phase [
        | inl p ↦
            let (e, inv) = l.0 p.idle in
            (signal failed r, rw e refl, apart (signal failed r) _ refl (one failed) refl)
        | inr p ↦
            let (t, g', r', played, e, taken) = l.1 p in
            (r', rw e refl, taken-Apart (id_of r.conns c) column p.game t g' r' taken)
      ]

  started-Apart :
      (first : ℕ) (g : FourAcross) (r' : Room) → Inv r → IsStarted first r g r' → Apart d r r'
  started-Apart first g r' i s = elim i.phase [
    | inr p ↦ apart r' r.conns (s.untold p.playing) refl (ap (λ l. l.subscribers) s.lobby)
    | inl p ↦
        apart r' _ (s.told p.idle)
          (two (on_game_start r.lobby.num_players min_columns min_rows first) (on_turn first))
          (ap (λ l. l.subscribers) s.lobby)
  ]

  pub ready-Apart :
      (first c : ℕ)
      → Inv r
      → 1 ≤ first
      → first ≤ r.lobby.max_players
      → (r' : Room) × (ready_call first c r ≡ ok (r', false)) × Apart d r r'
  ready-Apart first c i low high = elim (on_ready_cases first c r i low high) [
    | inl e ↦ (r, rw e refl, (refl, absent))
    | inr (inl e) ↦ (counted r, rw e refl, apart (counted r) r.conns refl refl refl)
    | inr (inr (g, r', e, s, all_ready)) ↦ (r', rw e refl, started-Apart first g r' i s)
  ]

  pub disconnect-Apart :
      (c : ℕ) → Inv r → (r' : Room) × (b : Bool) × (on_disconnect c r ≡ ok (r', b)) × Apart d r r'
  disconnect-Apart c i = elim (on_disconnect_cases c r i) [
    | inl e ↦ (r, false, e, (refl, absent))
    | inr (s, r', e, left, told) ↦ (
      r',
      true,
      e,
      elim i.phase [
        | inl p ↦ apart r' r.conns (told.quiet p.idle) refl left.subscribers
        | inr p ↦
            apart r' _ (told.over p.game p.playing p.has_game) (one (on_game_end p.game.winner))
              left.subscribers
      ],
    )
  ]

  pub add_player-Apart :
      (l c : ℕ)
      → Inv r
      → c < length r.conns
      → id_of r.conns c ≡ 0
      → c ≢ d
      → (r' : Room) × (add_player l c r ≡ ok r') × Apart d r r'
  add_player-Apart l c i known fresh other = elim (add_player_cases l c r i known fresh) [
    | inl e ↦ (r, e, (refl, absent))
    | inr (r', e, seated) ↦ (
      r',
      e,
      (
        ap (λ cs. get_elem? cs d) seated.conns
            ∙ get_elem?-modify_ne (λ y. enter l (set_id y (seated.seat + 1))) r.conns c d other,
        ap (occurs d) seated.subscribed ∙ occurs-append_ne d c other r.lobby.subscribers ∙ absent,
      ),
    )
  ]
