-- ===== src/Client/Sharing.antt =====
-- What one call of a lobby's member function means for a client that follows the lobby's games.
use connectdisks.Prelude.{
  arith, ℕ, ◌+◌, ◌≤◌, ◌<◌, ◌≡◌, ◌≢◌, ◌∙◌, refl, sym, ap, inl, inr, false, none, some, Option, List,
  ok, get_elem?, length, modify,
}
use connectdisks.Board.{min_columns, min_rows}
use connectdisks.Game
use connectdisks.Game.{FourAcross}
use connectdisks.Connection.{Connection, set_id, on_turn, on_game_start, on_game_end}
use connectdisks.Lobby.{Room, enter, id_of}
use connectdisks.Lobby.Invariant.{Inv}
use connectdisks.Lobby.Messages.{occurs, occurs-append_ne, get_elem?-modify_ne}
use connectdisks.Lobby.Starting.{IsStarted, counted, counted-Inv}
use connectdisks.Lobby.Runs.{
  Call, adds, disconnects, readies, changes, call, on_ready_cases, StartsNoOther,
  on_disconnect_cases, add_player_cases, changes-Inv,
}
use connectdisks.Client.Stages.{Stage-then}
use connectdisks.Client.Signals.{same-Stage, on_turn-Stage, on_game_end-Stage, on_game_start-Stage}
use connectdisks.Client.Mirror.{Watches, Told, heard, untold, one, two}

module _ (big_to_native : List ℕ → ℕ) (d : ℕ) (r : Room) (x : Connection) (o : Option FourAcross)
    (w : Watches r d x o) where
  abbrev pub Follows : Call → Type 0
  Follows k = (r' : Room) × (call k r ≡ ok r') × Inv r' × Told big_to_native d x o r'

  started-Told :
      (first : ℕ) (g : FourAcross) (r' : Room)
      → Inv r
      → r.lobby.is_playing_game ≡ false
      → IsStarted first r g r'
      → Told big_to_native d x o r'
  started-Told first g r' i idle s =
      let start = on_game_start r.lobby.num_players min_columns min_rows first in
      let began : Game.new r.lobby.num_players first min_columns min_rows ≡ ok g =
        rw s.full s.made in
      let begins =
        on_game_start-Stage big_to_native x w.here r.lobby.num_players min_columns min_rows first o
          g began (omega (arith, i.seating.limits, s.full)) (omega arith) (omega arith)
          (omega arith) (omega arith) in
      heard big_to_native d r x o w (λ y. on_turn first (start y)) (some g) r'
        (Stage-then big_to_native start (on_turn first) x o (some g) (some g) begins
          (on_turn-Stage big_to_native (start x) begins.here first (some g)))
        (two big_to_native d r x o w start (on_turn first) r' (s.told idle))
        (ap (λ l. occurs d l.subscribers) s.lobby ∙ w.once)
        (λ h e. sym (ap (λ l. l.game) s.lobby) ∙ e)

  pub on_ready-Follows :
      (first c : ℕ)
      → Inv r
      → 1 ≤ first
      → first ≤ r.lobby.max_players
      → StartsNoOther r.lobby
      → Follows (readies first c)
  unfolding call
  on_ready-Follows first c i low high spared = elim (on_ready_cases first c r i low high) [
    | inl e ↦ (r, e, i, untold big_to_native d r x o w r refl refl (λ g h. h))
    | inr (inl e) ↦ (
      counted r,
      e,
      counted-Inv r i,
      untold big_to_native d r x o w (counted r) refl refl (λ g h. h),
    )
    | inr (inr (g, r', e, s, all_ready)) ↦ elim spared [
      | inl idle ↦ (r', e, s.inv, started-Told first g r' i idle s)
      | inr too_many ↦ absurd (too_many all_ready)
    ]
  ]

  pub on_disconnect-Follows : (c : ℕ) → Inv r → Follows (disconnects c)
  unfolding call
  on_disconnect-Follows c i = elim (on_disconnect_cases c r i) [
    | inl e ↦ (r, rw e refl, i, untold big_to_native d r x o w r refl refl (λ g h. h))
    | inr (s, r', e, left, told) ↦ (
      r',
      rw e refl,
      left.inv,
      elim i.phase [
        | inl p ↦
            untold big_to_native d r x o w r' (told.quiet p.idle) left.subscribers
              (λ g h. absurd (none-some (sym left.no_game.no_game ∙ h)))
        | inr p ↦
            heard big_to_native d r x o w (on_game_end p.game.winner) o r'
              (on_game_end-Stage big_to_native x w.here p.game.winner o)
              (one big_to_native d r x o w (on_game_end p.game.winner) r'
                (told.over p.game p.playing p.has_game))
              (ap (occurs d) left.subscribers ∙ w.once)
              (λ g h. absurd (none-some (sym left.no_game.no_game ∙ h)))
      ],
    )
  ]
    where
      none-some : {g : FourAcross} → ◌≡◌ {A = Option FourAcross} none (some g) → ⊥
      none-some e = cc

  -- The room changed, but not for this connection.
  unmoved-Told :
      (r' : Room)
      → get_elem? r'.conns d ≡ get_elem? r.conns d
      → occurs d r'.lobby.subscribers ≡ occurs d r.lobby.subscribers
      → r'.lobby.game ≡ r.lobby.game
      → Told big_to_native d x o r'
  unmoved-Told r' at once game =
      heard big_to_native d r x o w (λ y. y) o r' (same-Stage big_to_native x w.here o) (at ∙ w.at)
        (once ∙ w.once) (λ g e. w.same g (sym game ∙ e))

  pub add_player-Follows :
      (l c : ℕ) → Inv r → c < length r.conns → id_of r.conns c ≡ 0 → c ≢ d → Follows (adds l c)
  unfolding call
  add_player-Follows l c i known fresh other = elim (add_player_cases l c r i known fresh) [
    | inl e ↦ (r, e, i, unmoved-Told r refl refl refl)
    | inr (r', e, seated) ↦ (
      r',
      e,
      seated.inv,
      unmoved-Told r'
          (ap (λ cs. get_elem? cs d) seated.conns
            ∙ get_elem?-modify_ne (λ y. enter l (set_id y (seated.seat + 1))) r.conns c d other)
          (ap (occurs d) seated.subscribed ∙ occurs-append_ne d c other r.lobby.subscribers)
          seated.game,
    )
  ]

  pub changes-Follows :
      (c : ℕ) (f : Connection → Connection)
      → Inv r
      → ((y : Connection) → (f y).id ≡ y.id)
      → c ≢ d
      → Follows (changes c f)
  unfolding call
  changes-Follows c f i keeps other = (
    record r { conns = modify r.conns c f },
    refl,
    changes-Inv c f r i keeps,
    unmoved-Told (record r { conns = modify r.conns c f }) (get_elem?-modify_ne f r.conns c d other)
        refl refl,
  )
