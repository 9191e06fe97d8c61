-- ===== src/Client/Mirror.antt =====
-- A client's copy of the game, against the game of its lobby.
use connectdisks.Prelude.{
  ℕ, ◌≡◌, ◌∙◌, refl, sym, ap, subst, inl, inr, true, none, some, Option, List, ok, get_elem?,
}
use connectdisks.Game
use connectdisks.Game.{FourAcross, TurnResult, success, error, returned}
use connectdisks.Connection.{Connection, on_turn, on_update, on_game_end}
use connectdisks.Lobby.{Room, emit, signal, id_of, on_take_turn}
use connectdisks.Lobby.Invariant.{Inv}
use connectdisks.Lobby.Messages.{occurs, emit-once}
use connectdisks.Lobby.Verdicts.{success_or_not, IsOver-or_not}
use connectdisks.Lobby.Turns.{IsTaken, on_take_turn_lem}
use connectdisks.Client.Learning.{Learns}
use connectdisks.Client.Stages.{Stage, Stage-then}
use connectdisks.Client.Signals.{
  on_turn-Stage, on_game_end-Stage, on_update-success-Stage, on_update-refused-Stage, same-Stage,
}

-- The connection `d` of the room is `x`, is connected and hears each signal once; its client's game
-- is `o`, which is the lobby's, if the lobby has one.
pub record Watches (r : Room) (d : ℕ) (x : Connection) (o : Option FourAcross) : Type 0 where
  pub at : get_elem? r.conns d ≡ some x
  pub here : x.client_is_connected ≡ true
  pub once : occurs d r.lobby.subscribers ≡ 1
  pub same : (g : FourAcross) → r.lobby.game ≡ some g → o ≡ some g

module _ (big_to_native : List ℕ → ℕ) where
  -- After a call of the lobby the client's game is the lobby's again.
  abbrev pub Told : ℕ → Connection → Option FourAcross → Room → Type 0
  Told d x o r' = Learns big_to_native x o (Watches r' d)

  module _ (d : ℕ) (r : Room) (x : Connection) (o : Option FourAcross) (w : Watches r d x o) where
    pub heard :
        (handler : Connection → Connection) (o' : Option FourAcross) (r' : Room)
        → Stage big_to_native handler x o o'
        → get_elem? r'.conns d ≡ some (handler x)
        → occurs d r'.lobby.subscribers ≡ 1
        → ((g : FourAcross) → r'.lobby.game ≡ some g → o' ≡ some g)
        → Told d x o r'
    heard handler o' r' s at once same = record {
      x' = handler x;
      o' = o';
      ms = s.ms;
      sent = s.sent;
      same_id = s.same_id;
      understood = s.understood;
      fair = s.fair;
      after = record { at = at; here = s.here; once = once; same = same };
    }

    -- Nobody hears of the call, and the lobby's game, if there is one, is the one that it had.
    pub untold :
        (r' : Room)
        → r'.conns ≡ r.conns
        → r'.lobby.subscribers ≡ r.lobby.subscribers
        → ((g : FourAcross) → r'.lobby.game ≡ some g → r.lobby.game ≡ some g)
        → Told d x o r'
    untold r' conns subscribers game =
        heard (λ y. y) o r' (same-Stage big_to_native x w.here o)
          (ap (λ cs. get_elem? cs d) conns ∙ w.at) (ap (occurs d) subscribers ∙ w.once)
          (λ g e. w.same g (game g e))

    -- One signal, and two.
    pub one :
        (h : Connection → Connection) (r' : Room)
        → r'.conns ≡ emit h r.lobby.subscribers r.conns
        → get_elem? r'.conns d ≡ some (h x)
    one h r' e =
        ap (λ cs. get_elem? cs d) e ∙ emit-once h r.lobby.subscribers r.conns d x w.once w.at

    pub two :
        (h k : Connection → Connection) (r' : Room)
        → r'.conns ≡ emit k r.lobby.subscribers (emit h r.lobby.subscribers r.conns)
        → get_elem? r'.conns d ≡ some (k (h x))
    two h k r' e =
        ap (λ cs. get_elem? cs d) e
        ∙ emit-once k r.lobby.subscribers (emit h r.lobby.subscribers r.conns) d (h x) w.once
            (emit-once h r.lobby.subscribers r.conns d x w.once w.at)

    taken-Told :
        (id column : ℕ) (g : FourAcross) (t : TurnResult) (g' : FourAcross) (r' : Room)
        → r.lobby.game ≡ some g
        → Game.take_turn g id column ≡ returned t g'
        → IsTaken id column r g t g' r'
        → Told d x o r'
    taken-Told id column g t g' r' has_game played taken = elim (success_or_not t) [
      | inr refused ↦
          let (same, lobby, conns) = taken.refused refused in
          heard (on_update id column t) o r'
            (on_update-refused-Stage big_to_native x w.here id column t o refused)
            (one (on_update id column t) r' conns) (ap (λ l. occurs d l.subscribers) lobby ∙ w.once)
            (λ g e. w.same g (sym (ap (λ l. l.game) lobby) ∙ e))
      | inl won ↦
          let update =
            subst (λ p. Stage big_to_native (on_update id column success) x p (some g'))
              (sym (w.same g has_game))
              (on_update-success-Stage big_to_native x w.here id column g g'
                (subst (λ t. Game.take_turn g id column ≡ returned t g') won played)) in
          elim (IsOver-or_not g') [
            | inl done ↦
                let (lobby, conns) = taken.over won done in
                heard (λ y. on_game_end g'.winner (on_update id column success y)) (some g') r'
                  (Stage-then big_to_native (on_update id column success) (on_game_end g'.winner) x
                    o (some g') (some g') update
                    (on_game_end-Stage big_to_native (on_update id column success x) update.here
                      g'.winner (some g')))
                  (two (on_update id column success) (on_game_end g'.winner) r' conns)
                  (ap (λ l. occurs d l.subscribers) lobby ∙ w.once)
                  (λ g e. absurd (none-some (sym (ap (λ l. l.game) lobby) ∙ e)))
            | inr more ↦
                let (lobby, conns) = taken.goes_on won more in
                heard (λ y. on_turn g'.current_player (on_update id column success y)) (some g') r'
                  (Stage-then big_to_native (on_update id column success)
                    (on_turn g'.current_player) x o (some g') (some g') update
                    (on_turn-Stage big_to_native (on_update id column success x) update.here
                      g'.current_player (some g')))
                  (two (on_update id column success) (on_turn g'.current_player) r' conns)
                  (ap (λ l. occurs d l.subscribers) lobby ∙ w.once)
                  (λ g e. sym (ap (λ l. l.game) lobby) ∙ e)
          ]
    ]
      where
        none-some : {g : FourAcross} → ◌≡◌ {A = Option FourAcross} none (some g) → ⊥
        none-some e = cc

    pub on_take_turn-Told :
        (c column : ℕ)
        → Inv r
        → (r' : Room) × (on_take_turn c column r ≡ ok r') × Inv r' × Told d x o r'
    on_take_turn-Told c column i =
        let l = on_take_turn_lem c column r i in
        let id = id_of r.conns c in
        elim i.phase [
          | inl p ↦
              let (e, inv) = l.0 p.idle in
              (
                signal (on_update id column error) r,
                e,
                inv,
                heard (on_update id column error) o (signal (on_update id column error) r)
                    (on_update-refused-Stage big_to_native x w.here id column error o (cc))
                    (one (on_update id column error) (signal (on_update id column error) r) refl)
                    w.once w.same,
              )
          | inr p ↦
              let (t, g', r', played, e, taken) = l.1 p in
              (r', e, taken.inv, taken-Told id column p.game t g' r' p.has_game played taken)
        ]
