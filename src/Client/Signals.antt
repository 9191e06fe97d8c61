-- ===== src/Client/Signals.antt =====
-- The handlers of a lobby's signals, and what their clients make of what they send.
use connectdisks.Prelude.{
  ℕ, ◌≤◌, ◌<◌, ◌≡◌, ◌≢◌, ◌∙◌, refl, sym, ap, subst, inl, inr, true, some, Option, List, [], ◌∷◌,
  ◌++◌, ok, ◌==◌, Bool-cases, ==→eq, ==→ne,
}
use mathlib.Core.List.{append-nil}
use connectdisks.Messaging.{Message, message, ping, in_queue}
use connectdisks.Server.{notify_queue_position}
use connectdisks.Connection.Alone.{IsPinged}
use connectdisks.Game
use connectdisks.Game.{
  FourAcross, TurnResult, success, error, wrong_player, bad_column, column_full, game_finished,
  returned,
}
use connectdisks.Connection.{
  Connection, send_message, on_turn, on_update, on_game_start, on_game_end,
}
use connectdisks.Lobby.Messages.{
  on_turn-mine, on_turn-other, on_update-mine, on_update-success, on_update-refused,
  on_game_end-sent, on_game_start-sent,
}
use connectdisks.Client.Receiving.{
  Hears, Hears-ping, Hears-in_queue, Hears-take_turn, Hears-game_end, Hears-game_start,
  Hears-update, Hears-success, Hears-refused,
}
use connectdisks.Client.Fairness.{IsFair, no_start, good_start, all_read, one_fair}
use connectdisks.Client.Stages.{Stage, Understands-nil, Understands-one}

module _ (big_to_native : List ℕ → ℕ) (x : Connection) (here : x.client_is_connected ≡ true) where
  -- Nothing is sent.
  quiet :
      (h : Connection → Connection) (o : Option FourAcross) → h x ≡ x → Stage big_to_native h x o o
  quiet h o e = record {
    ms = [];
    sent = ap (λ y. y.sent) e ∙ sym (append-nil x.sent);
    same_id = ap (λ y. y.id) e;
    here = ap (λ y. y.client_is_connected) e ∙ here;
    understood = Understands-nil big_to_native x.id o;
    fair = all_read;
  }

  pub same-Stage : (o : Option FourAcross) → Stage big_to_native (λ y. y) x o o
  same-Stage o = quiet (λ y. y) o refl

  -- One message is sent.
  sends :
      (h : Connection → Connection) (o o' : Option FourAcross) (m : Message) (y : Connection)
      → h x ≡ y
      → y.sent ≡ x.sent ++ m ∷ []
      → y.id ≡ x.id
      → y.client_is_connected ≡ true
      → Hears big_to_native x.id m o o'
      → IsFair m
      → Stage big_to_native h x o o'
  sends h o o' m y e sent same_id still heard is_fair = record {
    ms = m ∷ [];
    sent = ap (λ y. y.sent) e ∙ sent;
    same_id = ap (λ y. y.id) e ∙ same_id;
    here = ap (λ y. y.client_is_connected) e ∙ still;
    understood = Understands-one big_to_native x.id m o o' heard;
    fair = one_fair is_fair all_read;
  }

  pub on_turn-Stage : (p : ℕ) (o : Option FourAcross) → Stage big_to_native (on_turn p) x o o
  on_turn-Stage p o = elim (Bool-cases (p == x.id)) [
    | inr other ↦ quiet (on_turn p) o (on_turn-other p x (λ e. ==→ne _ _ other (sym e)))
    | inl mine ↦
        sends (on_turn p) o o _ _ (on_turn-mine p x here (sym (==→eq _ _ mine))) refl refl here
          (Hears-take_turn big_to_native x.id p o) (no_start (λ e. absurd (cc)))
  ]

  pub on_game_end-Stage :
      (w : ℕ) (o : Option FourAcross) → Stage big_to_native (on_game_end w) x o o
  on_game_end-Stage w o =
      sends (on_game_end w) o o _ _ (on_game_end-sent w x here) refl refl here
        (Hears-game_end big_to_native x.id w o) (no_start (λ e. absurd (cc)))

  pub on_game_start-Stage :
      (np cols rows first : ℕ) (o : Option FourAcross) (g : FourAcross)
      → Game.new np first cols rows ≡ ok g
      → np < 256
      → cols < 256
      → 5 ≤ cols
      → 4 ≤ rows
      → rows < cols
      → Stage big_to_native (on_game_start np cols rows first) x o (some g)
  on_game_start-Stage np cols rows first o g e few narrow wide tall low =
      sends (on_game_start np cols rows first) o (some g) _ _
        (on_game_start-sent np cols rows first x here) refl refl here
        (Hears-game_start big_to_native x.id np cols rows first o g e)
        (good_start refl few narrow wide tall low)

  -- The update of a turn that counts.
  pub on_update-success-Stage :
      (id column : ℕ) (g g' : FourAcross)
      → Game.take_turn g id column ≡ returned success g'
      → Stage big_to_native (on_update id column success) x (some g) (some g')
  on_update-success-Stage id column g g' played = elim (Bool-cases (x.id == id)) [
    | inl mine ↦
        let at : x.id ≡ id = ==→eq _ _ mine in
        sends (on_update id column success) (some g) (some g') _ _
          (on_update-mine id column success x here at) refl refl here
          (Hears-success big_to_native x.id column g g'
            (subst (λ i. Game.take_turn g i column ≡ returned success g') (sym at) played))
          (no_start (λ e. absurd (cc)))
    | inr other ↦
        sends (on_update id column success) (some g) (some g') _ _
          (on_update-success id column success x here (==→ne _ _ other) refl) refl refl here
          (Hears-update big_to_native x.id id column g g' success played)
          (no_start (λ e. absurd (cc)))
  ]

  pub on_update-refused-Stage :
      (id column : ℕ) (t : TurnResult) (o : Option FourAcross)
      → t ≢ success
      → Stage big_to_native (on_update id column t) x o o
  on_update-refused-Stage id column t o refused = elim (Bool-cases (x.id == id)) [
    | inl mine ↦
        sends (on_update id column t) o o _ _ (on_update-mine id column t x here (==→eq _ _ mine))
          refl refl here (Hears-refused big_to_native x.id column t o refused)
          (no_start (λ e. absurd (cc)))
    | inr other ↦
        quiet (on_update id column t) o (on_update-refused id column t x (==→ne _ _ other) refused)
  ]

  -- The connection reads, or its timer is done.
  pub pinged-Stage :
      (f : Connection → Connection) (o : Option FourAcross)
      → IsPinged x (f x)
      → Stage big_to_native f x o o
  pinged-Stage f o p = elim p.sent [
    | inl same ↦ record {
      ms = [];
      sent = same ∙ sym (append-nil x.sent);
      same_id = p.same_id;
      here = p.here;
      understood = Understands-nil big_to_native x.id o;
      fair = all_read;
    }
    | inr more ↦
        sends f o o (message ping []) (f x) refl more p.same_id p.here
          (Hears-ping big_to_native x.id o) (no_start (λ e. absurd (cc)))
  ]

  -- The connection's place in the queue is sent.
  pub notify_queue_position-Stage :
      (native_to_big : ℕ → List ℕ) (n : ℕ) (o : Option FourAcross)
      → Stage big_to_native (notify_queue_position native_to_big n) x o o
  unfolding notify_queue_position send_message
  notify_queue_position-Stage native_to_big n o =
      let m = message in_queue (native_to_big n) in
      sends (notify_queue_position native_to_big n) o o m (record x { sent = x.sent ++ m ∷ [] })
        (rw here refl) refl refl here (Hears-in_queue big_to_native x.id (native_to_big n) o)
        (no_start (λ e. absurd (cc)))
