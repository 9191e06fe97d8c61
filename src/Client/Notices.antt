-- ===== src/Client/Notices.antt =====
-- Which virtual functions one message calls.
use connectdisks.Prelude.{
  ok_inj, ℕ, ◌≡◌, ◌≢◌, ◌∙◌, refl, sym, ap, subst, inl, inr, false, Bool-cases, some, List, [], ◌∷◌,
  ok, err, Result, ◌>>=◌, ◌==◌, ◌&&◌, u8_max,
}
use connectdisks.Messaging.{
  MessageType, Message, byte, connected, in_queue, ping, pong, game_start, game_end, ready,
  take_turn, turn_result, update,
}
use connectdisks.Game
use connectdisks.Game.{TurnResult, success, wrong_player, bad_column, column_full, game_finished}
use connectdisks.Connection.{closed, failed, nothing}
use connectdisks.Client.{
  Client, Notice, TurnValue, named, unnamed, cast, on_game_start, on_game_update, turn_of_game,
  on_turn_result, handle_turn_request, on_disconnect, receive, handle_read, start_game, stop_game,
  check_turn_result, take_opponent_turn,
}

-- At most one, or that a turn was refused and the request for another.
pub data IsBrief : List Notice → Type 0 where
  no_call : IsBrief []
  one_call : {n : Notice} → IsBrief (n ∷ [])
  refusal :
      {result : TurnValue} {column : ℕ}
      → result ≢ named success
      → IsBrief (on_turn_result result column ∷ handle_turn_request ∷ [])

briefly :
    (c d : Client) (ns ms : List Notice)
    → ◌≡◌ {A = Result (Client × List Notice)} (ok (c, ns)) (ok (d, ms))
    → IsBrief ns
    → IsBrief ms
briefly c d ns ms e b = subst IsBrief (ap (λ x. x.1) (ok_inj e)) b

tells_one :
    {A : Type 0} (r : Result A) (g : A → Client) (n : Notice) (d : Client) (ns : List Notice)
    → ◌>>=◌ {B = Client × List Notice} r (λ a. ok (g a, n ∷ [])) ≡ ok (d, ns)
    → IsBrief ns
tells_one (ok a) g n d ns e = briefly (g a) d (n ∷ []) ns e one_call
tells_one (err x) g n d ns e = absurd (cc)

check_turn_result-IsBrief :
    (v : TurnValue) (k : ℕ) (c d : Client) (ns : List Notice)
    → check_turn_result v k c ≡ ok (d, ns)
    → IsBrief ns
unfolding check_turn_result
check_turn_result-IsBrief (named success) k c d ns e =
    tells_one (turn_of_game c.player_id k c) (λ c. c) (on_turn_result (named success) k) d ns e
check_turn_result-IsBrief (named TurnResult.error) k c d ns e = briefly _ _ _ _ e no_call
check_turn_result-IsBrief (named wrong_player) k c d ns e =
    briefly _ _ _ _ e (refusal (λ h. absurd (cc)))
check_turn_result-IsBrief (named bad_column) k c d ns e =
    briefly _ _ _ _ e (refusal (λ h. absurd (cc)))
check_turn_result-IsBrief (named column_full) k c d ns e =
    briefly _ _ _ _ e (refusal (λ h. absurd (cc)))
check_turn_result-IsBrief (named game_finished) k c d ns e =
    briefly _ _ _ _ e (refusal (λ h. absurd (cc)))
check_turn_result-IsBrief (unnamed n) k c d ns e = briefly _ _ _ _ e (refusal (λ h. absurd (cc)))

module _ (big_to_native : List ℕ → ℕ) where
  by_kind :
      (kind : MessageType) (bytes : List ℕ) (c d : Client) (ns : List Notice)
      → receive big_to_native (record { kind = kind; bytes = bytes }) c ≡ ok (d, ns)
      → IsBrief ns
  unfolding receive start_game stop_game take_opponent_turn
  by_kind connected bytes c d ns e = briefly _ _ _ _ e one_call
  by_kind in_queue bytes c d ns e = briefly _ _ _ _ e one_call
  by_kind ping bytes c d ns e = briefly _ _ _ _ e no_call
  by_kind game_start bytes c d ns e =
      let m : Message = record { kind = game_start; bytes = bytes } in
      tells_one (Game.new (byte m 0) (byte m 3) (byte m 1) (byte m 2))
        (λ g. record c { game = some g })
        (on_game_start (byte m 0) (byte m 3) (byte m 1) (byte m 2)) d ns e
  by_kind game_end bytes c d ns e = briefly _ _ _ _ e one_call
  by_kind take_turn bytes c d ns e =
      elim (Bool-cases (
        byte (record { kind = take_turn; bytes = bytes }) 0 == c.player_id
        && byte (record { kind = take_turn; bytes = bytes }) 1 == u8_max)) [
          | inl asked ↦ briefly c d (handle_turn_request ∷ []) ns (sym (rw asked refl) ∙ e) one_call
          | inr not_asked ↦ briefly c d [] ns (sym (rw not_asked refl) ∙ e) no_call
        ]
  by_kind turn_result bytes c d ns e =
      let m : Message = record { kind = turn_result; bytes = bytes } in
      check_turn_result-IsBrief (cast (byte m 0)) (byte m 1) c d ns e
  by_kind update bytes c d ns e =
      let m : Message = record { kind = update; bytes = bytes } in
      tells_one (turn_of_game (byte m 0) (byte m 1) c) (λ c. c)
        (on_game_update (byte m 0) (byte m 1)) d ns e
  by_kind pong bytes c d ns e = briefly _ _ _ _ e no_call
  by_kind ready bytes c d ns e = briefly _ _ _ _ e no_call
  by_kind MessageType.error bytes c d ns e = briefly _ _ _ _ e no_call
  by_kind (MessageType.unlisted n) bytes c d ns e = briefly _ _ _ _ e no_call

  pub receive-IsBrief :
      (m : Message) (c d : Client) (ns : List Notice)
      → receive big_to_native m c ≡ ok (d, ns)
      → IsBrief ns
  receive-IsBrief m c d ns e = by_kind m.kind m.bytes c d ns e

  pub handle_read-ended :
      (c : Client)
      → (handle_read big_to_native closed c
          ≡ ok (record c { reading = false; is_connected = false }, on_disconnect ∷ []))
        × (handle_read big_to_native failed c
            ≡ ok (record c { reading = false; is_connected = false }, on_disconnect ∷ []))
        × (handle_read big_to_native nothing c ≡ ok (record c { reading = false }, []))
  unfolding handle_read
  handle_read-ended c = (refl, refl, refl)
