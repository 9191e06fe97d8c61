-- ===== src/Lobby/Messages.antt =====
-- What the clients of a lobby are sent by its signals.
use connectdisks.Prelude.{
  ℕ, zero, suc, ◌+◌, ◌≡◌, ◌≢◌, ◌⊎◌, ◌∙◌, refl, sym, ap, inl, inr, false, true, some, List, [], ◌∷◌,
  ◌++◌, arith, get_elem?, modify, u8_max, Bool-cases, ◌==◌, if◌then◌else◌, ==→eq, ==→ne, eq→==,
  ne→==, some_inj,
}
use connectdisks.Messaging.{message, take_turn, turn_result, update, game_start, game_end}
use connectdisks.Game.{TurnResult, success}
use connectdisks.Connection.{
  Connection, on_game_start, on_game_end, on_turn, on_update, to_underlying_type, send_message,
}
use connectdisks.Lobby.{Room, emit, signal}

-- How often a connection subscribes.
abbrev pub occurs : ℕ → List ℕ → ℕ
occurs d [] = 0
occurs d (c ∷ cs) = let rest = occurs d cs in if c == d then rest + 1 else rest

pub occurs-append_ne : (d c : ℕ) → c ≢ d → (cs : List ℕ) → occurs d (cs ++ c ∷ []) ≡ occurs d cs
occurs-append_ne d c other [] = rw (ne→== c d other)
occurs-append_ne d c other (b ∷ bs) = rw (occurs-append_ne d c other bs)

pub get_elem?-modify_self :
    (h : Connection → Connection) (conns : List Connection) (d : ℕ) {x : Connection}
    → get_elem? conns d ≡ some x
    → get_elem? (modify conns d h) d ≡ some (h x)
get_elem?-modify_self h [] d e = absurd (cc)
get_elem?-modify_self h (y ∷ ys) zero e = ap (λ z. some (h z)) (some_inj e)
get_elem?-modify_self h (y ∷ ys) (suc d) e = get_elem?-modify_self h ys d e

pub get_elem?-modify_ne :
    (h : Connection → Connection) (conns : List Connection) (c d : ℕ)
    → c ≢ d
    → get_elem? (modify conns c h) d ≡ get_elem? conns d
get_elem?-modify_ne h [] c d n = refl
get_elem?-modify_ne h (y ∷ ys) zero zero n = absurd (n refl)
get_elem?-modify_ne h (y ∷ ys) zero (suc d) n = refl
get_elem?-modify_ne h (y ∷ ys) (suc c) zero n = refl
get_elem?-modify_ne h (y ∷ ys) (suc c) (suc d) n = get_elem?-modify_ne h ys c d (λ e. n (ap suc e))

module _ (h : Connection → Connection) where
  -- A connection that the handler leaves alone, or that does not subscribe.
  pub emit-fixed :
      (subscribers : List ℕ) (conns : List Connection) (d : ℕ) (x : Connection)
      → (h x ≡ x) ⊎ (occurs d subscribers ≡ 0)
      → get_elem? conns d ≡ some x
      → get_elem? (emit h subscribers conns) d ≡ some x
  unfolding emit
  emit-fixed [] conns d x f e = e
  emit-fixed (c ∷ cs) conns d x f e = elim (Bool-cases (c == d)) [
    | inl here ↦ elim f [
      | inl same ↦
          let at : c ≡ d = ==→eq _ _ here in
          emit-fixed cs (modify conns c h) d x (inl same)
            (rw at (get_elem?-modify_self h conns d e ∙ ap some same))
      | inr absent ↦ absurd (ground (arith, here, absent))
    ]
    | inr there ↦
        emit-fixed cs (modify conns c h) d x
          (elim f [ inl same ↦ inl same | inr absent ↦ inr (ground (arith, there, absent)) ])
          (get_elem?-modify_ne h conns c d (==→ne _ _ there) ∙ e)
  ]

  pub emit-absent :
      (subscribers : List ℕ) (conns : List Connection) (d : ℕ)
      → occurs d subscribers ≡ 0
      → get_elem? (emit h subscribers conns) d ≡ get_elem? conns d
  unfolding emit
  emit-absent [] conns d absent = refl
  emit-absent (c ∷ cs) conns d absent = elim (Bool-cases (c == d)) [
    | inl here ↦ absurd (ground (arith, here, absent))
    | inr there ↦
        emit-absent cs (modify conns c h) d (ground (arith, there, absent))
        ∙ get_elem?-modify_ne h conns c d (==→ne _ _ there)
  ]

  -- A connection that subscribes once handles the signal once.
  pub emit-once :
      (subscribers : List ℕ) (conns : List Connection) (d : ℕ) (x : Connection)
      → occurs d subscribers ≡ 1
      → get_elem? conns d ≡ some x
      → get_elem? (emit h subscribers conns) d ≡ some (h x)
  unfolding emit
  emit-once [] conns d x once e = absurd (omega arith)
  emit-once (c ∷ cs) conns d x once e = elim (Bool-cases (c == d)) [
    | inl here ↦
        let at : c ≡ d = ==→eq _ _ here in
        emit-fixed cs (modify conns c h) d (h x) (inr (ground (arith, here, once)))
          (rw at (get_elem?-modify_self h conns d e))
    | inr there ↦
        emit-once cs (modify conns c h) d x (ground (arith, there, once))
          (get_elem?-modify_ne h conns c d (==→ne _ _ there) ∙ e)
  ]

pub on_turn-mine :
    (p : ℕ) (x : Connection)
    → x.client_is_connected ≡ true
    → x.id ≡ p
    → on_turn p x ≡ record x { sent = x.sent ++ message take_turn (p ∷ u8_max ∷ []) ∷ [] }
unfolding on_turn send_message
on_turn-mine p x here mine = rw (eq→== _ _ (sym mine), here)

pub on_turn-other : (p : ℕ) (x : Connection) → x.id ≢ p → on_turn p x ≡ x
unfolding on_turn send_message
on_turn-other p x other = rw (ne→== p x.id (λ e. other (sym e)))

module _ (p column : ℕ) (t : TurnResult) (x : Connection) where
  pub on_update-mine :
      x.client_is_connected ≡ true
      → x.id ≡ p
      → on_update p column t x ≡ record x {
        sent = x.sent ++ message turn_result (to_underlying_type t ∷ column ∷ []) ∷ [];
      }
  unfolding on_update send_message
  on_update-mine here mine = rw (eq→== _ _ (sym mine), here)

  pub on_update-success :
      x.client_is_connected ≡ true
      → x.id ≢ p
      → t ≡ success
      → on_update p column t x ≡ record x { sent = x.sent ++ message update (p ∷ column ∷ []) ∷ [] }
  unfolding on_update send_message
  on_update-success here other won = rw (won, ne→== p x.id (λ e. other (sym e)), here)

  pub on_update-refused : x.id ≢ p → t ≢ success → on_update p column t x ≡ x
  unfolding on_update send_message
  on_update-refused other refused = ground (arith, other, refused)

pub on_game_end-sent :
    (w : ℕ) (x : Connection)
    → x.client_is_connected ≡ true
    → on_game_end w x
      ≡ record x { client_is_ready = false; sent = x.sent ++ message game_end (w ∷ []) ∷ [] }
unfolding on_game_end send_message
on_game_end-sent w x here = rw here

pub on_game_start-sent :
    (np cols rows first : ℕ) (x : Connection)
    → x.client_is_connected ≡ true
    → on_game_start np cols rows first x
      ≡ record x { sent = x.sent ++ message game_start (np ∷ cols ∷ rows ∷ first ∷ []) ∷ [] }
unfolding on_game_start send_message
on_game_start-sent np cols rows first x here = rw here

-- What the client of a connected connection `x` that subscribes once is sent. By `takeTurn`, the
-- client whose turn it is is asked for it, and no other is sent anything. By `tookTurn`, the client
-- who took the turn is sent its result; any other is sent the turn if it was a success, and nothing
-- if it was not.
pub signal-sent :
    (player column : ℕ) (result : TurnResult) (r : Room) (d : ℕ) (x : Connection)
    → get_elem? r.conns d ≡ some x
    → x.client_is_connected ≡ true
    → occurs d r.lobby.subscribers ≡ 1
    → (x.id ≡ player
        → get_elem? (signal (on_turn player) r).conns d
          ≡ some (record x { sent = x.sent ++ message take_turn (player ∷ u8_max ∷ []) ∷ [] }))
      × (x.id ≢ player → get_elem? (signal (on_turn player) r).conns d ≡ some x)
      × (x.id ≡ player
          → get_elem? (signal (on_update player column result) r).conns d
            ≡ some (record x {
              sent = x.sent ++ message turn_result (to_underlying_type result ∷ column ∷ []) ∷ [];
            }))
      × (x.id ≢ player
          → result ≡ success
          → get_elem? (signal (on_update player column result) r).conns d
            ≡ some (record x { sent = x.sent ++ message update (player ∷ column ∷ []) ∷ [] }))
      × (x.id ≢ player
          → result ≢ success
          → get_elem? (signal (on_update player column result) r).conns d ≡ some x)
signal-sent p column t r d x e here once = (
  λ mine. emit-once (on_turn p) subs r.conns d x once e ∙ ap some (on_turn-mine p x here mine),
  λ other. emit-fixed (on_turn p) subs r.conns d x (inl (on_turn-other p x other)) e,
  λ mine.
      emit-once (on_update p column t) subs r.conns d x once e
      ∙ ap some (on_update-mine p column t x here mine),
  λ other won.
      emit-once (on_update p column t) subs r.conns d x once e
      ∙ ap some (on_update-success p column t x here other won),
  λ other refused.
      emit-fixed (on_update p column t) subs r.conns d x
        (inl (on_update-refused p column t x other refused)) e,
)
  where
    subs : List ℕ
    subs = r.lobby.subscribers
