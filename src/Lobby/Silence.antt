-- ===== src/Lobby/Silence.antt =====
-- To a client that is gone, nothing is sent by the lobby's signals and by the other calls of its
-- connection.
use connectdisks.Prelude.{
  ℕ, ◌≡◌, ◌∙◌, refl, ap, false, some, List, [], ◌∷◌, get_elem?, modify, arith, Bool-cases, inl, inr,
  ◌==◌, ==→eq, ==→ne,
}
use connectdisks.Game.{TurnResult}
use connectdisks.Connection.{
  Connection, send_message, set_id, on_turn, on_update, on_game_start, on_game_end,
}
use connectdisks.Connection.Alone.{IsMute}
use connectdisks.Lobby.{emit, enter}
use connectdisks.Lobby.Messages.{get_elem?-modify_self, get_elem?-modify_ne}

abbrev pub Mutes : (Connection → Connection) → Type 0
Mutes h = (x : Connection) → x.client_is_connected ≡ false → IsMute x (h x)

-- Of all connections, those whose clients are gone are mute.
abbrev pub Silent : List Connection → List Connection → Type 0
Silent conns conns' =
    (d : ℕ) (x : Connection)
    → get_elem? conns d ≡ some x
    → x.client_is_connected ≡ false
    → (x' : Connection) × (get_elem? conns' d ≡ some x') × IsMute x x'

pub Silent-refl : (conns : List Connection) → Silent conns conns
Silent-refl conns d x at gone = (x, at, record { gone = gone; unsent = refl })

pub Silent-then :
    (conns conns' conns'' : List Connection)
    → Silent conns conns'
    → Silent conns' conns''
    → Silent conns conns''
Silent-then conns conns' conns'' first second d x at gone =
    let (x', at', m) = first d x at gone in
    let (x'', at'', m') = second d x' at' m.gone in
    (x'', at'', record { gone = m'.gone; unsent = m'.unsent ∙ m.unsent })

pub Silent-modify :
    (h : Connection → Connection) (conns : List Connection) (c : ℕ)
    → Mutes h
    → Silent conns (modify conns c h)
Silent-modify h conns c mutes d x at gone = elim (Bool-cases (c == d)) [
  | inl same ↦ (
    h x,
    ap (λ e. get_elem? (modify conns e h) d) (==→eq c d same) ∙ get_elem?-modify_self h conns d at,
    mutes x gone,
  )
  | inr other ↦ (
    x,
    get_elem?-modify_ne h conns c d (==→ne c d other) ∙ at,
    record { gone = gone; unsent = refl },
  )
]

pub Silent-emit :
    (h : Connection → Connection) (subscribers : List ℕ) (conns : List Connection)
    → Mutes h
    → Silent conns (emit h subscribers conns)
unfolding emit
Silent-emit h [] conns mutes = Silent-refl conns
Silent-emit h (c ∷ cs) conns mutes =
    Silent-then conns (modify conns c h) (emit h cs (modify conns c h))
      (Silent-modify h conns c mutes) (Silent-emit h cs (modify conns c h) mutes)

pub on_turn-Mutes : (p : ℕ) → Mutes (on_turn p)
unfolding on_turn send_message
on_turn-Mutes p x gone = record { gone = grind (arith, gone); unsent = grind (arith, gone) }

pub on_update-Mutes : (p column : ℕ) (t : TurnResult) → Mutes (on_update p column t)
unfolding on_update send_message
on_update-Mutes p column t x gone = record {
  gone = grind (arith, gone);
  unsent = grind (arith, gone);
}

pub on_game_start-Mutes : (n cols rows first : ℕ) → Mutes (on_game_start n cols rows first)
unfolding on_game_start send_message
on_game_start-Mutes n cols rows first x gone = record {
  gone = grind (arith, gone);
  unsent = grind (arith, gone);
}

pub on_game_end-Mutes : (w : ℕ) → Mutes (on_game_end w)
unfolding on_game_end send_message
on_game_end-Mutes w x gone = record { gone = grind (arith, gone); unsent = grind (arith, gone) }

pub enter-Mutes : (l id : ℕ) → Mutes (λ x. enter l (set_id x id))
unfolding set_id send_message
enter-Mutes l id x gone = record { gone = grind (arith, gone); unsent = grind (arith, gone) }
