-- ===== src/Lobby/Invariant.antt =====
-- What makes a lobby well formed, and that signals and the end of a game keep it so.
use connectdisks.Prelude.{
  ℕ, suc, ◌≤◌, ◌<◌, ◌≡◌, ◌⊎◌, ◌∙◌, refl, inl, Bool, true, false, Option, none, some, ok, arith,
  length, get_elem?, if◌then◌else◌,
}
use connectdisks.Game
use connectdisks.Game.{FourAcross, board_full, no_winner, has_winner}
use connectdisks.Game.Turn
use connectdisks.Connection.{Connection, on_game_start, on_game_end, on_turn, on_update}
use connectdisks.Lobby.{is_empty, Room, GameLobby, id_of, signal, emit, on_game_over}
use connectdisks.Lobby.Seats.{occupied, id_of-emit, length-emit}

-- The seats: a connection in seat `s` has the id `s + 1`, and the players are counted.
pub record IsSeating (r : Room) : Type 0 where
  pub limits : (2 ≤ r.lobby.max_players) × (r.lobby.max_players < 256)
  pub size : length r.lobby.players ≡ r.lobby.max_players
  pub counted : r.lobby.num_players ≡ occupied r.lobby.players
  pub seated :
      (s c : ℕ)
      → get_elem? r.lobby.players s ≡ some (some c)
      → (c < length r.conns) × (id_of r.conns c ≡ suc s)
  pub opened : r.lobby.lobby_is_open ≡ true

-- No game is being played, and there is none.
pub record IsIdle (l : GameLobby) : Type 0 where
  pub idle : l.is_playing_game ≡ false
  pub no_game : l.game ≡ none

-- The game that is being played is one that `takeTurn` keeps well formed, is not over, and is
-- between the players of a full lobby.
pub record IsPlaying (l : GameLobby) : Type 0 where
  pub game : FourAcross
  pub playing : l.is_playing_game ≡ true
  pub has_game : l.game ≡ some game
  pub inv : Turn.Inv game
  pub unwon : game.winner ≡ no_winner
  pub room_left : board_full game ≡ ok false
  pub all_play : game.num_players ≡ l.max_players
  pub full : l.num_players ≡ l.max_players

pub record Inv (r : Room) : Type 0 where
  pub seating : IsSeating r
  pub phase : IsIdle r.lobby ⊎ IsPlaying r.lobby

-- The seating is not about the game.
abbrev pub regame : Room → Bool → Option FourAcross → ℕ → Room
regame r playing game num_ready = record r {
  lobby = record (r.lobby) { is_playing_game = playing; game = game; num_ready = num_ready };
}

pub regame-IsSeating :
    (r : Room) (playing : Bool) (game : Option FourAcross) (num_ready : ℕ)
    → IsSeating r
    → IsSeating (regame r playing game num_ready)
regame-IsSeating r playing game num_ready i = record {
  limits = i.limits;
  size = i.size;
  counted = i.counted;
  seated = i.seated;
  opened = i.opened;
}

-- A handler of a signal does not change the id.
pub on_game_start-id :
    (n columns rows current : ℕ) (c : Connection)
    → (on_game_start n columns rows current c).id ≡ c.id
unfolding on_game_start
on_game_start-id n columns rows current c = ground arith

pub on_game_end-id : (w : ℕ) (c : Connection) → (on_game_end w c).id ≡ c.id
unfolding on_game_end
on_game_end-id w c = ground arith

pub on_turn-id : (p : ℕ) (c : Connection) → (on_turn p c).id ≡ c.id
unfolding on_turn
on_turn-id p c = ground arith

pub on_update-id :
    (p column : ℕ) (t : Game.TurnResult) (c : Connection) → (on_update p column t c).id ≡ c.id
unfolding on_update
on_update-id p column t c = ground arith

module _ (handler : Connection → Connection) (keeps : (x : Connection) → (handler x).id ≡ x.id)
    (r : Room) where
  pub length-signal : length (signal handler r).conns ≡ length r.conns
  length-signal = length-emit handler r.lobby.subscribers r.conns

  pub id_of-signal : (c : ℕ) → id_of (signal handler r).conns c ≡ id_of r.conns c
  id_of-signal c = id_of-emit handler keeps r.lobby.subscribers r.conns c

  -- So a signal keeps the seating.
  pub signal-IsSeating : IsSeating r → IsSeating (signal handler r)
  signal-IsSeating i = record {
    limits = i.limits;
    size = i.size;
    counted = i.counted;
    seated =
        λ s c e. let (l, k) = i.seated s c e in (omega (arith, length-signal), id_of-signal c ∙ k);
    opened = i.opened;
  }

-- The end of a game tells each subscriber the winner, and leaves a lobby with no game.
pub on_game_over_lem :
    (r : Room) (g : FourAcross)
    → IsSeating r
    → r.lobby.game ≡ some g
    → (r' : Room) × (on_game_over r ≡ ok r')
      × Inv r'
      × (r'.conns ≡ emit (on_game_end g.winner) r.lobby.subscribers r.conns)
      × (r'.lobby ≡ record (r.lobby) { game = none; is_playing_game = false; num_ready = 0 })
unfolding on_game_over
on_game_over_lem r g i e =
    let told = signal-IsSeating (on_game_end g.winner) (on_game_end-id g.winner) r i in
    let w : (if has_winner g then g.winner else no_winner) ≡ g.winner = ground arith in
    let ended = record (r.lobby) { game = none; is_playing_game = false; num_ready = 0 } in
    (
      record (signal (on_game_end g.winner) r) { lobby = ended },
      rw (e, w),
      record {
        seating = regame-IsSeating _ false none 0 told;
        phase = inl (record { idle = refl; no_game = refl });
      },
      refl,
      refl,
    )

-- A well-formed lobby is never empty in the sense of `isEmpty`, whoever is in it.
is_empty-Inv : (r : Room) → Inv r → is_empty r.lobby ≡ false
unfolding is_empty
is_empty-Inv r i = ground (arith, i.seating.limits, i.seating.size)
