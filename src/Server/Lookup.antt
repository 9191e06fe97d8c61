-- ===== src/Server/Lookup.antt =====
-- `findAvailableLobby` of server/src/server.cpp.
use connectdisks.Prelude.{
  ℕ, suc, zero, ◌≡◌, ◌≢◌, ◌⊎◌, refl, inl, inr, true, Bool-cases, none, some, List, [], ◌∷◌, arith,
  get_elem?, ◌==◌, ==→eq, some_inj,
}
use connectdisks.Lobby.{GameLobby}
use connectdisks.Server.{find_available_lobby}

-- `findAvailableLobby` gives the index of a lobby that is not full, or nothing if every lobby is full.
pub find_available_lobby_lem :
    (lobbies : List GameLobby)
    → ((l : ℕ) × (x : GameLobby) × (find_available_lobby lobbies ≡ some l)
        × (get_elem? lobbies l ≡ some x)
        × (x.num_players ≢ x.max_players))
      ⊎ ((find_available_lobby lobbies ≡ none)
          × ((l : ℕ) (x : GameLobby)
              → get_elem? lobbies l ≡ some x
              → x.num_players ≡ x.max_players))
unfolding find_available_lobby
find_available_lobby_lem [] = inr (refl, λ l x e. absurd (cc))
find_available_lobby_lem (y ∷ ys) = elim (Bool-cases (y.num_players == y.max_players)) [
  | inr free ↦ inl (0, y, rw free refl, refl, ground (arith, free))
  | inl full ↦ elim (find_available_lobby_lem ys) [
    | inl (l, x, found, at, free) ↦ inl (suc l, x, rw (full, found) refl, at, free)
    | inr (unseen, all_full) ↦ inr (rw (full, unseen) refl, full_from full all_full)
  ]
]
  where
    full_from :
        (y.num_players == y.max_players) ≡ true
        → ((l : ℕ) (x : GameLobby) → get_elem? ys l ≡ some x → x.num_players ≡ x.max_players)
        → (l : ℕ) (x : GameLobby) → get_elem? (y ∷ ys) l ≡ some x
        → x.num_players ≡ x.max_players
    full_from full rest zero x e = rw (← some_inj e) (==→eq _ _ full)
    full_from full rest (suc l) x e = rest l x e
