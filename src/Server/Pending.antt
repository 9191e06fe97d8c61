-- ===== src/Server/Pending.antt =====
-- What each operation of server/src/server.cpp leaves under way: an accept, and the timer.
use connectdisks.Prelude.{
  ℕ, ◌≡◌, ◌∙◌, refl, Bool, true, false, not, List, [], ◌∷◌, Result, ok, Returns, Returns-bind,
  Returns-then, Returns-if, Returns-map, ◌>>=◌, index, write, ltb, ◌==◌, if◌then◌else◌, length,
  Option, some, none,
}
use connectdisks.Lobby.{Room, add_player}
use connectdisks.Server.{
  Server, with_lobby, add_to_lobby, add_to_new_lobby, make_new_lobby, add_to_queue, lobby_call,
  on_lobby_available, on_connection_accepted, find_available_lobby, max_lobbies,
}
use connectdisks.Server.Accepting

-- Nothing else is under way than before.
abbrev Waits : Server → Server → Type 0
Waits s s' = (s'.accepting ≡ s.accepting) × (s'.timer_is_set ≡ s.timer_is_set)

abbrev LeavesWaits : Server → Result Server → Type 0
LeavesWaits s = Returns (Waits s)

with_lobby-Waits :
    (l : ℕ) (call : Room → Result (Room × Bool)) (s : Server)
    → Returns (λ p. Waits s p.0) (with_lobby l call s)
unfolding with_lobby
with_lobby-Waits l call s = Returns-bind _ (index s.lobbies l) _ (λ x.
    Returns-bind _ (call (record { conns = s.conns; lobby = x })) _
      (λ (r, available). Returns-bind _ (write s.lobbies l r.lobby) _ (λ lobbies. (refl, refl))))

add_to_lobby-Waits : (l c : ℕ) (s : Server) → LeavesWaits s (add_to_lobby l c s)
unfolding add_to_lobby
add_to_lobby-Waits l c s =
    let call : Room → Result (Room × Bool) = λ r. add_player l c r >>= λ r'. ok (r', false) in
    Returns-then _ (Waits s) (with_lobby l call s) _ (with_lobby-Waits l call s) (λ p w. w)

add_to_new_lobby-Waits : (c : ℕ) (s : Server) → LeavesWaits s (add_to_new_lobby c s)
unfolding add_to_new_lobby make_new_lobby
add_to_new_lobby-Waits c s = add_to_lobby-Waits (length s.lobbies) c (make_new_lobby s)

on_lobby_available-Waits : (l : ℕ) (s : Server) → LeavesWaits s (on_lobby_available l s)
unfolding on_lobby_available
on_lobby_available-Waits l s = seats s.player_queue
  where
    seats :
        (queue : List ℕ)
        → LeavesWaits s (elim queue [
          | [] ↦ ok s
          | c ∷ cs ↦ do s' ← add_to_lobby l c s; ok (record s' { player_queue = cs })
        ])
    seats [] = (refl, refl)
    seats (c ∷ cs) =
        Returns-then _ (Waits s) (add_to_lobby l c s) _ (add_to_lobby-Waits l c s) (λ s' w. w)

lobby_call-Waits :
    (l : ℕ) (call : Room → Result (Room × Bool)) (s : Server) → LeavesWaits s (lobby_call l call s)
unfolding lobby_call
lobby_call-Waits l call s =
    Returns-then _ (Waits s) (with_lobby l call s) _ (with_lobby-Waits l call s) goes_on
  where
    goes_on :
        (p : Server × Bool)
        → Waits s p.0
        → LeavesWaits s (if p.1 then on_lobby_available l p.0 else ok p.0)
    goes_on (s', true) (a, t) =
        Returns-map (on_lobby_available l s') (λ s'' (a', t'). (a' ∙ a, t' ∙ t))
          (on_lobby_available-Waits l s')
    goes_on (s', false) w = w

pub lobby_call-Kept :
    (l : ℕ) (call : Room → Result (Room × Bool)) (s : Server)
    → Returns
        (λ s'. (s'.accepting ≡ s.accepting) × (s.timer_is_set ≡ true → s'.timer_is_set ≡ true))
        (lobby_call l call s)
lobby_call-Kept l call s =
    Returns-map (lobby_call l call s) (λ s' (a, t). (a, λ h. t ∙ h)) (lobby_call-Waits l call s)

module _ (native_to_big : ℕ → List ℕ) where
  -- An accept without an error is followed by the next one.
  pub on_connection_accepted-waits :
      (s : Server)
      → Returns
          (λ s'. (s'.accepting ≡ true) × (s'.timer_is_set ≡ s.timer_is_set))
          (on_connection_accepted native_to_big false s)
  unfolding on_connection_accepted add_to_queue
  on_connection_accepted-waits s =
      Returns-then (Waits (Accepting.accepted s)) _ assigned _ ways (λ s' w. (refl, w.1))
    where
      c : ℕ
      c = length s.conns

      grows : Result Server
      grows =
          if ltb (length s.lobbies) max_lobbies
          then add_to_new_lobby c (Accepting.accepted s)
          else ok (add_to_queue native_to_big c (Accepting.accepted s))

      grows_waits : LeavesWaits (Accepting.accepted s) grows
      grows_waits =
          Returns-if (Waits (Accepting.accepted s)) (ltb (length s.lobbies) max_lobbies) _ _
            (add_to_new_lobby-Waits c (Accepting.accepted s)) (refl, refl)

      found : Option ℕ → Result Server
      found o = elim o [ some l ↦ add_to_lobby l c (Accepting.accepted s) | none ↦ grows ]

      found_waits : (o : Option ℕ) → LeavesWaits (Accepting.accepted s) (found o)
      found_waits (some l) = add_to_lobby-Waits l c (Accepting.accepted s)
      found_waits none = grows_waits

      assigned : Result Server
      assigned =
          if not (length s.lobbies == 0) then found (find_available_lobby s.lobbies) else grows

      ways : LeavesWaits (Accepting.accepted s) assigned
      ways =
          Returns-if (Waits (Accepting.accepted s)) (not (length s.lobbies == 0)) _ _
            (found_waits (find_available_lobby s.lobbies)) grows_waits
