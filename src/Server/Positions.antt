-- ===== src/Server/Positions.antt =====
-- Who is told what by `updateQueuePositions` of server/src/server.cpp.
use connectdisks.Prelude.{
  ℕ, zero, suc, ◌+◌, ◌-◌, ◌≤◌, ◌<◌, ◌≡◌, ◌≢◌, ◌⊎◌, ◌∙◌, refl, sym, ap, inl, inr, Bool, Bool-cases,
  false≢true, true, some, some_inj, List, [], ◌∷◌, ◌++◌, arith, length, get_elem?, modify, ltb, leb,
  ◌&&◌, ◌||◌, if◌then◌else◌,
}
use connectdisks.Messaging.{message, in_queue}
use connectdisks.Connection.{Connection, send_message}
use connectdisks.Lobby.Messages.{get_elem?-modify_self, get_elem?-modify_ne}
use connectdisks.Server.{
  Server, update_queue_positions, notify_all, notify_queue_position, remove_if_gone, is_alive,
}
use connectdisks.Server.Queue.{IsQueue, empty, ahead, remove_if_gone-IsQueue}

-- A member of a queue.
abbrev pub IsIn : ℕ → List ℕ → Type 0
IsIn c queue = (i : ℕ) × (get_elem? queue i ≡ some c)

IsQueue-from :
    (conns : List Connection) (lo : ℕ) (queue : List ℕ) (i c : ℕ)
    → IsQueue conns lo queue
    → get_elem? queue i ≡ some c
    → lo ≤ c
IsQueue-from conns lo [] i c empty e = absurd (cc)
IsQueue-from conns lo (b ∷ bs) zero c (ahead low known new rest) e = omega (arith, low, some_inj e)
IsQueue-from conns lo (b ∷ bs) (suc i) c (ahead low known new rest) e =
    omega (arith, low, IsQueue-from conns (suc b) bs i c rest e)

-- Those who are still connected stay, and nobody else.
remove_if_gone-alive :
    (conns : List Connection) (queue : List ℕ) (c : ℕ)
    → IsIn c (remove_if_gone conns queue)
    → IsIn c queue × (is_alive conns c ≡ true)
unfolding remove_if_gone
remove_if_gone-alive conns [] c (i, e) = absurd (cc)
remove_if_gone-alive conns (b ∷ bs) c m = elim (Bool-cases (is_alive conns b)) [
  | inl alive ↦ kept alive (remove_if_gone-alive conns bs c) (rw alive at m)
  | inr gone ↦
      let ((j, at), still) = remove_if_gone-alive conns bs c (rw gone at m) in ((suc j, at), still)
]
  where
    kept :
        is_alive conns b ≡ true
        → (IsIn c (remove_if_gone conns bs) → IsIn c bs × (is_alive conns c ≡ true))
        → IsIn c (b ∷ remove_if_gone conns bs)
        → IsIn c (b ∷ bs) × (is_alive conns c ≡ true)
    kept alive rest (zero, e) = ((0, e), ap (is_alive conns) (sym (some_inj e)) ∙ alive)
    kept alive rest (suc i, e) = let ((j, at), still) = rest (i, e) in ((suc j, at), still)

alive-remove_if_gone :
    (conns : List Connection) (queue : List ℕ) (c : ℕ)
    → is_alive conns c ≡ true
    → IsIn c queue
    → IsIn c (remove_if_gone conns queue)
unfolding remove_if_gone
alive-remove_if_gone conns [] c alive (i, e) = absurd (cc)
alive-remove_if_gone conns (b ∷ bs) c alive (zero, e) =
    rw (ap (is_alive conns) (some_inj e) ∙ alive) (0, e)
alive-remove_if_gone conns (b ∷ bs) c alive (suc i, e) =
    let (j, at) = alive-remove_if_gone conns bs c alive (i, e) in
    elim (Bool-cases (is_alive conns b)) [
      | inl still ↦ rw still (suc j, at)
      | inr gone ↦ rw gone (j, at)
    ]

is_alive-get_elem? :
    (conns : List Connection) (c : ℕ) (x : Connection)
    → get_elem? conns c ≡ some x
    → is_alive conns c ≡ x.client_is_connected
unfolding is_alive
is_alive-get_elem? [] c x e = absurd (cc)
is_alive-get_elem? (y ∷ ys) zero x e = ap (λ z. z.client_is_connected) (some_inj e)
is_alive-get_elem? (y ∷ ys) (suc c) x e = is_alive-get_elem? ys c x e

module _ (native_to_big : ℕ → List ℕ) where
  -- Who is not in the queue hears nothing.
  unmoved :
      (n : ℕ) (queue : List ℕ) (conns : List Connection) (d : ℕ)
      → ¬ IsIn d queue
      → get_elem? (notify_all native_to_big n queue conns) d ≡ get_elem? conns d
  unfolding notify_all
  unmoved n [] conns d out = refl
  unmoved n (c ∷ cs) conns d out =
      unmoved (n + 1) cs (modify conns c (notify_queue_position native_to_big n)) d
        (λ (i, e). out (suc i, e))
      ∙ get_elem?-modify_ne (notify_queue_position native_to_big n) conns c d
          (λ same. out (0, ap some same))

  -- Who is in it hears its position.
  positioned :
      (ids : List Connection) (lo n : ℕ) (queue : List ℕ) (conns : List Connection) (i c : ℕ)
      (x : Connection)
      → IsQueue ids lo queue
      → get_elem? queue i ≡ some c
      → get_elem? conns c ≡ some x
      → get_elem? (notify_all native_to_big n queue conns) c
        ≡ some (notify_queue_position native_to_big (n + i) x)
  unfolding notify_all
  positioned ids lo n [] conns i c x empty e at = absurd (cc)
  positioned ids lo n (b ∷ bs) conns zero c x (ahead low known new rest) e at =
      let f = notify_queue_position native_to_big n in
      let same : b ≡ c = some_inj e in
      unmoved (n + 1) bs (modify conns b f) c
        (λ (i, h). absurd (omega (arith, same, IsQueue-from ids (suc b) bs i c rest h)))
      ∙ ap (λ k. get_elem? (modify conns k f) c) same
      ∙ get_elem?-modify_self f conns c at
      ∙ ap (λ k. some (notify_queue_position native_to_big k x)) (omega arith)
  positioned ids lo n (b ∷ bs) conns (suc i) c x (ahead low known new rest) e at =
      let f = notify_queue_position native_to_big n in
      let other : b ≢ c =
        λ same. absurd (omega (arith, same, IsQueue-from ids (suc b) bs i c rest e)) in
      positioned ids (suc b) (n + 1) bs (modify conns b f) i c x rest e
        (get_elem?-modify_ne f conns b c other ∙ at)
      ∙ ap (λ k. some (notify_queue_position native_to_big k x)) (omega arith)

  notify-connected :
      (n : ℕ) (x : Connection)
      → x.client_is_connected ≡ true
      → notify_queue_position native_to_big n x
        ≡ record x { sent = x.sent ++ message in_queue (native_to_big n) ∷ [] }
  unfolding notify_queue_position send_message
  notify-connected n x here = rw here refl

-- Positions are sent if somebody waits, and they are fewer than ten, or at least ten have come or
-- gone since the last time.
abbrev pub Tells : ℕ → ℕ → Type 0
Tells last size = (0 < size) × ((size < 10) ⊎ (last + 10 ≤ size) ⊎ (size + 10 ≤ last))

told_if : ℕ → ℕ → Bool
told_if last size =
    ltb 0 size && (ltb size 10 || leb 10 (if ltb last size then size - last else last - size))

Tells-told_if : (last size : ℕ) → Tells last size → told_if last size ≡ true
unfolding told_if
Tells-told_if last size t = grind (arith, t.0, t.1)

told_if-Tells : (last size : ℕ) → told_if last size ≡ true → Tells last size
unfolding told_if
told_if-Tells last size e = grind (arith, e)

module _ (native_to_big : ℕ → List ℕ) (s : Server) where
  abbrev pub later : Server
  later = update_queue_positions native_to_big s

  queue_lem : later.player_queue ≡ remove_if_gone s.conns s.player_queue
  unfolding update_queue_positions
  queue_lem = refl

  conns_lem : later.conns ≡ (
      if told_if s.last_queue_size (length later.player_queue)
      then notify_all native_to_big 1 later.player_queue s.conns
      else s.conns)
  unfolding update_queue_positions told_if
  conns_lem = refl

  told_lem :
      Tells s.last_queue_size (length later.player_queue)
      → later.conns ≡ notify_all native_to_big 1 later.player_queue s.conns
  told_lem t =
      conns_lem
      ∙ ap
          (λ (b : Bool).
            if b then notify_all native_to_big 1 later.player_queue s.conns else s.conns)
          (Tells-told_if s.last_queue_size (length later.player_queue) t)

  untold_lem : ¬ Tells s.last_queue_size (length later.player_queue) → later.conns ≡ s.conns
  untold_lem quiet = elim (Bool-cases (told_if s.last_queue_size (length later.player_queue))) [
    | inl told ↦ absurd (quiet (told_if-Tells s.last_queue_size _ told))
    | inr untold ↦
        conns_lem
        ∙ ap
            (λ (b : Bool).
              if b then notify_all native_to_big 1 later.player_queue s.conns else s.conns)
            untold
  ]

  Tells-or_not :
      Tells s.last_queue_size (length later.player_queue)
      ⊎ (¬ Tells s.last_queue_size (length later.player_queue))
  Tells-or_not = elim (Bool-cases (told_if s.last_queue_size (length later.player_queue))) [
    | inl told ↦ inl (told_if-Tells s.last_queue_size _ told)
    | inr untold ↦ inr (λ t. absurd (false≢true (sym untold ∙ Tells-told_if s.last_queue_size _ t)))
  ]

  -- What the timer of the queue does, if the queue has connections without an id in the order of
  -- arrival. Those of the queue who are still connected stay in it, and nobody else does. If the queue is not empty then, and has
  -- fewer than ten members, or at least ten more or ten less than the last time, the member in place
  -- `i`, counted from 0, is sent the position `i + 1` and nothing else. Nobody who is not in the queue
  -- is sent anything, and nobody at all in the other cases. The size of the queue is kept for the
  -- next time.
  pub update_queue_positions_lem :
      IsQueue s.conns 0 s.player_queue
      → ((c : ℕ) → IsIn c later.player_queue → IsIn c s.player_queue × (is_alive s.conns c ≡ true))
        × ((c : ℕ) → IsIn c s.player_queue → is_alive s.conns c ≡ true → IsIn c later.player_queue)
        × (Tells s.last_queue_size (length later.player_queue)
            → (i c : ℕ) (x : Connection) → get_elem? later.player_queue i ≡ some c
            → get_elem? s.conns c ≡ some x
            → get_elem? later.conns c
              ≡ some (record x { sent = x.sent ++ message in_queue (native_to_big (i + 1)) ∷ [] }))
        × ((d : ℕ) → ¬ IsIn d later.player_queue → get_elem? later.conns d ≡ get_elem? s.conns d)
        × (¬ Tells s.last_queue_size (length later.player_queue) → later.conns ≡ s.conns)
        × (later.last_queue_size ≡ length later.player_queue)
  unfolding update_queue_positions
  update_queue_positions_lem in_order = (
    λ c m. remove_if_gone-alive s.conns s.player_queue c m,
    λ c m alive. alive-remove_if_gone s.conns s.player_queue c alive m,
    λ t i c x at here.
        let (m, alive) = remove_if_gone-alive s.conns s.player_queue c (i, at) in
        let connected = sym (is_alive-get_elem? s.conns c x here) ∙ alive in
        ap (λ cs. get_elem? cs c) (told_lem t)
        ∙ positioned native_to_big s.conns 0 1 later.player_queue s.conns i c x
            (remove_if_gone-IsQueue s.conns s.conns 0 s.player_queue in_order) at here
        ∙ ap some (notify-connected native_to_big (1 + i) x connected)
        ∙ ap (λ n. some (record x { sent = x.sent ++ message in_queue (native_to_big n) ∷ [] }))
            (omega arith),
    λ d out. elim Tells-or_not [
      | inl t ↦
          ap (λ cs. get_elem? cs d) (told_lem t)
          ∙ unmoved native_to_big 1 later.player_queue s.conns d out
      | inr quiet ↦ ap (λ cs. get_elem? cs d) (untold_lem quiet)
    ],
    untold_lem,
    refl,
  )
