-- ===== src/Lobby/Seats.antt =====
-- The seats of a lobby and the connections behind them: counting, searching, and what a signal or a
-- method call leaves alone.
use connectdisks.Prelude.{
  ℕ, zero, suc, ◌+◌, ◌≤◌, ◌<◌, ◌≡◌, ◌≢◌, ◌⊎◌, ◌∙◌, inl, inr, refl, ap, Option, none, some, List, [],
  ◌∷◌, arith, length, length-modify, set, get_elem?, modify, replicate, ◌==◌, ==→eq, eq→==, ne→==,
  Bool-cases, some_inj,
}
use connectdisks.Connection.{Connection}
use connectdisks.Lobby.{first_available, find_player, next_seat, id_of, emit}

-- The number of seats taken.
abbrev pub occupied : List (Option ℕ) → ℕ
occupied [] = 0
occupied (none ∷ rest) = occupied rest
occupied (some c ∷ rest) = suc (occupied rest)

pub occupied-replicate : (n : ℕ) → occupied (replicate n none) ≡ 0
occupied-replicate zero = refl
occupied-replicate (suc n) = occupied-replicate n

pub occupied-le-length : (players : List (Option ℕ)) → occupied players ≤ length players
occupied-le-length [] = omega arith
occupied-le-length (none ∷ rest) = omega (arith, occupied-le-length rest)
occupied-le-length (some c ∷ rest) = omega (arith, occupied-le-length rest)

-- With a seat free, the first free one is in range.
pub first_available_lem :
    (players : List (Option ℕ))
    → occupied players < length players
    → get_elem? players (first_available players) ≡ some none
unfolding first_available
first_available_lem [] h = absurd (omega arith)
first_available_lem (none ∷ rest) h = refl
first_available_lem (some c ∷ rest) h = first_available_lem rest (omega arith)

pub get_elem?-lt {ℓ} :
    {A : Type ℓ} (xs : List A) (i : ℕ) {a : A} → get_elem? xs i ≡ some a → i < length xs
get_elem?-lt [] i e = cc
get_elem?-lt (x ∷ xs) zero e = omega arith
get_elem?-lt (x ∷ xs) (suc i) e = omega (arith, get_elem?-lt xs i e)

pub occupied-seat :
    (players : List (Option ℕ)) (s c : ℕ)
    → get_elem? players s ≡ some none
    → occupied (set players s (some c)) ≡ occupied players + 1
occupied-seat [] s c e = cc
occupied-seat (none ∷ rest) zero c e = omega arith
occupied-seat (some d ∷ rest) zero c e = cc
occupied-seat (none ∷ rest) (suc s) c e = occupied-seat rest s c e
occupied-seat (some d ∷ rest) (suc s) c e = omega (arith, occupied-seat rest s c e)

pub occupied-vacate :
    (players : List (Option ℕ)) (s d : ℕ)
    → get_elem? players s ≡ some (some d)
    → occupied (set players s none) + 1 ≡ occupied players
occupied-vacate [] s d e = cc
occupied-vacate (none ∷ rest) zero d e = cc
occupied-vacate (some d' ∷ rest) zero d e = omega arith
occupied-vacate (none ∷ rest) (suc s) d e = occupied-vacate rest s d e
occupied-vacate (some d' ∷ rest) (suc s) d e = omega (arith, occupied-vacate rest s d e)

pub get_elem?-set_self_or_ne {ℓ} :
    {A : Type ℓ} (xs : List A) (i j : ℕ) (a : A) {b : A}
    → get_elem? (set xs i a) j ≡ some b
    → (i ≡ j) × (a ≡ b) ⊎ (i ≢ j) × (get_elem? xs j ≡ some b)
get_elem?-set_self_or_ne [] i j a e = cc
get_elem?-set_self_or_ne (x ∷ xs) zero zero a e = inl (refl, some_inj e)
get_elem?-set_self_or_ne (x ∷ xs) zero (suc j) a e = inr (ground arith, e)
get_elem?-set_self_or_ne (x ∷ xs) (suc i) zero a e = inr (ground arith, e)
get_elem?-set_self_or_ne (x ∷ xs) (suc i) (suc j) a e = elim (get_elem?-set_self_or_ne xs i j a e) [
  | inl (same, v) ↦ inl (ap suc same, v)
  | inr (other, v) ↦ inr (λ h. other (omega arith), v)
]

next_seat-some :
    (found : Option (ℕ × ℕ)) {s d : ℕ}
    → next_seat found ≡ some (s, d)
    → (s' : ℕ) × (suc s' ≡ s) × (found ≡ some (s', d))
next_seat-some none e = cc
next_seat-some (some (s', d')) e =
    let same = some_inj e in
    (s', ap (λ (p : ℕ × ℕ). p.0) same, ap (λ (p : ℕ × ℕ). some (s', p.1)) same)

-- What `find_player` finds is a seat whose connection has the id that it looks for.
pub find_player_lem :
    (conns : List Connection) (players : List (Option ℕ)) (c : ℕ) {s d : ℕ}
    → find_player conns players c ≡ some (s, d)
    → (get_elem? players s ≡ some (some d)) × (id_of conns d ≡ id_of conns c)
unfolding find_player
find_player_lem conns [] c e = cc
find_player_lem conns (none ∷ rest) c e =
    let (s', es, found) = next_seat-some (find_player conns rest c) e in
    let (seat, same) = find_player_lem conns rest c found in (rw (← es) seat, same)
find_player_lem conns (some x ∷ rest) c {s} {d} e =
    elim (Bool-cases (id_of conns x == id_of conns c)) [
      | inl hit ↦
          let here : ◌≡◌ {A = Option (ℕ × ℕ)} (some (0, x)) (some (s, d)) = rw hit at e in
          let same = some_inj here in
          let es : 0 ≡ s = ap (λ (p : ℕ × ℕ). p.0) same in
          let ed : x ≡ d = ap (λ (p : ℕ × ℕ). p.1) same in
          (rw (← es, ← ed), rw (← ed) (==→eq _ _ hit))
      | inr miss ↦
          let later : next_seat (find_player conns rest c) ≡ some (s, d) = rw miss at e in
          let (s', es, found) = next_seat-some (find_player conns rest c) later in
          let (seat, same) = find_player_lem conns rest c found in (rw (← es) seat, same)
    ]

-- Where no other seat has that id, it finds the seat.
pub find_player-seat :
    (conns : List Connection) (players : List (Option ℕ)) (c s d : ℕ)
    → get_elem? players s ≡ some (some d)
    → id_of conns d ≡ id_of conns c
    → ((t e : ℕ) → get_elem? players t ≡ some (some e) → id_of conns e ≡ id_of conns c → t ≡ s)
    → find_player conns players c ≡ some (s, d)
unfolding find_player
find_player-seat conns [] c s d seat same only = cc
find_player-seat conns (none ∷ rest) c zero d seat same only = cc
find_player-seat conns (none ∷ rest) c (suc s) d seat same only = rw (
    find_player-seat conns rest c s d seat same
      (λ t e h k. let u = only (suc t) e h k in omega arith))
find_player-seat conns (some x ∷ rest) c zero d seat same only =
    let e : x ≡ d = some_inj (some_inj seat) in rw (e, eq→== _ _ same)
find_player-seat conns (some x ∷ rest) c (suc s) d seat same only =
    let miss =
      ne→== (id_of conns x) (id_of conns c)
        (λ h. let u = only 0 x refl h in absurd (omega arith)) in
    rw (
      miss,
      find_player-seat conns rest c s d seat same
          (λ t e h k. let u = only (suc t) e h k in omega arith),
    )

module _ (handler : Connection → Connection)
    (keeps : (x : Connection) → (handler x).id ≡ x.id) where
  pub id_of-modify :
      (conns : List Connection) (c d : ℕ) → id_of (modify conns c handler) d ≡ id_of conns d
  id_of-modify [] c d = refl
  id_of-modify (x ∷ xs) zero zero = keeps x
  id_of-modify (x ∷ xs) zero (suc d) = refl
  id_of-modify (x ∷ xs) (suc c) zero = refl
  id_of-modify (x ∷ xs) (suc c) (suc d) = id_of-modify xs c d

  pub id_of-emit :
      (subscribers : List ℕ) (conns : List Connection) (d : ℕ)
      → id_of (emit handler subscribers conns) d ≡ id_of conns d
  unfolding emit
  id_of-emit [] conns d = refl
  id_of-emit (c ∷ cs) conns d = id_of-emit cs (modify conns c handler) d ∙ id_of-modify conns c d

module _ (handler : Connection → Connection) where
  pub length-emit :
      (subscribers : List ℕ) (conns : List Connection)
      → length (emit handler subscribers conns) ≡ length conns
  unfolding emit
  length-emit [] conns = refl
  length-emit (c ∷ cs) conns =
      length-emit cs (modify conns c handler) ∙ length-modify conns c handler

-- A call changes the connection that it is made on, and no other.
pub id_of-modify_ne :
    (f : Connection → Connection) (conns : List Connection) (c d : ℕ)
    → c ≢ d
    → id_of (modify conns c f) d ≡ id_of conns d
id_of-modify_ne f [] c d h = refl
id_of-modify_ne f (x ∷ xs) zero zero h = absurd (h refl)
id_of-modify_ne f (x ∷ xs) zero (suc d) h = refl
id_of-modify_ne f (x ∷ xs) (suc c) zero h = refl
id_of-modify_ne f (x ∷ xs) (suc c) (suc d) h = id_of-modify_ne f xs c d (λ e. h (ap suc e))

pub id_of-modify_self :
    (f : Connection → Connection) (conns : List Connection) (c n : ℕ)
    → c < length conns
    → ((x : Connection) → x.id ≡ id_of conns c → (f x).id ≡ n)
    → id_of (modify conns c f) c ≡ n
id_of-modify_self f [] c n h e = absurd (omega arith)
id_of-modify_self f (x ∷ xs) zero n h e = e x refl
id_of-modify_self f (x ∷ xs) (suc c) n h e = id_of-modify_self f xs c n (omega arith) e
