-- ===== src/Server/Queue.antt =====
-- The queue of server/src/server.cpp, and which changes of the connections leave lobbies alone.
use connectdisks.Prelude.{
  ℕ, true, suc, zero, ◌+◌, ◌≤◌, ◌<◌, ◌≡◌, ◌≢◌, ◌⊎◌, some_inj, ◌∙◌, refl, inl, inr, Bool-cases, List,
  [], ◌∷◌, ◌++◌, arith, length, modify, length-modify, get_elem?, some, set,
}
use connectdisks.Messaging.{message, in_queue}
use connectdisks.Connection.{Connection, send_message}
use connectdisks.Lobby.{GameLobby, id_of}
use connectdisks.Lobby.Seats.{id_of-modify}
use connectdisks.Lobby.Invariant.{Inv}
use connectdisks.Server.{remove_if_gone, notify_queue_position, notify_all, is_alive}

-- The connections in a queue have no id yet, and stand in the order in which they were accepted,
-- from the connection `lo` on.
pub data IsQueue (conns : List Connection) : ℕ → List ℕ → Type 0 where
  empty : {lo : ℕ} → IsQueue conns lo []
  ahead :
      {lo c : ℕ} {cs : List ℕ}
      → lo ≤ c
      → c < length conns
      → id_of conns c ≡ 0
      → IsQueue conns (suc c) cs
      → IsQueue conns lo (c ∷ cs)

pub IsQueue-le :
    (conns : List Connection) (lo lo' : ℕ) (cs : List ℕ)
    → lo' ≤ lo
    → IsQueue conns lo cs
    → IsQueue conns lo' cs
IsQueue-le conns lo lo' [] h empty = empty
IsQueue-le conns lo lo' (c ∷ cs) h (ahead low known new rest) = ahead (omega arith) known new rest

-- The connections change, and those that wait still have no id.
pub IsQueue-change :
    (conns conns' : List Connection) (lo : ℕ) (cs : List ℕ)
    → length conns ≤ length conns'
    → ((d : ℕ) → lo ≤ d → d < length conns → id_of conns d ≡ 0 → id_of conns' d ≡ 0)
    → IsQueue conns lo cs
    → IsQueue conns' lo cs
IsQueue-change conns conns' lo [] more still empty = empty
IsQueue-change conns conns' lo (c ∷ cs) more still (ahead low known new rest) =
    ahead low (omega arith) (still c low known new)
      (IsQueue-change conns conns' (suc c) cs more (λ d h k. still d (omega arith) k) rest)

-- The connection that was accepted last is put last.
pub IsQueue-last :
    (conns conns' : List Connection) (lo : ℕ) (cs : List ℕ)
    → lo ≤ length conns
    → length conns < length conns'
    → id_of conns' (length conns) ≡ 0
    → ((d : ℕ) → d < length conns → id_of conns d ≡ 0 → id_of conns' d ≡ 0)
    → IsQueue conns lo cs
    → IsQueue conns' lo (cs ++ length conns ∷ [])
IsQueue-last conns conns' lo [] low more new still empty = ahead low more new empty
IsQueue-last conns conns' lo (d ∷ ds) low more new still (ahead h k n rest) =
    ahead h (omega arith) (still d k n)
      (IsQueue-last conns conns' (suc d) ds (omega arith) more new still rest)

pub remove_if_gone-IsQueue :
    (conns seen : List Connection) (lo : ℕ) (cs : List ℕ)
    → IsQueue conns lo cs
    → IsQueue conns lo (remove_if_gone seen cs)
unfolding remove_if_gone
remove_if_gone-IsQueue conns seen lo [] empty = empty
remove_if_gone-IsQueue conns seen lo (c ∷ cs) (ahead low known new rest) =
    let later = remove_if_gone-IsQueue conns seen (suc c) cs rest in
    elim (Bool-cases (is_alive seen c)) [
      | inl alive ↦ rw alive (ahead low known new later)
      | inr gone ↦
          rw gone (IsQueue-le conns (suc c) lo (remove_if_gone seen cs) (omega arith) later)
    ]

pub length-remove_if_gone :
    (seen : List Connection) (cs : List ℕ) → length (remove_if_gone seen cs) ≤ length cs
unfolding remove_if_gone
length-remove_if_gone seen [] = omega arith
length-remove_if_gone seen (c ∷ cs) = elim (Bool-cases (is_alive seen c)) [
  | inl alive ↦ rw alive (omega (arith, length-remove_if_gone seen cs))
  | inr gone ↦ rw gone (omega (arith, length-remove_if_gone seen cs))
]

module _ (native_to_big : ℕ → List ℕ) where
  pub notify_queue_position-id :
      (n : ℕ) (x : Connection) → (notify_queue_position native_to_big n x).id ≡ x.id
  unfolding notify_queue_position send_message
  notify_queue_position-id n x = ground arith

  pub id_of-notify_all :
      (n : ℕ) (cs : List ℕ) (conns : List Connection) (d : ℕ)
      → id_of (notify_all native_to_big n cs conns) d ≡ id_of conns d
  unfolding notify_all
  id_of-notify_all n [] conns d = refl
  id_of-notify_all n (c ∷ cs) conns d =
      id_of-notify_all (n + 1) cs (modify conns c (notify_queue_position native_to_big n)) d
      ∙ id_of-modify (notify_queue_position native_to_big n) (notify_queue_position-id n) conns c d

  pub length-notify_all :
      (n : ℕ) (cs : List ℕ) (conns : List Connection)
      → length (notify_all native_to_big n cs conns) ≡ length conns
  unfolding notify_all
  length-notify_all n [] conns = refl
  length-notify_all n (c ∷ cs) conns =
      length-notify_all (n + 1) cs (modify conns c (notify_queue_position native_to_big n))
      ∙ length-modify conns c (notify_queue_position native_to_big n)

-- Those who have an id keep it.
pub record Kept (conns conns' : List Connection) : Type 0 where
  pub longer : length conns ≤ length conns'
  pub same_ids : (d : ℕ) → d < length conns → id_of conns d ≢ 0 → id_of conns' d ≡ id_of conns d

-- Then a lobby stays well formed.
pub Inv-Kept :
    (conns conns' : List Connection) (lobby : GameLobby)
    → Kept conns conns'
    → Inv (record { conns = conns; lobby = lobby })
    → Inv (record { conns = conns'; lobby = lobby })
Inv-Kept conns conns' lobby kept i =
    let s = i.seating in
    record {
      seating = record {
        limits = s.limits;
        size = s.size;
        counted = s.counted;
        seated = λ t d e.
            let (k, at) = s.seated t d e in
            (omega (arith, kept.longer), kept.same_ids d k (omega (arith, at)) ∙ at);
        opened = s.opened;
      };
      phase = i.phase;
    }

pub Kept-all :
    (conns conns' : List Connection)
    → length conns' ≡ length conns
    → ((d : ℕ) → id_of conns' d ≡ id_of conns d)
    → Kept conns conns'
Kept-all conns conns' size ids = record { longer = omega arith; same_ids = λ d _ _. ids d }

-- A connection that is accepted comes after the others.
pub id_of-append :
    (conns : List Connection) (x : Connection) (d : ℕ)
    → d < length conns
    → id_of (conns ++ x ∷ []) d ≡ id_of conns d
id_of-append [] x d h = absurd (omega arith)
id_of-append (y ∷ ys) x zero h = refl
id_of-append (y ∷ ys) x (suc d) h = id_of-append ys x d (omega arith)

pub id_of-last :
    (conns : List Connection) (x : Connection) → id_of (conns ++ x ∷ []) (length conns) ≡ x.id
id_of-last [] x = refl
id_of-last (y ∷ ys) x = id_of-last ys x

pub length-append {ℓ} : {A : Type ℓ} (ys : List A) (x : A) → length (ys ++ x ∷ []) ≡ length ys + 1
length-append [] x = omega arith
length-append (y ∷ ys) x = omega (arith, length-append ys x)

pub get_elem?-set_self {ℓ} :
    {A : Type ℓ} (xs : List A) (i : ℕ) (a : A) → i < length xs → get_elem? (set xs i a) i ≡ some a
get_elem?-set_self [] i a h = absurd (omega arith)
get_elem?-set_self (x ∷ xs) zero a h = refl
get_elem?-set_self (x ∷ xs) (suc i) a h = get_elem?-set_self xs i a (omega arith)

pub get_elem?-set_ne {ℓ} :
    {A : Type ℓ} (xs : List A) (i j : ℕ) (a : A) → i ≢ j → get_elem? (set xs i a) j ≡ get_elem? xs j
get_elem?-set_ne [] i j a n = refl
get_elem?-set_ne (x ∷ xs) zero zero a n = absurd (n refl)
get_elem?-set_ne (x ∷ xs) zero (suc j) a n = refl
get_elem?-set_ne (x ∷ xs) (suc i) zero a n = refl
get_elem?-set_ne (x ∷ xs) (suc i) (suc j) a n = get_elem?-set_ne xs i j a (λ e. n (omega arith))

pub get_elem?-before {ℓ} :
    {A : Type ℓ} (xs : List A) (y : A) (i : ℕ) {a : A}
    → get_elem? xs i ≡ some a
    → get_elem? (xs ++ y ∷ []) i ≡ some a
get_elem?-before [] y i e = absurd (cc)
get_elem?-before (x ∷ xs) y zero e = e
get_elem?-before (x ∷ xs) y (suc i) e = get_elem?-before xs y i e

pub get_elem?-append {ℓ} :
    {A : Type ℓ} (xs : List A) (y : A) (i : ℕ) {a : A}
    → get_elem? (xs ++ y ∷ []) i ≡ some a
    → (get_elem? xs i ≡ some a) ⊎ (y ≡ a)
get_elem?-append [] y zero e = inr (some_inj e)
get_elem?-append [] y (suc i) e = absurd (cc)
get_elem?-append (x ∷ xs) y zero e = inl e
get_elem?-append (x ∷ xs) y (suc i) e = get_elem?-append xs y i e

pub get_elem?-last {ℓ} :
    {A : Type ℓ} (xs : List A) (y : A) → get_elem? (xs ++ y ∷ []) (length xs) ≡ some y
get_elem?-last [] y = refl
get_elem?-last (x ∷ xs) y = get_elem?-last xs y

pub notify_queue_position-sent :
    (native_to_big : ℕ → List ℕ) (n : ℕ) (x : Connection)
    → x.client_is_connected ≡ true
    → (notify_queue_position native_to_big n x).sent
      ≡ x.sent ++ message in_queue (native_to_big n) ∷ []
unfolding notify_queue_position send_message
notify_queue_position-sent native_to_big n x here = rw here
