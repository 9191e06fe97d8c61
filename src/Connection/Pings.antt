-- ===== src/Connection/Pings.antt =====
-- The pings of server/src/connection.cpp: who is found to be gone, and who is not.
use connectdisks.Prelude.{
  ℕ, suc, zero, ◌+◌, ◌-◌, ◌≤◌, ◌≡◌, ◌∙◌, refl, sym, ap, subst, true, false, Bool, not, ◌||◌, none,
  List, [], ◌∷◌, ◌++◌, arith, if◌then◌else◌, replicate, length, Bool-cases, inl, inr,
}
use mathlib.Core.List.{append-nil, append_assoc}
use connectdisks.Messaging.{message, ping}
use connectdisks.Connection.{Connection}
use connectdisks.Connection.Liveness.{Event, ticks, step, run, goings, run_lem}
use connectdisks.Connection.Rounds.{
  Round, events, are_silent, is_answered, has_four_silent, are_answered, IsAtWork, pinged,
  pinged-IsAtWork, lost, misses, loses, answered, arrivals-Arrives, run-nil, run-cons, ticks-state,
  ticks-told,
}

-- More rounds in a row are silent than fewer.
are_silent-less :
    (m n : ℕ) (rounds : List Round)
    → m ≤ n
    → are_silent n rounds ≡ true
    → are_silent m rounds ≡ true
are_silent-less zero n rounds h silent = refl
are_silent-less (suc m) zero rounds h silent = absurd (omega arith)
are_silent-less (suc m) (suc n) [] h silent = absurd (cc)
are_silent-less (suc m) (suc n) (ms ∷ rounds) h silent =
    let later = are_silent-less m n rounds (omega arith) in ground (arith, later)

four_silent-has :
    (rounds : List Round) → (are_silent 4 rounds || has_four_silent rounds) ≡ has_four_silent rounds
four_silent-has [] = refl
four_silent-has (ms ∷ rounds) = ground arith

-- The `n` pings that are still allowed are missed, or later four in a row.
abbrev pub is_lost : ℕ → List Round → Bool
is_lost n rounds = are_silent n rounds || has_four_silent rounds

absorb : (a b f : Bool) → (b ≡ true → a ≡ true) → (a || (b || f)) ≡ (a || f)
absorb a b f h = ground arith

is_lost-answered :
    (k : ℕ) (ms : Round) (rounds : List Round)
    → is_answered ms ≡ true
    → is_lost (suc k) (ms ∷ rounds) ≡ is_lost 4 rounds
is_lost-answered k ms rounds heard = rw heard (sym (four_silent-has rounds))

is_lost-silent :
    (k : ℕ) (ms : Round) (rounds : List Round)
    → is_answered ms ≡ false
    → k ≤ 3
    → is_lost (suc k) (ms ∷ rounds) ≡ is_lost k rounds
is_lost-silent k ms rounds mute few = rw mute (
    absorb (are_silent k rounds) (are_silent 3 rounds) (has_four_silent rounds)
      (are_silent-less k 3 rounds few))

-- The client is gone after the timer.
gone_after :
    (es : List Event) (c : Connection)
    → IsAtWork c
    → c.received_pong ≡ false
    → c.missed_pongs ≡ 3
    → (run (ticks false ∷ es) c).0.client_is_connected ≡ false
gone_after es c w mute last =
    let (told, gone) = run_lem es (lost c) in
    ap (λ (x : Connection). x.client_is_connected) (run-cons (ticks false) es c)
    ∙ rw (loses c w mute last) (gone refl).0

-- Which clients the rounds leave connected.
abbrev AreKept : List Round → Type 0
AreKept rounds =
    (c : Connection) (k : ℕ)
    → IsAtWork c
    → c.received_pong ≡ false
    → c.missed_pongs + suc k ≡ 4
    → (run (events rounds) c).0.client_is_connected ≡ not (is_lost (suc k) rounds)

-- The timer is done at the end of a round, with a pong in it or not.
module _ (ms : Round) (rounds : List Round) (later : AreKept rounds) (c : Connection)
    (w : IsAtWork c) where
  pinged-lost :
      (n k : ℕ)
      → step (ticks false) c ≡ (pinged c n, none)
      → n + suc k ≡ 4
      → (run (ticks false ∷ events rounds) c).0.client_is_connected ≡ not (is_lost (suc k) rounds)
  pinged-lost n k ticked few =
      ap (λ (x : Connection). x.client_is_connected)
        (ticks-state c (pinged c n) (events rounds) ticked)
      ∙ later (pinged c n) k (pinged-IsAtWork c n w) refl few

  silent-lost :
      (k : ℕ)
      → is_answered ms ≡ false
      → c.received_pong ≡ false
      → c.missed_pongs + suc k ≡ 4
      → (run (ticks false ∷ events rounds) c).0.client_is_connected
        ≡ not (is_lost (suc k) (ms ∷ rounds))
  silent-lost zero quiet mute few =
      gone_after (events rounds) c w mute (omega (arith, few))
      ∙ ap not (sym (is_lost-silent 0 ms rounds quiet (omega arith)))
  silent-lost (suc k) quiet mute few =
      pinged-lost (c.missed_pongs + 1) k (misses c w mute (omega (arith, few))) (omega (arith, few))
      ∙ ap not (sym (is_lost-silent (suc k) ms rounds quiet (omega (arith, few))))

rounds-AreKept : (rounds : List Round) → AreKept rounds
unfolding run
rounds-AreKept [] c k w mute few = w.here
rounds-AreKept (ms ∷ rounds) c k w mute few =
    let a = arrivals-Arrives ms c (ticks false ∷ events rounds) w in
    let missed = a.read.same_missed in
    let heard = a.read.heard in
    let later = rounds-AreKept rounds in
    ap (λ (x : Connection). x.client_is_connected) a.state ∙ elim (Bool-cases (is_answered ms)) [
      | inl replied ↦
          pinged-lost ms rounds later a.after a.read.at_work 0 3
            (answered a.after a.read.at_work (ground (arith, heard, replied))) refl
          ∙ ap not (sym (is_lost-answered k ms rounds replied))
      | inr quiet ↦
          silent-lost ms rounds later a.after a.read.at_work k quiet
            (ground (arith, heard, mute, quiet)) (omega (arith, missed, few))
    ]

-- A client is connected, has been sent a ping that it has not answered, and has missed at most
-- three pings in a row before it; the connection reads and waits for its timer. Then the timer is
-- done any number of times, and any messages arrive before it each time. After that the client is
-- still connected exactly if neither all the pings that it was still allowed to miss, four less
-- those it had missed, went without a pong from the start, nor any four in a row; and the lobby has
-- been told once that the client is gone, or, if it is still connected, not at all.
pub silence_lem :
    (rounds : List Round) (c : Connection)
    → IsAtWork c
    → c.received_pong ≡ false
    → c.missed_pongs ≤ 3
    → let gone = are_silent (4 - c.missed_pongs) rounds || has_four_silent rounds in
      ((run (events rounds) c).0.client_is_connected ≡ not gone)
      × (goings (run (events rounds) c).1 ≡ (if gone then 1 else 0))
silence_lem rounds c w mute few =
    let k : ℕ = 3 - c.missed_pongs in
    let same : 4 - c.missed_pongs ≡ suc k = omega arith in
    let still = rounds-AreKept rounds c k w mute (omega arith) in
    let (told, gone) = run_lem (events rounds) c in
    rw same (still, ground (arith, told, w.here, still))

-- A client is connected, and the connection reads and waits for its timer. If the timer is done any
-- number of times, and each time messages arrive before it with a pong among them, then the client is
-- still connected, however many pings it missed before, the lobby has not been told that it is gone,
-- the connection still reads and waits for its timer, and it has sent one more ping each time and
-- nothing else.
pub answers_lem :
    (rounds : List Round) (c : Connection)
    → IsAtWork c
    → are_answered rounds ≡ true
    → IsAtWork (run (events rounds) c).0
      × (goings (run (events rounds) c).1 ≡ 0)
      × ((run (events rounds) c).0.sent ≡ c.sent ++ replicate (length rounds) (message ping []))
answers_lem [] c w all = rw (run-nil c) (w, refl, sym (append-nil c.sent))
answers_lem (ms ∷ rounds) c w all =
    let a = arrivals-Arrives ms c (ticks false ∷ events rounds) w in
    let x = pinged a.after 0 in
    let ticked = answered a.after a.read.at_work (ground (arith, a.read.heard, all)) in
    let state = a.state ∙ ticks-state a.after x (events rounds) ticked in
    let told = a.told ∙ ticks-told a.after x (events rounds) ticked in
    let (still, quiet, sent) =
      answers_lem rounds x (pinged-IsAtWork a.after 0 a.read.at_work) (ground (arith, all)) in
    (
      subst IsAtWork (sym state) still,
      told ∙ quiet,
      ap (λ (y : Connection). y.sent) state
          ∙ sent
          ∙ append_assoc a.after.sent (message ping [] ∷ [])
              (replicate (length rounds) (message ping []))
          ∙ ap (λ before. before ++ replicate (length (ms ∷ rounds)) (message ping []))
              a.read.same_sent,
    )
