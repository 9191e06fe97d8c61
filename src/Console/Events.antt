-- ===== src/Console/Events.antt =====
-- Messages and words in any order.
use connectdisks.Prelude.{
  ℕ, ◌-◌, u8, ◌++◌, ◌≡◌, ◌∙◌, refl, ap, inl, inr, Bool, true, false, none, some, Option, ok, Result,
  List, [], ◌∷◌, ◌>>=◌, Text, codes, Bool-cases, Option-cases,
}
use connectdisks.Connection.{ReadResult, arrived, nothing, closed, failed}
use connectdisks.Messaging.{Message}
use connectdisks.Client
use connectdisks.Client.{Client, Notice, receive, toggle_ready, send_turn, on_disconnect}
use connectdisks.Client.Notices.{receive-IsBrief, handle_read-ended, one_call, no_call}
use connectdisks.Input.{
  InputCallback, ask_ready, ask_rematch, ask_column, call, answer, same_text, read_column,
}
use connectdisks.Console.{
  ConsoleClient, InputWorker, Afterwards, then_start, then_return, start, go_on, tell, handle_all,
  wait_if_free, joined, after_call, enter, deliver,
}
use connectdisks.Console.Worker.{IsIdle, quiet, asking, answered}
use connectdisks.Console.Handlers.{
  IsSound, at_rest, in_join, resting, Returns, CanHandleAll, none_left, one_more, leaving,
  handle_all-Returns,
}

-- A sound console comes of it.
abbrev pub Settles : Result ConsoleClient → Type 0
Settles r = (s : ConsoleClient) × (r ≡ ok s) × IsSound s

pub data Event : Type 0 where
  arrives : ReadResult → Event
  enters : Text → Event

answer-returns :
    (agreed sending exiting w : Text) (c : Client)
    → c.has_socket ≡ true
    → (x : Client × Text × Bool) × (answer agreed sending exiting w c ≡ ok x)
unfolding answer Client.stop
answer-returns agreed sending exiting w c socket = elim (Bool-cases (same_text w agreed)) [
  | inl same ↦ ((toggle_ready c, sending, true), rw (answer, same) refl)
  | inr other ↦ elim (Bool-cases (same_text w (codes "quit"))) [
    | inl leaves ↦ (
      (record c { has_socket = false; stopped = true }, exiting, false),
      rw (answer, other, leaves, socket) refl,
    )
    | inr unknown ↦ ((c, codes "Unrecognized input\n", false), rw (answer, other, unknown) refl)
  ]
]

call-returns :
    (callback : InputCallback) (w : Text) (c : Client)
    → c.has_socket ≡ true
    → (x : Client × Text × Bool) × (call callback w c ≡ ok x)
unfolding call
call-returns ask_ready w c socket = answer-returns _ _ _ w c socket
call-returns ask_rematch w c socket = answer-returns _ _ _ w c socket
call-returns (ask_column max_columns) w c socket = elim (Option-cases (read_column max_columns w)) [
  | inl nothing_read ↦
      ((c, codes "Invalid input, try again: ", false), rw (call, nothing_read) refl)
  | inr (n, read) ↦ ((send_turn (u8 (n - 1)) c, [], true), rw (call, read) refl)
]

pub after_call-IsIdle :
    (callback : InputCallback) (done : Bool)
    → IsIdle (record { running = true; thread = after_call callback done })
after_call-IsIdle callback true = answered
after_call-IsIdle callback false = asking

pub wait_if_free-IsSound : (s : ConsoleClient) → IsSound s → IsSound (wait_if_free s)
unfolding wait_if_free
wait_if_free-IsSound s (at_rest idle) = at_rest idle
wait_if_free-IsSound s in_join = in_join

enter-Returns :
    (w : Text) (s : ConsoleClient)
    → IsSound s
    → (s.input_worker.running ≡ true → s.client.has_socket ≡ true)
    → Settles (enter w s)
unfolding enter tell joined go_on start wait_if_free
enter-Returns w s (at_rest quiet) socket = (_, refl, at_rest quiet)
enter-Returns w s (at_rest answered) socket = (_, refl, at_rest answered)
enter-Returns w s (at_rest (asking {callback = callback})) socket =
    let (x, e) = call-returns callback w s.client (socket refl) in
    (
      resting x.0 (record { running = true; thread = after_call callback x.2 }) (s.printed ++ x.1),
      ap
          (λ r. r >>= λ x. ok (
            resting x.0 (record { running = true; thread = after_call callback x.2 })
              (s.printed ++ x.1)))
          e,
      at_rest (after_call-IsIdle callback x.2),
    )
enter-Returns w s (in_join {after = then_return}) socket = (_, refl, at_rest quiet)
enter-Returns w s (in_join {after = then_start callback}) socket = (_, refl, at_rest asking)

module _ (big_to_native : List ℕ → ℕ) where
  unfoldable pub happen : Event → ConsoleClient → Result ConsoleClient
  happen (arrives r) s = deliver big_to_native r s
  happen (enters w) s = enter w s

  -- A read is done only while the I/O thread is free, and then the client has a game if a handler
  -- prints one. A word that a callback reads comes while the client has a socket.
  pub data IsEvent : Event → ConsoleClient → Type 0 where
    arriving :
        {m : Message} {s : ConsoleClient} {c : Client} {ns : List Notice}
        → s.joining ≡ none
        → receive big_to_native m (record (s.client) { reading = false }) ≡ ok (c, ns)
        → CanHandleAll c ns
        → IsEvent (arrives (arrived m)) s
    emptying : {s : ConsoleClient} → s.joining ≡ none → IsEvent (arrives nothing) s
    closing : {s : ConsoleClient} → s.joining ≡ none → IsEvent (arrives closed) s
    failing : {s : ConsoleClient} → s.joining ≡ none → IsEvent (arrives failed) s
    entering :
        {w : Text} {s : ConsoleClient}
        → (s.input_worker.running ≡ true → s.client.has_socket ≡ true)
        → IsEvent (enters w) s

  leaves :
      (c : Client) (w : InputWorker) (p : Text)
      → IsIdle w
      → Returns
          (record c { reading = false; is_connected = false })
          (handle_all
            (on_disconnect ∷ [])
            (resting (record c { reading = false; is_connected = false }) w p))
  leaves c w p idle =
      handle_all-Returns (on_disconnect ∷ []) (record c { reading = false; is_connected = false }) w
        p one_call idle (one_more leaving none_left)

  by_notices :
      (c : Client) (w : InputWorker) (p : Text) {r : Result (Client × List Notice)} {d : Client}
      {ns : List Notice}
      → r ≡ ok (d, ns)
      → Returns d (handle_all ns (resting d w p))
      → Settles (r >>= λ x. handle_all x.1 (record (resting c w p) { client = x.0 }))
  by_notices c w p e (s, f, sound, same) = (
    s,
    ap (λ r. r >>= λ x. handle_all x.1 (record (resting c w p) { client = x.0 })) e ∙ f,
    sound,
  )

  pub deliver-Returns :
      (m : Message) (c d : Client) (w : InputWorker) (p : Text) (ns : List Notice)
      → IsIdle w
      → receive big_to_native m (record c { reading = false }) ≡ ok (d, ns)
      → CanHandleAll d ns
      → (s : ConsoleClient) × (deliver big_to_native (arrived m) (resting c w p)
          ≡ ok (wait_if_free s))
        × IsSound s
        × (s.client ≡ d)
  unfolding deliver
  deliver-Returns m c d w p ns idle e h =
      let brief = receive-IsBrief big_to_native m (record c { reading = false }) d ns e in
      let (s, f, sound, same) = handle_all-Returns ns d w p brief idle h in
      (
        s,
        ap
              (λ r. r >>= λ x. handle_all x.1 (record (resting c w p) { client = x.0 }) >>= λ s.
                ok (wait_if_free s))
              e
            ∙ ap (λ r. r >>= λ s. ok (wait_if_free s)) f,
        sound,
        same,
      )

  arrive-Returns :
      (r : ReadResult) (c : Client) (w : InputWorker) (p : Text)
      → IsIdle w
      → IsEvent (arrives r) (resting c w p)
      → Settles (deliver big_to_native r (resting c w p))
  unfolding deliver
  arrive-Returns (arrived m) c w p idle (arriving {c = d} {ns = ns} free e h) =
      let (s, f, sound, same) = deliver-Returns m c d w p ns idle e h in
      (wait_if_free s, f, wait_if_free-IsSound s sound)
  arrive-Returns nothing c w p idle (emptying free) =
      by_notices c w p (handle_read-ended big_to_native c).2
        (handle_all-Returns [] (record c { reading = false }) w p no_call idle none_left)
  arrive-Returns closed c w p idle (closing free) =
      by_notices c w p (handle_read-ended big_to_native c).0 (leaves c w p idle)
  arrive-Returns failed c w p idle (failing free) =
      by_notices c w p (handle_read-ended big_to_native c).1 (leaves c w p idle)

  happen-Returns : (e : Event) (s : ConsoleClient) → IsSound s → IsEvent e s → Settles (happen e s)
  unfolding happen
  happen-Returns (enters w) s sound (entering socket) = enter-Returns w s sound socket
  happen-Returns (arrives r) s (at_rest {c = c} {w = w} {p = p} idle) event =
      arrive-Returns r c w p idle event
  happen-Returns (arrives r) s in_join event = absurd (busy r event)
    where
      none_some : {A : Type 0} {a : A} → ◌≡◌ {A = Option A} (some a) none → ⊥
      none_some e = cc

      busy :
          (r : ReadResult) {c : Client} {w : InputWorker} {after : Afterwards} {p : Text}
          → IsEvent
              (arrives r)
              (record { client = c; input_worker = w; joining = some after; printed = p })
          → ⊥
      busy (arrived m) (arriving free e h) = none_some free
      busy nothing (emptying free) = none_some free
      busy closed (closing free) = none_some free
      busy failed (failing free) = none_some free

  unfoldable pub happen_all : List Event → ConsoleClient → Result ConsoleClient
  unfolding happen
  happen_all [] s = ok s
  happen_all (e ∷ es) s = do s' ← happen e s; happen_all es s'

  pub data AreEvents : List Event → ConsoleClient → Type 0 where
    no_event : {s : ConsoleClient} → AreEvents [] s
    an_event :
        {e : Event} {es : List Event} {s : ConsoleClient}
        → IsEvent e s
        → ((s' : ConsoleClient) → happen e s ≡ ok s' → AreEvents es s')
        → AreEvents (e ∷ es) s

  -- From a sound console, such as a new one, the ends of reads and words, in any number and order,
  -- leave a sound console, if each meets `IsEvent`: the I/O thread reads on only when it waits in no
  -- `join`, a message does not fail the client, which has a game on a well-formed board with a row if a
  -- handler prints one, and a word for a callback comes while the client has a socket. So no
  -- thread is assigned that is still to be joined, none is joined that cannot be, and the I/O thread
  -- waits only for an input thread that reads and ends with its next word.
  pub happen_all-IsSound :
      (es : List Event) (s : ConsoleClient)
      → AreEvents es s
      → IsSound s
      → (s' : ConsoleClient) × (happen_all es s ≡ ok s') × IsSound s'
  unfolding happen_all
  happen_all-IsSound [] s no_event sound = (s, refl, sound)
  happen_all-IsSound (e ∷ es) s (an_event this later) sound =
      let (s', f, sound') = happen-Returns e s sound this in
      let (s'', g, sound'') = happen_all-IsSound es s' (later s' f) sound' in (s'', rw f g, sound'')
