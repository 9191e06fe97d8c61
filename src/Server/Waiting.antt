-- ===== src/Server/Waiting.antt =====
-- The accept and the timer that server/src/server.cpp leaves under way.
use connectdisks.Prelude.{
  ℕ, ◌≡◌, ◌∙◌, refl, Bool, true, false, not, List, [], ◌∷◌, ok, Returns, Returns-map, Returns-ok,
}
use connectdisks.Lobby.{on_disconnect}
use connectdisks.Server.{Server, on_connection_accepted, update_queue_positions}
use connectdisks.Server.Serving.{IsServing}
use connectdisks.Server.Pending.{lobby_call-Kept, on_connection_accepted-waits}
use connectdisks.Server.Calls.{turn_call, ready_call}
use connectdisks.Server.Runs.{
  Event, accepts, is_time, disconnects, readies, turns, changes, handle, run, AreEvents, no_event,
  an_event, handle_lem, IsEvent, accepted,
}

abbrev pub an_accept_fails : List Event → Bool
an_accept_fails [] = false
an_accept_fails (accepts true ∷ es) = true
an_accept_fails (accepts false ∷ es) = an_accept_fails es
an_accept_fails (is_time ∷ es) = an_accept_fails es
an_accept_fails (disconnects l c ∷ es) = an_accept_fails es
an_accept_fails (readies l first c ∷ es) = an_accept_fails es
an_accept_fails (turns l c column ∷ es) = an_accept_fails es
an_accept_fails (changes c f ∷ es) = an_accept_fails es

abbrev pub accepts_after : Event → Bool → Bool
accepts_after (accepts failed) b = not failed
accepts_after is_time b = b
accepts_after (disconnects l c) b = b
accepts_after (readies l first c) b = b
accepts_after (turns l c column) b = b
accepts_after (changes c f) b = b

not_both : (b : Bool) → b ≡ true → b ≡ false → ⊥
not_both b on off = cc

module _ (native_to_big : ℕ → List ℕ) where
  handle-waits :
      (e : Event) (s : Server)
      → Returns
          (λ s'.
            (s'.accepting ≡ accepts_after e s.accepting)
            × (s.timer_is_set ≡ true → s'.timer_is_set ≡ true))
          (handle native_to_big e s)
  unfolding handle update_queue_positions on_connection_accepted
  handle-waits (accepts true) s = (refl, λ h. h)
  handle-waits (accepts false) s =
      Returns-map (on_connection_accepted native_to_big false s) (λ s' (a, t). (a, λ h. t ∙ h))
        (on_connection_accepted-waits native_to_big s)
  handle-waits is_time s = (refl, λ h. refl)
  handle-waits (disconnects l c) s = lobby_call-Kept l (on_disconnect c) s
  handle-waits (readies l first c) s = lobby_call-Kept l (ready_call first c) s
  handle-waits (turns l c column) s = lobby_call-Kept l (turn_call c column) s
  handle-waits (changes c f) s = (refl, λ h. h)

  pub handled-waits :
      (e : Event) (s s' : Server)
      → handle native_to_big e s ≡ ok s'
      → (s'.accepting ≡ accepts_after e s.accepting)
        × (s.timer_is_set ≡ true → s'.timer_is_set ≡ true)
  handled-waits e s s' called =
      Returns-ok
        (λ s'.
          (s'.accepting ≡ accepts_after e s.accepting)
          × (s.timer_is_set ≡ true → s'.timer_is_set ≡ true))
        called (handle-waits e s)

  -- What an event does to the accept, before the events `es`.
  event-accepting :
      (e : Event) (es : List Event) (s s₁ s' : Server)
      → IsEvent e s
      → s₁.accepting ≡ accepts_after e s.accepting
      → (s₁.accepting ≡ true → s'.accepting ≡ not (an_accept_fails es))
      → (s₁.accepting ≡ false → s'.accepting ≡ false)
      → (s.accepting ≡ true → s'.accepting ≡ not (an_accept_fails (e ∷ es)))
        × (s.accepting ≡ false → s'.accepting ≡ false)
  event-accepting (accepts true) es s s₁ s' (accepted waits) a on off =
      (λ h. off a, λ h. absurd (not_both s.accepting waits h))
  event-accepting (accepts false) es s s₁ s' (accepted waits) a on off =
      (λ h. on a, λ h. absurd (not_both s.accepting waits h))
  event-accepting is_time es s s₁ s' h a on off = (λ h. on (a ∙ h), λ h. off (a ∙ h))
  event-accepting (disconnects l c) es s s₁ s' h a on off = (λ h. on (a ∙ h), λ h. off (a ∙ h))
  event-accepting (readies l first c) es s s₁ s' h a on off = (λ h. on (a ∙ h), λ h. off (a ∙ h))
  event-accepting (turns l c column) es s s₁ s' h a on off = (λ h. on (a ∙ h), λ h. off (a ∙ h))
  event-accepting (changes c f) es s s₁ s' h a on off = (λ h. on (a ∙ h), λ h. off (a ∙ h))

  -- From a state in which the server keeps what it is meant to and waits for its timer, events as
  -- those of `run_server_lem` are all handled, and the timer is waited for after them. If the server
  -- waits for a connection before them, it does so after them exactly if no accept among them has
  -- failed; if it does not, it never does again. And the server still keeps what it is meant to.
  pub run-accepting :
      (es : List Event) (s : Server)
      → AreEvents native_to_big es s
      → IsServing s
      → s.timer_is_set ≡ true
      → (s' : Server) × (run native_to_big es s ≡ ok s')
        × (s'.timer_is_set ≡ true)
        × (s.accepting ≡ true → s'.accepting ≡ not (an_accept_fails es))
        × (s.accepting ≡ false → s'.accepting ≡ false)
        × IsServing s'
  unfolding run
  run-accepting [] s no_event i timer = (s, refl, timer, λ h. h, λ h. h, i)
  run-accepting (e ∷ es) s (an_event this later) i timer =
      let (s₁, called, i₁) = handle_lem native_to_big e s this i in
      let (a, t) = handled-waits e s s₁ called in
      let (s', runs, timer', on, off, i') = run-accepting es s₁ (later s₁ called) i₁ (t timer) in
      let (on', off') = event-accepting e es s s₁ s' this a on off in
      (s', rw called runs, timer', on', off', i')
