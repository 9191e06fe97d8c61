-- ===== src/Client/Accepted.antt =====
-- A connection that server/src/server.cpp has just accepted, and a lobby that it has just made.
use connectdisks.Prelude.{
  ℕ, suc, zero, ◌≡◌, ◌≢◌, ◌∙◌, refl, sym, ap, inl, inr, some, none, Option, List, [], ◌∷◌, ◌++◌,
  arith, get_elem?, length, ◌==◌, Bool-cases, ==→eq, ==→ne,
}
use connectdisks.Game.{min_num_players}
use connectdisks.Connection.{Connection, create, on_accept}
use connectdisks.Connection.Alone.{on_accept-IsPinged}
use connectdisks.Lobby
use connectdisks.Lobby.{GameLobby}
use connectdisks.Lobby.Joining.{start-new-subscribers}
use connectdisks.Lobby.Messages.{occurs}
use connectdisks.Server.{Server, make_new_lobby}
use connectdisks.Server.Queue.{get_elem?-before, get_elem?-append, get_elem?-last}
use connectdisks.Server.Accepting.{accepted}
use connectdisks.Client.{Client}
use connectdisks.Client.Receiving.{Listens}
use connectdisks.Client.Fairness.{all_read}
use connectdisks.Client.Signals.{pinged-Stage}
use connectdisks.Client.Heard.{Heard, Heard-Stage, Knows-nil}
use connectdisks.Client.Seen.{moved-Seen}
use connectdisks.Client.Life.{Outside, Life, comes, waits, sits, leaves, muted-Life, moved-Outside}

get_elem?-after {ℓ} :
    {A : Type ℓ} (xs : List A) (y : A) (i : ℕ)
    → get_elem? xs i ≡ none
    → length xs ≢ i
    → get_elem? (xs ++ y ∷ []) i ≡ none
get_elem?-after [] y zero e n = absurd (n refl)
get_elem?-after [] y (suc i) e n = refl
get_elem?-after (x ∷ xs) y zero e n = absurd (cc)
get_elem?-after (x ∷ xs) y (suc i) e n = get_elem?-after xs y i e (λ h. n (omega arith))

module _ (big_to_native : List ℕ → ℕ) (start : Client) (h : Listens 0 none start) (d : ℕ) where
  new-Heard : Heard big_to_native start (on_accept create) none
  new-Heard =
      let fresh : Heard big_to_native start create none = record {
        knows = Knows-nil big_to_native start 0 none h;
        fair = all_read;
      } in
      Heard-Stage big_to_native start on_accept fresh
        (pinged-Stage big_to_native create refl on_accept none on_accept-IsPinged)

  -- The connection `d` is the one that is accepted, or comes later, or is there already.
  pub accepted-Life :
      (s : Server) → Life big_to_native start s d → Life big_to_native start (accepted s) d
  accepted-Life s (waits x w) = waits x (record {
    outside =
        moved-Outside s (accepted s) d (some x) (some x) w.outside
          (get_elem?-before s.conns (on_accept create) d w.outside.at) refl;
    no_id = w.no_id;
    here = w.here;
    heard = w.heard;
  })
  accepted-Life s (sits l x o w heard) =
      sits l x o
        (moved-Seen s l d x o w (accepted s)
          (get_elem?-before s.conns (on_accept create) d w.watches.at) refl)
        heard
  accepted-Life s (leaves x w) =
      muted-Life big_to_native start s (accepted s) d x x w
        (get_elem?-before s.conns (on_accept create) d w.at)
        (record { gone = w.gone; unsent = refl })
  accepted-Life s (comes w) = elim (Bool-cases (length s.conns == d)) [
    | inr later ↦ comes (
        moved-Outside s (accepted s) d none none w
          (get_elem?-after s.conns (on_accept create) d w.at (==→ne _ d later)) refl)
    | inl now ↦ waits (on_accept create) (record {
      outside =
          moved-Outside s (accepted s) d none (some (on_accept create)) w
            (ap (get_elem? (accepted s).conns) (sym (==→eq _ d now))
              ∙ get_elem?-last s.conns (on_accept create))
            refl;
      no_id = on_accept-IsPinged.same_id;
      here = on_accept-IsPinged.here;
      heard = new-Heard;
    })
  ]

-- A new lobby, which nobody hears.
pub grown-Life :
    (big_to_native : List ℕ → ℕ) (start : Client) (s : Server) (d : ℕ)
    → Life big_to_native start s d
    → Life big_to_native start (make_new_lobby s) d
unfolding make_new_lobby
grown-Life big_to_native start s d life = grown life
  where
    fresh : GameLobby
    fresh = Lobby.start (Lobby.new min_num_players)

    unheard : {y : GameLobby} → fresh ≡ y → occurs d y.subscribers ≡ 0
    unheard same =
        ap (λ (y : GameLobby). occurs d y.subscribers) (sym same)
        ∙ ap (occurs d) (start-new-subscribers min_num_players)

    outside : (p : Option Connection) → Outside s d p → Outside (make_new_lobby s) d p
    outside p w = record {
      at = w.at;
      absent = λ k y v. elim (get_elem?-append s.lobbies fresh k v) [
        | inl old ↦ w.absent k y old
        | inr same ↦ unheard same
      ];
    }

    grown : Life big_to_native start s d → Life big_to_native start (make_new_lobby s) d
    grown (comes w) = comes (outside none w)
    grown (waits x w) = waits x (record {
      outside = outside (some x) w.outside;
      no_id = w.no_id;
      here = w.here;
      heard = w.heard;
    })
    grown (leaves x w) =
        muted-Life big_to_native start s (make_new_lobby s) d x x w w.at
          (record { gone = w.gone; unsent = refl })
    grown (sits l x o w heard) =
        sits l x o
          (record {
            lobby = w.lobby;
            at = get_elem?-before s.lobbies fresh l w.at;
            watches = w.watches;
            alone = λ k y n v. elim (get_elem?-append s.lobbies fresh k v) [
              | inl old ↦ w.alone k y n old
              | inr same ↦ unheard same
            ];
            has_id = w.has_id;
          })
          heard
