-- ===== src/Client/Queueing.antt =====
-- A connection that waits in the queue of server/src/server.cpp is told its position, and others are.
use connectdisks.Prelude.{
  ℕ, suc, ◌+◌, ◌<◌, ◌≡◌, ◌≢◌, ◌∙◌, refl, ap, subst, inl, inr, Bool, true, false, Option, some, none,
  List, [], ◌∷◌, ◌++◌, arith, get_elem?, length, modify, Bool-cases, ◌==◌, ==→eq, ==→ne,
  if◌then◌else◌,
}
use connectdisks.Game.{FourAcross}
use connectdisks.Connection.{Connection, send_message}
use connectdisks.Lobby.{id_of}
use connectdisks.Lobby.Silence.{Mutes, Silent, Silent-refl, Silent-then, Silent-modify}
use connectdisks.Lobby.Messages.{get_elem?-modify_ne, get_elem?-modify_self}
use connectdisks.Server.{
  Server, add_to_queue, update_queue_positions, notify_all, notify_queue_position, remove_if_gone,
}
use connectdisks.Server.Queue.{IsQueue, empty, ahead, remove_if_gone-IsQueue}
use connectdisks.Server.Serving.{IsServing}
use connectdisks.Client.{Client}
use connectdisks.Client.Signals.{notify_queue_position-Stage}
use connectdisks.Client.Learning.{Learns, Learns-none, Learns-after, Learns-Stage}
use connectdisks.Client.Heard.{Heard, Heard-then}
use connectdisks.Client.Seen.{another}
use connectdisks.Client.Life.{
  Waits, Life, comes, waits, sits, leaves, silent-Life, moved-Life, moved-Outside, get_elem?-none,
}

notify_queue_position-Mutes :
    (native_to_big : ℕ → List ℕ) (n : ℕ) → Mutes (notify_queue_position native_to_big n)
unfolding notify_queue_position send_message
notify_queue_position-Mutes native_to_big n x gone = record {
  gone = grind (arith, gone);
  unsent = grind (arith, gone);
}

module _ (native_to_big : ℕ → List ℕ) (big_to_native : List ℕ → ℕ) (d : ℕ) where
  -- Those who wait have no id, so a connection that is none of them is not told.
  get_elem?-notify_all :
      (ids conns : List Connection) (lo n : ℕ) (queue : List ℕ)
      → ((c : ℕ) → c < length ids → id_of ids c ≡ 0 → c ≢ d)
      → IsQueue ids lo queue
      → get_elem? (notify_all native_to_big n queue conns) d ≡ get_elem? conns d
  unfolding notify_all
  get_elem?-notify_all ids conns lo n [] other empty = refl
  get_elem?-notify_all ids conns lo n (c ∷ cs) other (ahead low known new rest) =
      get_elem?-notify_all ids (modify conns c (notify_queue_position native_to_big n)) (suc c)
        (n + 1) cs other rest
      ∙ get_elem?-modify_ne (notify_queue_position native_to_big n) conns c d (other c known new)

  notify_all-Silent :
      (n : ℕ) (queue : List ℕ) (conns : List Connection)
      → Silent conns (notify_all native_to_big n queue conns)
  unfolding notify_all
  notify_all-Silent n [] conns = Silent-refl conns
  notify_all-Silent n (c ∷ cs) conns =
      let told = modify conns c (notify_queue_position native_to_big n) in
      Silent-then conns told (notify_all native_to_big (n + 1) cs told)
        (Silent-modify (notify_queue_position native_to_big n) conns c
          (notify_queue_position-Mutes native_to_big n))
        (notify_all-Silent (n + 1) cs told)

  -- What else is true of a connection that has been told positions.
  abbrev Told : List Connection → Option FourAcross → Connection → Option FourAcross → Type 0
  Told conns o x' o' = (get_elem? conns d ≡ some x') × (o' ≡ o) × (x'.client_is_connected ≡ true)

  notify_all-Learns :
      (n : ℕ) (queue : List ℕ) (conns : List Connection) (x : Connection) (o : Option FourAcross)
      → get_elem? conns d ≡ some x
      → x.client_is_connected ≡ true
      → Learns big_to_native x o (Told (notify_all native_to_big n queue conns) o)
  unfolding notify_all
  notify_all-Learns n [] conns x o at here = Learns-none big_to_native here (at, refl, here)
  notify_all-Learns n (c ∷ cs) conns x o at here =
      let f = notify_queue_position native_to_big n in
      elim (Bool-cases (c == d)) [
        | inl same ↦
            let stage = notify_queue_position-Stage big_to_native x here native_to_big n o in
            let at' : get_elem? (modify conns c f) d ≡ some (f x) =
              rw (==→eq c d same) (get_elem?-modify_self f conns d at) in
            Learns-after big_to_native f stage
              (notify_all-Learns (n + 1) cs (modify conns c f) (f x) o at' stage.here)
        | inr other ↦
            notify_all-Learns (n + 1) cs (modify conns c f) x o
              (get_elem?-modify_ne f conns c d (==→ne c d other) ∙ at) here
      ]

module _ (native_to_big : ℕ → List ℕ) (big_to_native : List ℕ → ℕ) (start : Client) (s : Server)
    (d : ℕ) where
  -- A connection that waits has been told something that leaves its client where it is.
  told-Life :
      (s' : Server) (x : Connection)
      → Waits big_to_native start s d x
      → s'.lobbies ≡ s.lobbies
      → Learns big_to_native x none (Told native_to_big big_to_native d s'.conns none)
      → Life big_to_native start s' d
  told-Life s' x w e t =
      let (at, no_game, here) = t.after in
      waits t.x' (record {
        outside = moved-Outside s s' d (some x) (some t.x') w.outside at e;
        no_id = t.same_id ∙ w.no_id;
        here = here;
        heard =
            subst (Heard big_to_native start t.x') no_game
              (Heard-then big_to_native start w.heard t);
      })

  pub update_queue_positions-Life :
      IsServing s
      → Life big_to_native start s d
      → Life big_to_native start (update_queue_positions native_to_big s) d
  unfolding update_queue_positions
  update_queue_positions-Life i life = updated life _
    where
      queue : List ℕ
      queue = remove_if_gone s.conns s.player_queue

      in_order : IsQueue s.conns 0 queue
      in_order = remove_if_gone-IsQueue s.conns s.conns 0 s.player_queue i.in_order

      after_timer : Bool → Server
      after_timer b = record s {
        conns = if b then notify_all native_to_big 1 queue s.conns else s.conns;
        player_queue = queue;
        last_queue_size = length queue;
        timer_is_set = true;
      }

      untold :
          (b : Bool)
          → ((c : ℕ) → c < length s.conns → id_of s.conns c ≡ 0 → c ≢ d)
          → Life big_to_native start s d
          → Life big_to_native start (after_timer b) d
      untold true other l =
          moved-Life big_to_native start s (after_timer true) d l
            (get_elem?-notify_all native_to_big big_to_native d s.conns s.conns 0 1 queue other
              in_order)
            refl
      untold false other l = moved-Life big_to_native start s (after_timer false) d l refl refl

      updated :
          Life big_to_native start s d → (b : Bool) → Life big_to_native start (after_timer b) d
      updated (comes w) b =
          untold b (λ c h n e. absurd (omega (arith, h, e, get_elem?-none s.conns d w.at)))
            (comes w)
      updated (sits l x o w heard) b =
          untold b (λ c h n. another s l d x o w c n) (sits l x o w heard)
      updated (waits x w) true = told-Life (after_timer true) x w refl (
          notify_all-Learns native_to_big big_to_native d 1 queue s.conns x none w.outside.at
            w.here)
      updated (leaves x w) true =
          silent-Life big_to_native start s (after_timer true) d x w
            (notify_all-Silent native_to_big big_to_native d 1 queue s.conns)
      updated (leaves x w) false =
          silent-Life big_to_native start s (after_timer false) d x w (Silent-refl s.conns)
      updated (waits x w) false =
          moved-Life big_to_native start s (after_timer false) d (waits x w) refl refl

  -- The connection `c`, which has no id yet, is put last.
  pub add_to_queue-Life :
      (c : ℕ)
      → c < length s.conns
      → id_of s.conns c ≡ 0
      → Life big_to_native start s d
      → Life big_to_native start (add_to_queue native_to_big c s) d
  unfolding add_to_queue
  add_to_queue-Life c known new life = queued life
    where
      f : Connection → Connection
      f = notify_queue_position native_to_big (length (s.player_queue ++ c ∷ []))

      other : c ≢ d → Life big_to_native start (add_to_queue native_to_big c s) d
      other n =
          moved-Life big_to_native start s (add_to_queue native_to_big c s) d life
            (get_elem?-modify_ne f s.conns c d n) refl

      queued :
          Life big_to_native start s d → Life big_to_native start (add_to_queue native_to_big c s) d
      queued (comes w) =
          other (λ e. absurd (omega (arith, known, e, get_elem?-none s.conns d w.at)))
      queued (sits l x o w heard) = other (another s l d x o w c new)
      queued (leaves x w) =
          silent-Life big_to_native start s (add_to_queue native_to_big c s) d x w (
            Silent-modify f s.conns c
              (notify_queue_position-Mutes native_to_big (length (s.player_queue ++ c ∷ []))))
      queued (waits x w) = elim (Bool-cases (c == d)) [
        | inr n ↦ other (==→ne c d n)
        | inl same ↦
            let stage =
              notify_queue_position-Stage big_to_native x w.here native_to_big
                (length (s.player_queue ++ c ∷ [])) none in
            let at : get_elem? (modify s.conns c f) d ≡ some (f x) =
              ap (λ e. get_elem? (modify s.conns e f) d) (==→eq c d same)
              ∙ get_elem?-modify_self f s.conns d w.outside.at in
            told-Life (add_to_queue native_to_big c s) x w refl
              (Learns-Stage big_to_native f stage (at, refl, stage.here))
      ]
