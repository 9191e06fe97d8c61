-- ===== src/Server/Timer.antt =====
-- `updateQueuePositions` of server/src/server.cpp.
use connectdisks.Prelude.{
  ℕ, ◌≡◌, ◌∙◌, refl, Bool, true, false, List, arith, length, ltb, leb, ◌&&◌, ◌||◌, ◌-◌,
  if◌then◌else◌,
}
use connectdisks.Connection.{Connection}
use connectdisks.Lobby.{id_of}
use connectdisks.Server.{Server, update_queue_positions, notify_all, remove_if_gone}
use connectdisks.Server.Queue.{
  IsQueue-change, remove_if_gone-IsQueue, length-remove_if_gone, id_of-notify_all,
  length-notify_all, Kept-all, Inv-Kept,
}
use connectdisks.Server.Serving.{IsServing}

module _ (s : Server) (i : IsServing s) where
  -- The queue without those who are gone, after some of them were told their positions or not.
  updated :
      (conns' : List Connection) (size : ℕ)
      → length conns' ≡ length s.conns
      → ((d : ℕ) → id_of conns' d ≡ id_of s.conns d)
      → IsServing (record s {
        conns = conns';
        player_queue = remove_if_gone s.conns s.player_queue;
        last_queue_size = size;
        timer_is_set = true;
      })
  updated conns' size count ids = record {
    few = i.few;
    lobbies = λ l x at.
        let (inv, two) = i.lobbies l x at in
        (Inv-Kept s.conns conns' x (Kept-all s.conns conns' count ids) inv, two);
    in_order =
        IsQueue-change s.conns conns' 0 (remove_if_gone s.conns s.player_queue)
          (omega (arith, count)) (λ d _ _ n. ids d ∙ n)
          (remove_if_gone-IsQueue s.conns s.conns 0 s.player_queue i.in_order);
    needed = λ w. i.needed (omega (arith, w, length-remove_if_gone s.conns s.player_queue));
  }

module _ (native_to_big : ℕ → List ℕ) where
  pub update_queue_positions-IsServing :
      (s : Server) → IsServing s → IsServing (update_queue_positions native_to_big s)
  unfolding update_queue_positions
  update_queue_positions-IsServing s i = updates (
      ltb 0 (length queue)
      && (ltb (length queue) 10
          || leb 10 (
              if ltb s.last_queue_size (length queue)
              then length queue - s.last_queue_size
              else s.last_queue_size - length queue)))
    where
      queue : List ℕ
      queue = remove_if_gone s.conns s.player_queue

      updates :
          (b : Bool)
          → IsServing (record s {
            conns = if b then notify_all native_to_big 1 queue s.conns else s.conns;
            player_queue = queue;
            last_queue_size = length queue;
            timer_is_set = true;
          })
      updates true =
          updated s i (notify_all native_to_big 1 queue s.conns) (length queue)
            (length-notify_all native_to_big 1 queue s.conns)
            (λ d. id_of-notify_all native_to_big 1 queue s.conns d)
      updates false = updated s i s.conns (length queue) refl (λ d. refl)
