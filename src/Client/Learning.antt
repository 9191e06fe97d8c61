-- ===== src/Client/Learning.antt =====
-- What a client learns from what its connection sends.
use connectdisks.Prelude.{◌≡◌, ◌∙◌, ap, subst, true, Option, List, ℕ, ◌++◌}
use mathlib.Core.List.{append_assoc}
use connectdisks.Messaging.{Message}
use connectdisks.Game.{FourAcross}
use connectdisks.Connection.{Connection}
use connectdisks.Client.Fairness.{AreFair, AreFair-append}
use connectdisks.Client.Stages.{Stage, Understands, Understands-then}
use connectdisks.Client.Signals.{same-Stage}

module _ (big_to_native : List ℕ → ℕ) where
  -- The connection `x` has sent more messages, after which it is `x'`, and its client's game is `o'`
  -- once they are read. The predicate says what else holds of the two.
  pub record Learns (x : Connection) (o : Option FourAcross)
      (P : Connection → Option FourAcross → Type 0) : Type 0 where
    pub x' : Connection
    pub o' : Option FourAcross
    pub ms : List Message
    pub sent : x'.sent ≡ x.sent ++ ms
    pub same_id : x'.id ≡ x.id
    pub understood : Understands big_to_native x.id ms o o'
    pub fair : AreFair ms
    pub after : P x' o'

  pub Learns-map :
      {x : Connection} {o : Option FourAcross} {P Q : Connection → Option FourAcross → Type 0}
      → Learns x o P
      → ((y : Connection) (p : Option FourAcross) → y.id ≡ x.id → P y p → Q y p)
      → Learns x o Q
  Learns-map t f = record {
    x' = t.x';
    o' = t.o';
    ms = t.ms;
    sent = t.sent;
    same_id = t.same_id;
    understood = t.understood;
    fair = t.fair;
    after = f t.x' t.o' t.same_id t.after;
  }

  pub Learns-then :
      {x : Connection} {o : Option FourAcross} {P Q : Connection → Option FourAcross → Type 0}
      (t : Learns x o P)
      → Learns t.x' t.o' Q
      → Learns x o Q
  Learns-then {x} {o} t u = record {
    x' = u.x';
    o' = u.o';
    ms = t.ms ++ u.ms;
    sent = u.sent ∙ ap (λ sent. sent ++ u.ms) t.sent ∙ append_assoc x.sent t.ms u.ms;
    same_id = u.same_id ∙ t.same_id;
    understood =
        Understands-then big_to_native x.id t.ms u.ms o t.o' u.o' t.understood
          (subst (λ id. Understands big_to_native id u.ms t.o' u.o') t.same_id u.understood);
    fair = AreFair-append t.fair u.fair;
    after = u.after;
  }

  pub Learns-none :
      {x : Connection} {o : Option FourAcross} {P : Connection → Option FourAcross → Type 0}
      → x.client_is_connected ≡ true
      → P x o
      → Learns x o P
  Learns-none {x} {o} here p =
      let s = same-Stage big_to_native x here o in
      record {
        x' = x;
        o' = o;
        ms = s.ms;
        sent = s.sent;
        same_id = s.same_id;
        understood = s.understood;
        fair = s.fair;
        after = p;
      }

  pub Learns-Stage :
      {x : Connection} {o o' : Option FourAcross} {P : Connection → Option FourAcross → Type 0}
      (f : Connection → Connection)
      → Stage big_to_native f x o o'
      → P (f x) o'
      → Learns x o P
  Learns-Stage {x} {o} {o'} f s p = record {
    x' = f x;
    o' = o';
    ms = s.ms;
    sent = s.sent;
    same_id = s.same_id;
    understood = s.understood;
    fair = s.fair;
    after = p;
  }

  pub Learns-after :
      {x : Connection} {o o' : Option FourAcross} {Q : Connection → Option FourAcross → Type 0}
      (f : Connection → Connection)
      → Stage big_to_native f x o o'
      → Learns (f x) o' Q
      → Learns x o Q
  unfolding Learns-Stage
  Learns-after {Q} f s t = Learns-then (Learns-Stage {P = λ y p. Unit} f s tt) t
