-- ===== src/Client/Heard.antt =====
-- What a client has read since it connected.
use connectdisks.Prelude.{ℕ, sym, subst, true, false, Option, List, [], ◌∷◌, ◌++◌}
use mathlib.Core.List.{append-nil, append_assoc}
use connectdisks.Messaging.{Message, message, connected}
use connectdisks.Game.{FourAcross}
use connectdisks.Connection.{Connection}
use connectdisks.Client.{Client}
use connectdisks.Client.Fairness.{AreFair}
use connectdisks.Client.Receiving.{Listens, Listens-Holds, Holds-Listens, receive-connected}
use connectdisks.Client.Stages.{Reads, Reads-nil, Reads-cons, Stage, Understands}
use connectdisks.Client.Learning.{Learns}
use connectdisks.Client.Fairness.{AreFair-append}

module _ (big_to_native : List ℕ → ℕ) (start : Client) where
  -- The client that starts as `start` reads the messages, has then the id and the game, and reads on.
  abbrev pub Knows : List Message → ℕ → Option FourAcross → Type 0
  Knows ms id o =
      (rest : List Message) (id' : ℕ) (o' : Option FourAcross)
      → ((c : Client) → Listens id o c → Reads big_to_native rest c id' o')
      → Reads big_to_native (ms ++ rest) start id' o'

  pub Knows-nil : (id : ℕ) (o : Option FourAcross) → Listens id o start → Knows [] id o
  Knows-nil id o h rest id' o' next = next start h

  pub Knows-then :
      (ms ns : List Message) (id : ℕ) (o o' : Option FourAcross)
      → Knows ms id o
      → Understands big_to_native id ns o o'
      → Knows (ms ++ ns) id o'
  Knows-then ms ns id o o' knows understood rest id' o'' next =
      rw (append_assoc ms ns rest)
        (knows (ns ++ rest) id' o'' (λ c h. understood c h rest id' o'' next))

  -- The client is told its id.
  pub Knows-connected :
      (ms : List Message) (id n : ℕ) (o : Option FourAcross)
      → Knows ms id o
      → Knows (ms ++ message connected (n ∷ []) ∷ []) n o
  Knows-connected ms id n o knows rest id' o'' next =
      rw (append_assoc ms (message connected (n ∷ []) ∷ []) rest)
        (knows (message connected (n ∷ []) ∷ rest) id' o'' told)
    where
      told :
          (c : Client)
          → Listens id o c
          → Reads big_to_native (message connected (n ∷ []) ∷ rest) c id' o''
      told c h =
          let (c', ns, e, h') =
            receive-connected big_to_native id n o (record c { reading = false })
              (Listens-Holds id o c h) in
          Reads-cons big_to_native (message connected (n ∷ [])) rest c c' ns id' o'' h.reading e
            h'.socket (next (record c' { reading = true }) (Holds-Listens n o c' h'))

  pub Knows-Reads :
      (ms : List Message) (id : ℕ) (o : Option FourAcross)
      → Knows ms id o
      → Reads big_to_native ms start id o
  Knows-Reads ms id o knows =
      subst (λ ms. Reads big_to_native ms start id o) (append-nil ms)
        (knows [] id o (λ c h. Reads-nil big_to_native c id o h))

  -- The client has read all that its connection `x` has sent.
  pub record Heard (x : Connection) (o : Option FourAcross) : Type 0 where
    pub knows : Knows x.sent x.id o
    pub fair : AreFair x.sent

  pub Heard-then :
      {x : Connection} {o : Option FourAcross} {P : Connection → Option FourAcross → Type 0}
      → Heard x o
      → (t : Learns big_to_native x o P) → Heard t.x' t.o'
  Heard-then {x} {o} h t = record {
    knows =
        subst (λ id. Knows t.x'.sent id t.o') (sym t.same_id)
          (subst (λ ms. Knows ms x.id t.o') (sym t.sent)
            (Knows-then x.sent t.ms x.id o t.o' h.knows t.understood));
    fair = subst AreFair (sym t.sent) (AreFair-append h.fair t.fair);
  }

  pub Heard-Stage :
      {x : Connection} {o o' : Option FourAcross} (f : Connection → Connection)
      → Heard x o
      → Stage big_to_native f x o o'
      → Heard (f x) o'
  Heard-Stage {x} {o} {o'} f h s = record {
    knows =
        subst (λ id. Knows (f x).sent id o') (sym s.same_id)
          (subst (λ ms. Knows ms x.id o') (sym s.sent)
            (Knows-then x.sent s.ms x.id o o' h.knows s.understood));
    fair = subst AreFair (sym s.sent) (AreFair-append h.fair s.fair);
  }
