-- ===== src/Client/Stages.antt =====
-- What a connection sends when a signal of its lobby is called, and what its client makes of it.
use connectdisks.Prelude.{
  ℕ, ◌≡◌, ◌∙◌, refl, ap, subst, true, false, Option, List, [], ◌∷◌, ◌++◌, ok,
}
use mathlib.Core.List.{append-nil, append_assoc}
use connectdisks.Messaging.{Message}
use connectdisks.Game.{FourAcross}
use connectdisks.Connection.{Connection}
use connectdisks.Client.{Client, Notice, read_all, handle_read, receive, wait_for_messages}
use connectdisks.Client.Fairness.{AreFair, AreFair-append}
use connectdisks.Client.Receiving.{Listens, Listens-Holds, Holds-Listens, Hears}

module _ (big_to_native : List ℕ → ℕ) where
  read_all-nil : (c : Client) → read_all big_to_native [] c ≡ ok (c, [], [])
  unfolding read_all
  read_all-nil c = refl

  -- The client reads the messages, and then has the id and the game.
  pub record Reads (ms : List Message) (c : Client) (id : ℕ) (game : Option FourAcross)
      : Type 0 where
    pub after : Client
    pub notices : List Notice
    pub reads : read_all big_to_native ms c ≡ ok (after, notices, [])
    pub holds : Listens id game after

  pub Reads-nil : (c : Client) (id : ℕ) (o : Option FourAcross) → Listens id o c → Reads [] c id o
  Reads-nil c id o h = record { after = c; notices = []; reads = read_all-nil c; holds = h }

  waits : (c : Client) → c.has_socket ≡ true → wait_for_messages c ≡ record c { reading = true }
  unfolding wait_for_messages
  waits c socket = rw socket

  pub Reads-cons :
      (m : Message) (ms : List Message) (c c' : Client) (ns : List Notice) (id : ℕ)
      (o : Option FourAcross)
      → c.reading ≡ true
      → receive big_to_native m (record c { reading = false }) ≡ ok (c', ns)
      → c'.has_socket ≡ true
      → Reads ms (record c' { reading = true }) id o
      → Reads (m ∷ ms) c id o
  unfolding read_all handle_read
  Reads-cons m ms c c' ns id o reading e socket later = record {
    after = later.after;
    notices = ns ++ later.notices;
    reads = rw (reading, e, waits c' socket, later.reads);
    holds = later.holds;
  }

  -- Whoever has the game `o` and reads the messages then has the game `o'`, and reads on.
  abbrev pub Understands : ℕ → List Message → Option FourAcross → Option FourAcross → Type 0
  Understands id ms o o' =
      (c : Client)
      → Listens id o c
      → (rest : List Message) (id' : ℕ) (o'' : Option FourAcross)
      → ((c' : Client) → Listens id o' c' → Reads rest c' id' o'')
      → Reads (ms ++ rest) c id' o''

  pub Understands-nil : (id : ℕ) (o : Option FourAcross) → Understands id [] o o
  Understands-nil id o c h rest id' o'' k = k c h

  pub Understands-one :
      (id : ℕ) (m : Message) (o o' : Option FourAcross)
      → Hears big_to_native id m o o'
      → Understands id (m ∷ []) o o'
  Understands-one id m o o' one c h rest id' o'' k =
      let (c', ns, e, h') = one (record c { reading = false }) (Listens-Holds id o c h) in
      Reads-cons m rest c c' ns id' o'' h.reading e h'.socket
        (k (record c' { reading = true }) (Holds-Listens id o' c' h'))

  pub Understands-then :
      (id : ℕ) (ms ns : List Message) (o o' o'' : Option FourAcross)
      → Understands id ms o o'
      → Understands id ns o' o''
      → Understands id (ms ++ ns) o o''
  Understands-then id ms ns o o' o'' first second c holds rest id' p next =
      rw (append_assoc ms ns rest)
        (first c holds (ns ++ rest) id' p (λ c' holds'. second c' holds' rest id' p next))

  pub Understands-Reads :
      (id : ℕ) (ms : List Message) (o o' : Option FourAcross)
      → Understands id ms o o'
      → (c : Client) → Listens id o c
      → Reads ms c id o'
  Understands-Reads id ms o o' understood c holds =
      subst (λ ms. Reads ms c id o') (append-nil ms)
        (understood c holds [] id o' (λ c' holds'. Reads-nil c' id o' holds'))

  -- A signal's handler sends messages to the client of `x`, who understands them.
  pub record Stage (handler : Connection → Connection) (x : Connection) (o o' : Option FourAcross)
      : Type 0 where
    pub ms : List Message
    pub sent : (handler x).sent ≡ x.sent ++ ms
    pub same_id : (handler x).id ≡ x.id
    pub here : (handler x).client_is_connected ≡ true
    pub understood : Understands x.id ms o o'
    pub fair : AreFair ms

  pub Stage-then :
      (h k : Connection → Connection) (x : Connection) (o o' o'' : Option FourAcross)
      → Stage h x o o'
      → Stage k (h x) o' o''
      → Stage (λ y. k (h y)) x o o''
  Stage-then h k x o o' o'' s t = record {
    ms = s.ms ++ t.ms;
    sent = t.sent ∙ ap (λ sent. sent ++ t.ms) s.sent ∙ append_assoc x.sent s.ms t.ms;
    same_id = t.same_id ∙ s.same_id;
    here = t.here;
    understood =
        Understands-then x.id s.ms t.ms o o' o'' s.understood
          (subst (λ id. Understands id t.ms o' o'') s.same_id t.understood);
    fair = AreFair-append s.fair t.fair;
  }
