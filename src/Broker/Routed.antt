-- ===== src/Broker/Routed.antt =====
-- What NewEmbeddingPublisher of internal/infra/rabbimq/embeddingPublisher.go has declared, and where
-- the dead letters of its queues go.
use Prim.Native.String.{◌++◌ as append}
use synthy.Prelude.{
  String, ℕ, zero, suc, ◌≡◌, refl, List, [], ◌∷◌, ◌++◌, take, Member, inl, inr, none, some, ◌⊎◌,
}
use synthy.Exec.{ok, Error, err}
use synthy.Broker.{
  DeadLetter, Declaration, Connection, exchange, queue, binding, prefetch, consumer,
  declare_queue_with_dlx, new_embedding_publisher, embedding_queue_name, summary_queue_name,
  embedding_exchange, embedding_dlx_exchange,
}
use synthy.Broker.Declares.{
  Declares, Declares-wrapping, Declares-bind, open_channel-Declares, declare-Declares,
}

-- a queue and its error queue
abbrev queue_topology : String → String → List Declaration
queue_topology name dlx =
    queue (append name "_error") none
    ∷ binding (append name "_error") (append name "_failed") dlx
    ∷ queue name (some (record { exchange = dlx; routing_key = append name "_failed" }))
    ∷ binding name "" embedding_exchange
    ∷ []

abbrev topology : List Declaration
topology =
    exchange embedding_exchange "fanout"
      ∷ exchange embedding_dlx_exchange "direct"
      ∷ queue_topology embedding_queue_name embedding_dlx_exchange
    ++ queue_topology summary_queue_name embedding_dlx_exchange

module _ (conn : Connection) where
  declare_queue_with_dlx-Declares :
      (name dlx : String)
      → Declares (queue_topology name dlx) (declare_queue_with_dlx conn name dlx)
  unfolding declare_queue_with_dlx
  declare_queue_with_dlx-Declares name dlx =
      Declares-bind (_ ∷ []) _ _ _ (Declares-wrapping _ _ _ (declare-Declares conn _)) (
        Declares-bind (_ ∷ []) _ _ _ (Declares-wrapping _ _ _ (declare-Declares conn _)) (
          Declares-bind (_ ∷ []) _ _ _ (Declares-wrapping _ _ _ (declare-Declares conn _))
            (Declares-wrapping _ _ _ (declare-Declares conn _))))

  new_embedding_publisher-Declares : Declares topology (new_embedding_publisher conn)
  unfolding new_embedding_publisher
  new_embedding_publisher-Declares = Declares-bind [] topology _ _ (open_channel-Declares conn) (
      Declares-bind (_ ∷ []) _ _ _ (Declares-wrapping _ _ _ (declare-Declares conn _)) (
        Declares-bind (_ ∷ []) _ _ _ (Declares-wrapping _ _ _ (declare-Declares conn _)) (
          Declares-bind (queue_topology embedding_queue_name embedding_dlx_exchange) _ _ _
            (Declares-wrapping _ _ _ (declare_queue_with_dlx-Declares _ _))
            (Declares-wrapping _ _ _ (declare_queue_with_dlx-Declares _ _)))))

-- Nothing is bound before it is declared, nor named as an exchange for dead letters: given the
-- exchanges and the queues that there are.
abbrev pub InOrder : List String → List String → List Declaration → Type 0
InOrder exchanges queues [] = Unit
InOrder exchanges queues (exchange x kind ∷ ds) = InOrder (x ∷ exchanges) queues ds
InOrder exchanges queues (queue q none ∷ ds) = InOrder exchanges (q ∷ queues) ds
InOrder exchanges queues (queue q (some dl) ∷ ds) =
    Member dl.exchange exchanges × InOrder exchanges (q ∷ queues) ds
InOrder exchanges queues (binding q key x ∷ ds) =
    Member q queues × Member x exchanges × InOrder exchanges queues ds
InOrder exchanges queues (prefetch n ∷ ds) = InOrder exchanges queues ds
InOrder exchanges queues (consumer q ∷ ds) = Member q queues × InOrder exchanges queues ds

InOrder-take :
    (n : ℕ) (exchanges queues : List String) (ds : List Declaration)
    → InOrder exchanges queues ds
    → InOrder exchanges queues (take n ds)
InOrder-take zero exchanges queues ds o = tt
InOrder-take (suc n) exchanges queues [] o = tt
InOrder-take (suc n) exchanges queues (exchange x kind ∷ ds) o =
    InOrder-take n (x ∷ exchanges) queues ds o
InOrder-take (suc n) exchanges queues (queue q none ∷ ds) o =
    InOrder-take n exchanges (q ∷ queues) ds o
InOrder-take (suc n) exchanges queues (queue q (some dl) ∷ ds) o =
    (o.0, InOrder-take n exchanges (q ∷ queues) ds o.1)
InOrder-take (suc n) exchanges queues (binding q key x ∷ ds) o =
    (o.0, o.1, InOrder-take n exchanges queues ds o.2)
InOrder-take (suc n) exchanges queues (prefetch m ∷ ds) o = InOrder-take n exchanges queues ds o
InOrder-take (suc n) exchanges queues (consumer q ∷ ds) o =
    (o.0, InOrder-take n exchanges queues ds o.1)

-- The queue gets every chunk that is published, and what it rejects goes through a direct exchange to
-- its error queue, which has no dead letters of its own.
abbrev pub Parks : String → List Declaration → Type 0
Parks name ds =
    Member (binding name "" embedding_exchange) ds
    × Member (exchange embedding_exchange "fanout") ds
    × ((dl : DeadLetter) × Member (queue name (some dl)) ds
        × Member (exchange dl.exchange "direct") ds
        × Member (binding (append name "_error") dl.routing_key dl.exchange) ds
        × Member (queue (append name "_error") none) ds)

topology-InOrder : InOrder [] [] topology
topology-InOrder = (
  inl refl,
  inl refl,
  (
    inl refl,
    (inl refl, inr (inl refl), (inl refl, inl refl, (inl refl, (inl refl, inr (inl refl), tt)))),
  ),
)

topology-Parks : Parks embedding_queue_name topology × Parks summary_queue_name topology
topology-Parks = (
  (
    inr (inr (inr (inr (inr (inl refl))))),
    inl refl,
    (
      record { exchange = embedding_dlx_exchange; routing_key = "embedding_queue_failed" },
      inr (inr (inr (inr (inl refl)))),
      inr (inl refl),
      inr (inr (inr (inl refl))),
      inr (inr (inl refl)),
    ),
  ),
  (
    inr (inr (inr (inr (inr (inr (inr (inr (inr (inl refl))))))))),
    inl refl,
    (
      record { exchange = embedding_dlx_exchange; routing_key = "summary_queue_failed" },
      inr (inr (inr (inr (inr (inr (inr (inr (inl refl)))))))),
      inr (inl refl),
      inr (inr (inr (inr (inr (inr (inr (inl refl))))))),
      inr (inr (inr (inr (inr (inr (inl refl)))))),
    ),
  ),
)

-- Whatever call fails, the publisher of chunks has added declarations in which nothing is bound, or
-- named for dead letters, before it is declared. It fails, or both chunk queues get every chunk that
-- is published, and a chunk that one of them rejects goes to the error queue of its name.
pub new_embedding_publisher-Parks :
    (conn : Connection) (done : List Declaration)
    → (added : List Declaration) × ((new_embedding_publisher conn done).1 ≡ done ++ added)
      × InOrder [] [] added
      × ((((new_embedding_publisher conn done).0 ≡ ok tt)
            × Parks embedding_queue_name added
            × Parks summary_queue_name added)
          ⊎ ((e : Error) × ((new_embedding_publisher conn done).0 ≡ err e)))
new_embedding_publisher-Parks conn done = elim ((new_embedding_publisher-Declares conn).at done) [
  | inl (fine, all) ↦
      let (embeddings, summaries) = topology-Parks in
      (topology, all, topology-InOrder, inl (fine, embeddings, summaries))
  | inr (n, e, bad, part) ↦
      (take n topology, part, InOrder-take n [] [] topology (topology-InOrder), inr (e, bad))
]
