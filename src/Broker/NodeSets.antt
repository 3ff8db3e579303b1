-- ===== src/Broker/NodeSets.antt =====
-- The sets of discovered nodes (dtn/broker.py).
use ma_sinafadavi_gpt.Base.{
  ℕ, ◌≡◌, ◌∙◌, refl, inl, inr, Bool-cases, true, false, ◌||◌, some, List, [], ◌∷◌, ◌++◌,
  text_eq_iff, text_eq_refl, Result, ok, err, arith, ◌==◌, if◌then◌else◌,
}
use ma_sinafadavi_gpt.Eid.{Endpoint, same, text_of}
use ma_sinafadavi_gpt.Wire.{Codec}
use ma_sinafadavi_gpt.Bundles.{BundleData, is_discovery, between}
use ma_sinafadavi_gpt.Bundles.BundleType
use ma_sinafadavi_gpt.Bundles.NodeType
use ma_sinafadavi_gpt.Broker.{
  Broker, Discovered, knows, add, nodes_of, discover, on_announce, acknowledge, handle_discovery,
  handle_bundle,
}

same_sound : (a b : Endpoint) → same a b ≡ true → text_of a ≡ text_of b
unfolding same
same_sound a b h = (text_eq_iff (text_of a) (text_of b)).0 h

same_refl : (a : Endpoint) → same a a ≡ true
unfolding same
same_refl a = text_eq_refl (text_of a)

knows-append :
    (e n : Endpoint) (nodes : List Endpoint) → knows e (nodes ++ n ∷ []) ≡ knows e nodes || same n e
unfolding knows
knows-append e n [] = ground arith
knows-append e n (m ∷ nodes) = ground (arith, knows-append e n nodes)

same_trans : (a b c : Endpoint) → same a b ≡ true → same a c ≡ same b c
unfolding same
same_trans a b c h = rw (same_sound a b h)

same_comm : (a b : Endpoint) → same a b ≡ same b a
unfolding same
same_comm a b =
    ground (arith, text_eq_iff (text_of a) (text_of b), text_eq_iff (text_of b) (text_of a))

knows-same :
    (a b : Endpoint) (nodes : List Endpoint) → same a b ≡ true → knows a nodes ≡ knows b nodes
unfolding knows same
knows-same a b [] h = refl
knows-same a b (n ∷ nodes) h = rw (same_sound a b h, knows-same a b nodes h)

-- Adding a node makes it known, and changes nothing for the nodes with other texts.
pub knows-add :
    (n e : Endpoint) (nodes : List Endpoint) → knows e (add n nodes) ≡ knows e nodes || same n e
unfolding add
knows-add n e nodes = elim (Bool-cases (knows n nodes)) [
  | inl old ↦ rw old (elim (Bool-cases (same n e)) [
    | inl eq ↦ ground (arith, knows-same n e nodes eq)
    | inr differ ↦ ground arith
  ])
  | inr new ↦ rw new (knows-append e n nodes)
]

-- No node is in the list twice.
abbrev pub Distinct : List Endpoint → Type 0
Distinct [] = Unit
Distinct (n ∷ nodes) = (knows n nodes ≡ false) × Distinct nodes

Distinct-append :
    (n : Endpoint) (nodes : List Endpoint)
    → Distinct nodes
    → knows n nodes ≡ false
    → Distinct (nodes ++ n ∷ [])
unfolding knows
Distinct-append n [] d fresh = (refl, tt)
Distinct-append n (m ∷ nodes) (new, d) fresh = (
  ground (arith, knows-append m n nodes, same_comm n m),
  Distinct-append n nodes d (ground arith),
)

add-Distinct : (n : Endpoint) (nodes : List Endpoint) → Distinct nodes → Distinct (add n nodes)
unfolding add
add-Distinct n nodes d = elim (Bool-cases (knows n nodes)) [
  | inl old ↦ rw old d
  | inr new ↦ rw new (Distinct-append n nodes d new)
]

pub record AllDistinct (d : Discovered) : Type 0 where
  pub in_brokers : Distinct d.brokers
  pub in_clients : Distinct d.clients
  pub in_executors : Distinct d.executors
  pub in_datastores : Distinct d.datastores

-- Registering a node under one type adds it to the nodes of that type, and leaves those of every
-- other type as they are.
pub nodes_of-discover :
    (type t : ℕ) (e : Endpoint) (d d' : Discovered) (nodes : List Endpoint)
    → discover type e d ≡ ok d'
    → nodes_of t d ≡ some nodes
    → nodes_of t d' ≡ some (if t == type then add e nodes else nodes)
unfolding discover nodes_of
nodes_of-discover type t e d d' nodes h k = ground arith

discover-AllDistinct :
    (type : ℕ) (e : Endpoint) (d d' : Discovered)
    → AllDistinct d
    → discover type e d ≡ ok d'
    → AllDistinct d'
unfolding discover
discover-AllDistinct type e d d' h k = ground (
  arith,
  add-Distinct e d.brokers,
  add-Distinct e d.clients,
  add-Distinct e d.executors,
  add-Distinct e d.datastores,
)

-- A registration under one of the four node types has its set.
pub discover_total :
    (type : ℕ) (e : Endpoint) (d : Discovered)
    → between NodeType.broker NodeType.client type ≡ true
    → (d' : Discovered) × (discover type e d ≡ ok d')
unfolding discover
discover_total type e d h = elim (Bool-cases (type == NodeType.broker)) [
  | inl a ↦ (record d { brokers = add e d.brokers }, rw a)
  | inr a ↦ elim (Bool-cases (type == NodeType.client)) [
    | inl b ↦ (record d { clients = add e d.clients }, rw (a, b))
    | inr b ↦ elim (Bool-cases (type == NodeType.executor)) [
      | inl c ↦ (record d { executors = add e d.executors }, rw (a, b, c))
      | inr c ↦ (record d { datastores = add e d.datastores }, ground arith)
    ]
  ]
]

nodes_of_total :
    (type : ℕ) (d : Discovered)
    → between NodeType.broker NodeType.client type ≡ true
    → (nodes : List Endpoint) × (nodes_of type d ≡ some nodes)
unfolding nodes_of
nodes_of_total type d h = elim (Bool-cases (type == NodeType.broker)) [
  | inl a ↦ (d.brokers, rw a)
  | inr a ↦ elim (Bool-cases (type == NodeType.client)) [
    | inl b ↦ (d.clients, rw (a, b))
    | inr b ↦ elim (Bool-cases (type == NodeType.executor)) [
      | inl c ↦ (d.executors, rw (a, b, c))
      | inr c ↦ (d.datastores, ground arith)
    ]
  ]
]

-- A node that registers under one of the four types is among the nodes of that type afterwards.
pub discover-knows :
    (type : ℕ) (e : Endpoint) (d : Discovered)
    → between NodeType.broker NodeType.client type ≡ true
    → (d' : Discovered) × (nodes : List Endpoint) × (discover type e d ≡ ok d')
      × (nodes_of type d' ≡ some nodes)
      × (knows e nodes ≡ true)
discover-knows type e d h =
    let (d', made) = discover_total type e d h in
    let (nodes, old) = nodes_of_total type d h in
    (
      d',
      add e nodes,
      made,
      nodes_of-discover type type e d d' nodes made old ∙ ground arith,
      ground (arith, knows-add e e nodes, same_refl e),
    )

on_announce-AllDistinct :
    (b : BundleData) (s : Broker)
    → AllDistinct s.discovered_nodes
    → AllDistinct (on_announce b s).1.discovered_nodes
unfolding on_announce
on_announce-AllDistinct b s h =
    ground (arith, add-Distinct b.source s.discovered_nodes.brokers h.in_brokers)

acknowledge-AllDistinct :
    (r : Result Discovered) (b : BundleData) (s : Broker)
    → AllDistinct s.discovered_nodes
    → ((d : Discovered) → r ≡ ok d → AllDistinct d)
    → AllDistinct (acknowledge r b s).1.discovered_nodes
unfolding acknowledge
acknowledge-AllDistinct (err e) b s h k = h
acknowledge-AllDistinct (ok d) b s h k = k d refl

handle_discovery-AllDistinct :
    (b : BundleData) (s : Broker)
    → AllDistinct s.discovered_nodes
    → AllDistinct (handle_discovery b s).1.discovered_nodes
unfolding handle_discovery
handle_discovery-AllDistinct b s h = elim (Bool-cases (b.type == BundleType.broker_announce)) [
  | inl announce ↦ rw announce (on_announce-AllDistinct b s h)
  | inr other ↦ elim (Bool-cases (b.type == BundleType.broker_request)) [
    | inl request ↦
        rw (other, request)
          (acknowledge-AllDistinct (discover b.node_type b.source s.discovered_nodes) b s h
            (λ d e. discover-AllDistinct b.node_type b.source s.discovered_nodes d h e))
    | inr neither ↦ rw (other, neither) h
  ]
]

module _ (codec : Codec) where
  -- Whatever bundle the broker handles, no node is twice in one of its sets afterwards.
  pub handle_bundle-AllDistinct :
      (b : BundleData) (s : Broker)
      → AllDistinct s.discovered_nodes
      → AllDistinct (handle_bundle codec b s).1.discovered_nodes
  unfolding handle_bundle
  handle_bundle-AllDistinct b s h = elim (Bool-cases (b.type == BundleType.job_query)) [
    | inl query ↦ rw query h
    | inr other ↦ elim (Bool-cases (is_discovery b.type)) [
      | inl discovery ↦ rw (other, discovery) (handle_discovery-AllDistinct b s h)
      | inr neither ↦ rw (other, neither) h
    ]
  ]
