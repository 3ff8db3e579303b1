-- ===== src/Broker/Handshake.antt =====
-- The handshake of a node with a broker, across both programs (dtn/node.py, dtn/broker.py).
use ma_sinafadavi_gpt.Base.{◌≡◌, true, none, some, List, [], ◌∷◌, text_eq_refl, ok}
use ma_sinafadavi_gpt.Eid.{Endpoint, same, text_of, truthy}
use ma_sinafadavi_gpt.Bundles.{BundleData, between, new}
use ma_sinafadavi_gpt.Bundles.BundleType
use ma_sinafadavi_gpt.Bundles.NodeType
use ma_sinafadavi_gpt.Node
use ma_sinafadavi_gpt.Node.{Node, request}
use ma_sinafadavi_gpt.Broker
use ma_sinafadavi_gpt.Broker.{Broker, Discovered, ack, nodes_of, knows, discover}
use ma_sinafadavi_gpt.Broker.NodeSets.{discover-knows}

abbrev pub pending_on : Node → Endpoint → Node
pending_on n broker = record n { broker_pending = some broker }

abbrev pub associated : Node → Endpoint → Node
associated n broker = record n { broker = some broker; broker_pending = none }

new-request :
    (n : Node) (broker : Endpoint)
    → truthy n.node_id ≡ true
    → truthy broker ≡ true
    → between NodeType.broker NodeType.client n.node_type ≡ true
    → new (request n broker) ≡ ok (request n broker)
unfolding new
new-request n broker hn hb ht = rw (hn, hb, ht)

new-ack :
    (s : Broker) (node : Endpoint)
    → truthy s.node_id ≡ true
    → truthy node ≡ true
    → new (ack s node) ≡ ok (ack s node)
unfolding new
new-ack s node hs hn = rw (hs, hn)

-- A node that is neither pending nor associated and hears the announcement of a broker asks it, the
-- broker registers the node under its type and acknowledges, and the node is associated with that
-- broker: no step fails, if neither endpoint is `dtn:none` and the node has one of the four types.
pub handshake :
    (n : Node) (s : Broker) (a : BundleData)
    → truthy n.node_id ≡ true
    → truthy s.node_id ≡ true
    → between NodeType.broker NodeType.client n.node_type ≡ true
    → n.broker_pending ≡ none
    → n.broker ≡ none
    → a.type ≡ BundleType.broker_announce
    → a.source ≡ s.node_id
    → (s' : Broker) × (nodes : List Endpoint) × (Node.handle_discovery a n
        ≡ (ok (request n s.node_id ∷ []), pending_on n s.node_id))
      × (Broker.handle_discovery (request n s.node_id) s ≡ (ok (some (ack s n.node_id)), s'))
      × (nodes_of n.node_type s'.discovered_nodes ≡ some nodes)
      × (knows n.node_id nodes ≡ true)
      × (Node.handle_discovery (ack s n.node_id) (pending_on n s.node_id)
          ≡ (ok [], associated n s.node_id))
unfolding Node.handle_discovery Broker.handle_discovery Broker.acknowledge Broker.some_of same
handshake n s a hn hs ht p b type from =
    let (d', nodes, made, there, known) =
      discover-knows n.node_type n.node_id s.discovered_nodes ht in
    (
      record s { discovered_nodes = d' },
      nodes,
      rw (type, from, p, b, new-request n s.node_id hn hs ht),
      rw (made, new-ack s n.node_id hs hn),
      there,
      known,
      rw (text_eq_refl (text_of s.node_id)),
    )
