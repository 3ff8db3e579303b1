-- ===== src/Broker/Tests.antt =====
-- A broker in concrete exchanges (dtn/broker.py).
use ma_sinafadavi_gpt.Base.{◌≡◌, refl, true, some, List, [], ◌∷◌, codes, text_eq, ok}
use ma_sinafadavi_gpt.Eid.{Endpoint, eid, truthy}
use ma_sinafadavi_gpt.Wire.Plain.{plain_codec}
use ma_sinafadavi_gpt.Bundles.{BundleData, bundle}
use ma_sinafadavi_gpt.Bundles.BundleType
use ma_sinafadavi_gpt.Bundles.NodeType
use ma_sinafadavi_gpt.Node
use ma_sinafadavi_gpt.Node.{Node, unassociated, request}
use ma_sinafadavi_gpt.Broker
use ma_sinafadavi_gpt.Broker.{
  Broker, Discovered, init, ack, add, knows, nodes_of, discover, handle_bundle,
}
use ma_sinafadavi_gpt.Broker.NodeSets.{AllDistinct, handle_bundle-AllDistinct}
use ma_sinafadavi_gpt.Broker.Handshake.{pending_on, associated, handshake}

abbrev here : Endpoint
here = eid (codes "dtn://e/")

abbrev there : Endpoint
there = eid (codes "dtn://b/")

abbrev alone : Broker
alone = init there

abbrev fresh : Node
fresh = unassociated here NodeType.executor

abbrev announced : BundleData
announced = bundle BundleType.broker_announce there here

abbrev one_executor : Discovered
one_executor = record { brokers = []; clients = []; executors = here ∷ []; datastores = [] }

first_executor : discover NodeType.executor here alone.discovered_nodes ≡ ok one_executor
unfolding discover add knows
first_executor = refl

no_executors : nodes_of NodeType.executor alone.discovered_nodes ≡ some []
unfolding nodes_of
no_executors = refl

handle_bundle-AllDistinct_example :
    AllDistinct (handle_bundle plain_codec (request fresh there) alone).1.discovered_nodes
handle_bundle-AllDistinct_example =
    handle_bundle-AllDistinct plain_codec (request fresh there) alone
      (record { in_brokers = tt; in_clients = tt; in_executors = tt; in_datastores = tt })

here-truthy : truthy here ≡ true
unfolding truthy text_eq
here-truthy = refl

there-truthy : truthy there ≡ true
unfolding truthy text_eq
there-truthy = refl

handshake_example :
    (s' : Broker) × (nodes : List Endpoint) × (Node.handle_discovery announced fresh
      ≡ (ok (request fresh there ∷ []), pending_on fresh there))
    × (Broker.handle_discovery (request fresh there) alone ≡ (ok (some (ack alone here)), s'))
    × (nodes_of NodeType.executor s'.discovered_nodes ≡ some nodes)
    × (knows here nodes ≡ true)
    × (Node.handle_discovery (ack alone here) (pending_on fresh there)
        ≡ (ok [], associated fresh there))
handshake_example =
    handshake fresh alone announced here-truthy there-truthy refl refl refl refl refl
