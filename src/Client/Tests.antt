-- ===== src/Client/Tests.antt =====
-- A client in concrete exchanges (dtn/client.py).
use ma_sinafadavi_gpt.Base.{
  ◌≡◌, refl, true, none, some, List, [], ◌∷◌, codes, text_eq, select, starts_with, Result, ok,
  if◌then◌else◌,
}
use ma_sinafadavi_gpt.Base.Dict
use ma_sinafadavi_gpt.Eid.{Endpoint, eid, same, truthy}
use ma_sinafadavi_gpt.Bundles.{BundleData, bundle}
use ma_sinafadavi_gpt.Bundles.BundleType
use ma_sinafadavi_gpt.Bundles.NodeType
use ma_sinafadavi_gpt.Messages.{Message}
use ma_sinafadavi_gpt.Node.{Node, unassociated, request}
use ma_sinafadavi_gpt.Storage.{add_new, load_data, cleanup}
use ma_sinafadavi_gpt.Storage.Memory.{in_memory, in_memory-IsLawful}
use ma_sinafadavi_gpt.Datastore
use ma_sinafadavi_gpt.Datastore.{Datastore, get_reply}
use ma_sinafadavi_gpt.Datastore.Put.{free}
use ma_sinafadavi_gpt.Client.{find_broker, wait_reply, put_bundle, get_bundle}
use ma_sinafadavi_gpt.Client.Search.{find_broker-joined}
use ma_sinafadavi_gpt.Client.Exchange.{brought, put_exchange, get_exchange}
use ma_sinafadavi_gpt.Client.Ending.{joined, find_broker-ends}

abbrev there : Endpoint
there = eid (codes "dtn://b/")

abbrev customer : Node
customer = unassociated (eid (codes "dtn://c/")) NodeType.client

-- A datastore that holds `x` under the name `ab`.
abbrev shop : Datastore in_memory
shop = record {
  node = unassociated (eid (codes "dtn://s/")) NodeType.datastore;
  storage = record {
    db = record { name = codes "ab"; filename = codes "x" } ∷ [];
    blobs = (codes "x", codes "x") ∷ [];
  };
}

abbrev announced : BundleData
announced = bundle BundleType.broker_announce there customer.node_id

abbrev acknowledged : BundleData
acknowledged = bundle BundleType.broker_ack there customer.node_id

customer_named : truthy customer.node_id ≡ true
unfolding truthy text_eq
customer_named = refl

broker_named : truthy there ≡ true
unfolding truthy text_eq
broker_named = refl

shop_named : truthy shop.node.node_id ≡ true
unfolding truthy text_eq
shop_named = refl

abbrev two_answers : List (Result Message)
two_answers = brought (announced ∷ []) ∷ brought (acknowledged ∷ []) ∷ []

-- Another broker announces itself behind the first one, and acknowledges as well.
abbrev other_announced : BundleData
other_announced = record announced { source = eid (codes "dtn://d/") }

abbrev other_acknowledged : BundleData
other_acknowledged = record acknowledged { source = eid (codes "dtn://d/") }

find_broker-ends_example :
    (broker : Endpoint) × (same there broker ≡ true)
    × (find_broker
          (brought (other_acknowledged ∷ [])
            ∷ brought (announced ∷ other_announced ∷ [])
            ∷ brought []
            ∷ brought (other_acknowledged ∷ acknowledged ∷ [])
            ∷ [])
          customer
        ≡ (ok true, (joined customer broker, request customer there ∷ [])))
unfolding same text_eq
find_broker-ends_example =
    find_broker-ends customer refl refl ((other_acknowledged ∷ []) ∷ []) ([] ∷ []) []
      (other_announced ∷ []) (other_acknowledged ∷ []) [] announced acknowledged [] customer_named
      broker_named refl (refl, tt) refl refl refl refl

search_ended :
    find_broker two_answers customer
    ≡ (ok true, (joined customer there, request customer there ∷ []))
unfolding find_broker ma_sinafadavi_gpt.Node.new_bundles ma_sinafadavi_gpt.Client.hear
    ma_sinafadavi_gpt.Node.handle_discovery ma_sinafadavi_gpt.Bundles.new truthy text_eq same
    ma_sinafadavi_gpt.Base.take
search_ended = refl

find_broker-joined_example :
    (p b : Endpoint) × ((joined customer there).broker ≡ some b)
    × ((joined customer there).broker_pending ≡ none)
    × (same p b ≡ true)
    × (request customer there ∷ [] ≡ request customer p ∷ [])
    × (customer.node_id ≡ customer.node_id)
    × (customer.node_type ≡ customer.node_type)
find_broker-joined_example =
    find_broker-joined two_answers customer (joined customer there) (request customer there ∷ [])
      refl refl search_ended

put_exchange_example :
    (request reply : BundleData) × (s' : Datastore in_memory) × (put_bundle customer
        shop.node.node_id
        (codes "a")
        (codes "y")
      ≡ ok request)
    × (Datastore.handle_bundle in_memory request shop ≡ (ok (reply ∷ []), s'))
    × (wait_reply BundleType.ndata_put (brought (reply ∷ []) ∷ []) ≡ ok (some reply))
    × (reply.success ≡ free in_memory in_memory-IsLawful (codes "a") shop.storage)
    × (s'.storage ≡ (
        if free in_memory in_memory-IsLawful (codes "a") shop.storage
        then add_new in_memory (codes "a") (codes "y") shop.storage
        else shop.storage))
put_exchange_example =
    put_exchange in_memory in_memory-IsLawful customer shop (codes "a") (codes "y") customer_named
      shop_named refl

prefix_loads : (load_data in_memory (codes "a") shop.storage).0 ≡ (codes "ab", codes "x") ∷ []
unfolding load_data select starts_with text_eq Dict.lookup cleanup
prefix_loads = refl

-- The client asks for `a` and takes what is stored under `ab`.
get_exchange_example :
    (request : BundleData) × (replies : List BundleData) × (s' : Datastore in_memory) × (get_bundle
        customer shop.node.node_id
        (codes "a")
      ≡ ok request)
    × (Datastore.handle_bundle in_memory request shop ≡ (ok replies, s'))
    × (wait_reply BundleType.ndata_get (brought replies ∷ [])
        ≡ ok (some (get_reply in_memory shop request (codes "ab", codes "x"))))
get_exchange_example =
    get_exchange in_memory in_memory-IsLawful customer shop (codes "a") (codes "ab") (codes "x") []
      customer_named shop_named refl prefix_loads (refl, tt)
