-- ===== src/Broker.antt =====
-- The broker (dtn/broker.py): the nodes that it discovered, its answers to discovery bundles and to
-- job queries, and its announcements. The proofs are in the modules below this one.
pub mod NodeSets
pub mod Handshake
mod Tests
use ma_sinafadavi_gpt.Base.{
  ℕ, ◌≡◌, Bool, true, false, not, ◌&&◌, ◌||◌, Option, none, some, List, [], ◌∷◌, ◌++◌, codes,
  Result, ok, err, Error, ◌>>=◌, ◌==◌, if◌then◌else◌,
}
use ma_sinafadavi_gpt.Base.Exceptions.{key_error}
use ma_sinafadavi_gpt.Eid.{Endpoint, same, broadcast_address}
use ma_sinafadavi_gpt.Wire.{Value, arr, obj, end, field, Codec}
use ma_sinafadavi_gpt.Bundles
use ma_sinafadavi_gpt.Bundles.{BundleData, bundle, is_discovery}
use ma_sinafadavi_gpt.Bundles.BundleType
use ma_sinafadavi_gpt.Bundles.NodeType
use ma_sinafadavi_gpt.Jobs.{JobInfo, dictify_job_infos}

-- `discovered_nodes`, a set for each node type
pub record Discovered : Type 0 where
  pub brokers : List Endpoint
  pub clients : List Endpoint
  pub executors : List Endpoint
  pub datastores : List Endpoint

pub record Broker : Type 0 where
  pub node_id : Endpoint
  pub completed_jobs : List JobInfo
  pub queued_jobs : List JobInfo
  pub discovered_nodes : Discovered

-- `Broker.__init__`
abbrev pub init : Endpoint → Broker
init node_id = record {
  node_id = node_id;
  completed_jobs = [];
  queued_jobs = [];
  discovered_nodes = record { brokers = []; clients = []; executors = []; datastores = [] };
}

-- `e in nodes`
unfoldable pub knows : Endpoint → List Endpoint → Bool
knows e [] = false
knows e (n ∷ nodes) = same n e || knows e nodes

-- `nodes.add(e)`
unfoldable pub add : Endpoint → List Endpoint → List Endpoint
add e nodes = if knows e nodes then nodes else nodes ++ e ∷ []

-- `discovered_nodes[node_type]`
unfoldable pub nodes_of : ℕ → Discovered → Option (List Endpoint)
nodes_of type d =
    if type == NodeType.broker
    then some d.brokers
    else if type == NodeType.client
    then some d.clients
    else if type == NodeType.executor
    then some d.executors
    else if type == NodeType.datastore
    then some d.datastores
    else none

-- `discovered_nodes[node_type].add(e)`
unfoldable pub discover : ℕ → Endpoint → Discovered → Result Discovered
discover type e d =
    if type == NodeType.broker
    then ok (record d { brokers = add e d.brokers })
    else if type == NodeType.client
    then ok (record d { clients = add e d.clients })
    else if type == NodeType.executor
    then ok (record d { executors = add e d.executors })
    else if type == NodeType.datastore
    then ok (record d { datastores = add e d.datastores })
    else err key_error

abbrev pub with_nodes : Broker → Discovered → Broker
with_nodes s d = record s { discovered_nodes = d }

-- The acknowledgement of a request.
abbrev pub ack : Broker → Endpoint → BundleData
ack s node = record (bundle BundleType.broker_ack s.node_id node) { node_type = NodeType.broker }

unfoldable pub some_of : Result BundleData → Result (Option BundleData)
some_of (ok b) = ok (some b)
some_of (err e) = err e

-- The case of `BROKER_ANNOUNCE`
unfoldable pub on_announce : BundleData → Broker → Result (Option BundleData) × Broker
on_announce b s = if same b.source s.node_id then (ok none, s) else (
  ok none,
  with_nodes s (record s.discovered_nodes { brokers = add b.source s.discovered_nodes.brokers }),
)

unfoldable pub acknowledge :
    Result Discovered → BundleData → Broker → Result (Option BundleData) × Broker
acknowledge (err e) b s = (err e, s)
acknowledge (ok d) b s = (some_of (Bundles.new (ack s b.source)), with_nodes s d)

-- `_handle_discovery`
unfoldable pub handle_discovery : BundleData → Broker → Result (Option BundleData) × Broker
handle_discovery b s =
    if b.type == BundleType.broker_announce
    then on_announce b s
    else if b.type == BundleType.broker_request
    then acknowledge (discover b.node_type b.source s.discovered_nodes) b s
    else (ok none, s)

-- The dictionary of the jobs that a query is answered with.
abbrev pub job_lists : Broker → Value
job_lists s = obj (
    field (codes "completed") (arr (dictify_job_infos s.completed_jobs))
      (field (codes "queued") (arr (dictify_job_infos s.queued_jobs)) end))

-- What `_announce_yourself` sends.
unfoldable pub announcement : Broker → Result BundleData
announcement s =
    Bundles.new (record (bundle BundleType.broker_announce s.node_id broadcast_address) {
      node_type = NodeType.broker;
    })

module _ (codec : Codec) where
  -- `_handle_job_query`
  unfoldable pub handle_job_query : BundleData → Broker → Result (Option BundleData)
  handle_job_query b s = do
    payload ← codec.packb (job_lists s)
    some_of (
        Bundles.new (record (bundle BundleType.job_list s.node_id b.source) {
          submitter = b.submitter;
          payload = payload;
        }))

  -- `_handle_bundle`
  unfoldable pub handle_bundle : BundleData → Broker → Result (Option BundleData) × Broker
  handle_bundle b s =
      if b.type == BundleType.job_query
      then (handle_job_query b s, s)
      else if is_discovery b.type
      then handle_discovery b s
      else (ok none, s)

-- `if reply is not None: replies.append(reply)`
unfoldable pub appended : Result (Option BundleData) × Broker → Result (List BundleData) × Broker
appended (ok none, s) = (ok [], s)
appended (ok (some b), s) = (ok (b ∷ []), s)
appended (err e, s) = (err e, s)
