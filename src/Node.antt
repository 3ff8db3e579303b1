-- ===== src/Node.antt =====
-- What all nodes share (dtn/node.py): the association with a broker, the replies of the DTN agent,
-- and a round of the bundle handler that executors, datastores and brokers run. The proofs are in
-- the modules below this one.
pub mod Framing
pub mod Rounds
pub mod Association
pub mod Agent
mod Tests
use ma_sinafadavi_gpt.Base.{
  ℕ, ◌≡◌, Bool, true, false, Option, none, some, List, [], ◌∷◌, ◌++◌, Result, ok, err, Error, ◌>>=◌,
  ◌==◌, if◌then◌else◌,
}
use ma_sinafadavi_gpt.Base.Exceptions.{assertion_error}
use ma_sinafadavi_gpt.Eid.{Endpoint, same}
use ma_sinafadavi_gpt.Bundles
use ma_sinafadavi_gpt.Bundles.{BundleData, bundle}
use ma_sinafadavi_gpt.Bundles.BundleType
use ma_sinafadavi_gpt.Messages.{Message, reply, register, fetch, fetch_reply, create}

pub record Node : Type 0 where
  pub node_id : Endpoint
  pub node_type : ℕ
  pub broker_pending : Option Endpoint
  pub broker : Option Endpoint

-- A node that is not associated.
abbrev pub unassociated : Endpoint → ℕ → Node
unassociated node_id node_type = record {
  node_id = node_id;
  node_type = node_type;
  broker_pending = none;
  broker = none;
}

-- `[response]`, or what its constructor raises
unfoldable pub singly : Result BundleData → Result (List BundleData)
singly (ok b) = ok (b ∷ [])
singly (err e) = err e

-- The request that a node sends to a broker.
abbrev pub request : Node → Endpoint → BundleData
request n broker = record (bundle BundleType.broker_request n.node_id broker) {
  node_type = n.node_type;
}

-- The case of `BROKER_ANNOUNCE`, by `_broker_pending` and `_broker`.
unfoldable pub on_announce :
    Option Endpoint → Option Endpoint → Endpoint → Node → Result (List BundleData) × Node
unfolding singly
on_announce none none source n =
    (singly (Bundles.new (request n source)), record n { broker_pending = some source })
on_announce none (some broker) source n = (ok [], n)
on_announce (some pending) broker source n = (ok [], n)

-- The case of `BROKER_ACK`, by `_broker_pending`
unfoldable pub on_ack : Option Endpoint → Endpoint → Node → Node
on_ack none source n = n
on_ack (some pending) source n =
    if same pending source then record n { broker = some source; broker_pending = none } else n

-- `_handle_discovery`
unfoldable pub handle_discovery : BundleData → Node → Result (List BundleData) × Node
unfolding on_announce on_ack
handle_discovery b n =
    if b.type == BundleType.broker_announce
    then on_announce n.broker_pending n.broker b.source n
    else if b.type == BundleType.broker_ack
    then (ok [], on_ack n.broker_pending b.source n)
    else (ok [], n)

-- `_get_new_bundles`, from the agent's answer to the fetch
unfoldable pub new_bundles : Result Message → Result (List BundleData)
new_bundles (err e) = err e
new_bundles (ok (fetch_reply true error bundles)) = ok bundles
new_bundles (ok (fetch_reply false error bundles)) = ok []
new_bundles (ok m) = err assertion_error

module _ {S : Type 0} where
  continue_with :
      Result (List BundleData) × S
      → List BundleData
      → (List BundleData → S → Result (List BundleData) × S)
      → Result (List BundleData) × S
  continue_with (ok more, s) replies rest = rest (replies ++ more) s
  continue_with (err e, s) replies rest = (err e, s)

  -- The loop over the fetched bundles in `_handle_bundles`; `handle` is the node's `_handle_bundle`.
  unfoldable pub handle_all :
      (BundleData → S → Result (List BundleData) × S)
      → List BundleData
      → List BundleData
      → S
      → Result (List BundleData) × S
  unfolding continue_with
  handle_all handle [] replies s = (ok replies, s)
  handle_all handle (b ∷ bs) replies s = continue_with (handle b s) replies (handle_all handle bs)

  -- `except Exception`: what was changed stays changed, and no reply is sent.
  replies_or_none : Result (List BundleData) × S → List BundleData × S
  replies_or_none (ok replies, s) = (replies, s)
  replies_or_none (err e, s) = ([], s)

  fetched :
      (BundleData → S → Result (List BundleData) × S)
      → Result (List BundleData)
      → S
      → List BundleData × S
  unfolding replies_or_none
  fetched handle (err e) s = ([], s)
  fetched handle (ok bundles) s = replies_or_none (handle_all handle bundles [] s)

  -- A round of `_handle_bundles`, from the agent's answer to the fetch: the replies that are handed to
  -- `_send_and_check`, and the state.
  unfoldable pub round :
      (BundleData → S → Result (List BundleData) × S) → Result Message → S → List BundleData × S
  unfolding fetched
  round handle answer s = fetched handle (new_bundles answer) s
