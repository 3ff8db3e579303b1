-- ===== src/Node/Tests.antt =====
-- Nodes in concrete exchanges (dtn/node.py).
use ma_sinafadavi_gpt.Base.{
  ◌++◌, ◌≤◌, ◌≡◌, ◌≢◌, ◌⊎◌, refl, true, none, some, [], ◌∷◌, length, codes, text_eq, ok, arith,
}
use ma_sinafadavi_gpt.Eid.{Endpoint, eid, same, truthy}
use ma_sinafadavi_gpt.Bundles.{BundleData, bundle, new}
use ma_sinafadavi_gpt.Bundles.BundleType
use ma_sinafadavi_gpt.Bundles.NodeType
use ma_sinafadavi_gpt.Node.{
  Node, unassociated, request, singly, on_announce, handle_discovery, handle_all,
}
use ma_sinafadavi_gpt.Node.Association.{requests_left, broker_changes, requests_bounded}
use ma_sinafadavi_gpt.Node.Framing.{reply_bytes}
use ma_sinafadavi_gpt.Node.Framing.Laws.{header, reply_bytes_cut}

abbrev here : Endpoint
here = eid (codes "dtn://e/")

abbrev there : Endpoint
there = eid (codes "dtn://b/")

abbrev fresh : Node
fresh = unassociated here NodeType.executor

abbrev announced : BundleData
announced = bundle BundleType.broker_announce there here

abbrev acknowledged : BundleData
acknowledged = bundle BundleType.broker_ack there here

abbrev pending : Node
pending = record fresh { broker_pending = some there }

abbrev joined : Node
joined = record fresh { broker = some there }

first_announce : handle_discovery announced fresh ≡ (ok (request fresh there ∷ []), pending)
unfolding handle_discovery on_announce singly new truthy text_eq
first_announce = refl

broker_changes_example :
    ((handle_discovery acknowledged pending).1.broker ≡ none)
    ⊎ ((acknowledged.type ≡ BundleType.broker_ack)
        × ((p : Endpoint) × (pending.broker_pending ≡ some p) × (same p there ≡ true))
        × ((handle_discovery acknowledged pending).1.broker ≡ some there)
        × ((handle_discovery acknowledged pending).1.broker_pending ≡ none))
broker_changes_example = broker_changes acknowledged pending

two_announces :
    handle_all handle_discovery (announced ∷ announced ∷ []) [] fresh
    ≡ (ok (request fresh there ∷ []), pending)
unfolding handle_all handle_discovery on_announce singly new truthy text_eq
two_announces = refl

requests_bounded_example : length (request fresh there ∷ []) ≤ requests_left fresh
requests_bounded_example =
    requests_bounded (announced ∷ announced ∷ []) (request fresh there ∷ []) fresh pending
      two_announces

reply_bytes_cut_example :
    (reply_bytes (header (codes "abcd") ∷ codes "ab" ∷ codes "c" ∷ codes "d" ∷ []) ≡ codes "ab")
    × (reply_bytes ((header (codes "abcd") ++ codes "ab") ∷ codes "c" ∷ codes "d" ∷ [])
        ≡ codes "ab")
    × (codes "ab" ≢ codes "abcd")
reply_bytes_cut_example =
    reply_bytes_cut (codes "ab") (codes "c") (codes "abcd") (codes "d" ∷ []) refl (omega arith)
      (λ e. absurd (cc)) (λ e. absurd (cc))
