-- ===== src/Client/Search/Stages.antt =====
-- Where a client stands in its search for a broker (dtn/client.py), from bundle to bundle.
use ma_sinafadavi_gpt.Base.{
  ◌≡◌, ◌∙◌, refl, ap, sym, inl, inr, Bool-cases, true, Option, none, some, List, [], ◌∷◌, ◌++◌,
  append-nil, take, subst, ok, arith, ◌==◌,
}
use ma_sinafadavi_gpt.Eid.{Endpoint, same}
use ma_sinafadavi_gpt.Bundles.{BundleData, bundle, new}
use ma_sinafadavi_gpt.Bundles.BundleType
use ma_sinafadavi_gpt.Node.{Node, request, singly, on_announce, on_ack, handle_discovery}

-- Where a client stands that began unassociated, by `_broker_pending`, `_broker` and what it sent.
abbrev pub StageOf : Node → Option Endpoint → Option Endpoint → List BundleData → Type 0
StageOf n none none sent = sent ≡ []
StageOf n (some p) none sent = sent ≡ request n p ∷ []
StageOf n none (some b) sent = (p : Endpoint) × (same p b ≡ true) × (sent ≡ request n p ∷ [])
StageOf n (some p) (some b) sent = ⊥

pub record Stage (n m : Node) (sent : List BundleData) : Type 0 where
  pub same_id : m.node_id ≡ n.node_id
  pub same_type : m.node_type ≡ n.node_type
  pub stage : StageOf n m.broker_pending m.broker sent

singly-new :
    (b : BundleData) (replies : List BundleData) → singly (new b) ≡ ok replies → replies ≡ b ∷ []
unfolding singly new
singly-new b replies h = ground arith

request-same :
    (m n : Node) (source : Endpoint)
    → m.node_id ≡ n.node_id
    → m.node_type ≡ n.node_type
    → request m source ≡ request n source
request-same m n source i t =
    ap (λ x. record (bundle BundleType.broker_request x source) { node_type = m.node_type }) i
    ∙ ap (λ x. record (bundle BundleType.broker_request n.node_id source) { node_type = x }) t

-- No reply and no change of the node.
unchanged :
    (n m m' : Node) (replies sent : List BundleData)
    → Stage n m sent
    → ok [] ≡ ok replies
    → m ≡ m'
    → Stage n m' (sent ++ take 1 replies)
unfolding take
unchanged n m m' replies sent h r e =
    let none_sent : [] ≡ replies = cc in
    subst (λ x. Stage n x (sent ++ take 1 replies)) e
      (subst (λ x. Stage n m (sent ++ take 1 x)) none_sent
        (subst (λ x. Stage n m x) (sym (append-nil sent)) h))

-- The first announcement is answered, and the node is pending on its source.
answered :
    (n m m' : Node) (source : Endpoint) (replies sent : List BundleData)
    → m.node_id ≡ n.node_id
    → m.node_type ≡ n.node_type
    → m.broker ≡ none
    → sent ≡ []
    → singly (new (request m source)) ≡ ok replies
    → record m { broker_pending = some source } ≡ m'
    → Stage n m' (sent ++ take 1 replies)
unfolding take
answered n m m' source replies sent i t b h r e =
    let one_sent : replies ≡ request m source ∷ [] = singly-new (request m source) replies r in
    subst (λ x. Stage n x (sent ++ take 1 replies)) e
      (record {
        same_id = i;
        same_type = t;
        stage =
            subst (λ x. StageOf n (some source) x (sent ++ take 1 replies)) (sym b)
              (rw (h, one_sent) (ap (λ x. x ∷ []) (request-same m n source i t)));
      })

on_announce-Stage :
    (n m m' : Node) (source : Endpoint) (pending broker : Option Endpoint)
    (replies sent : List BundleData)
    → m.broker_pending ≡ pending
    → m.broker ≡ broker
    → Stage n m sent
    → on_announce pending broker source m ≡ (ok replies, m')
    → Stage n m' (sent ++ take 1 replies)
unfolding on_announce
on_announce-Stage n m m' source none none replies sent p b h e =
    answered n m m' source replies sent h.same_id h.same_type b (rw (p, b) at h.stage)
      (ap (λ r. r.0) e) (ap (λ r. r.1) e)
on_announce-Stage n m m' source none (some k) replies sent p b h e =
    unchanged n m m' replies sent h (ap (λ r. r.0) e) (ap (λ r. r.1) e)
on_announce-Stage n m m' source (some k) broker replies sent p b h e =
    unchanged n m m' replies sent h (ap (λ r. r.0) e) (ap (λ r. r.1) e)

on_ack-Stage :
    (n m : Node) (source : Endpoint) (pending broker : Option Endpoint) (sent : List BundleData)
    → m.broker_pending ≡ pending
    → m.broker ≡ broker
    → Stage n m sent
    → Stage n (on_ack pending source m) sent
unfolding on_ack
on_ack-Stage n m source none broker sent p b h = h
on_ack-Stage n m source (some k) (some l) sent p b h = absurd (rw (p, b) at h.stage)
on_ack-Stage n m source (some k) none sent p b h = elim (Bool-cases (same k source)) [
  | inl from ↦ rw from (record {
    same_id = h.same_id;
    same_type = h.same_type;
    stage = (k, from, rw (p, b) at h.stage);
  })
  | inr other ↦ rw other h
]

pub handle_discovery-Stage :
    (b : BundleData) (n m m' : Node) (replies sent : List BundleData)
    → Stage n m sent
    → handle_discovery b m ≡ (ok replies, m')
    → Stage n m' (sent ++ take 1 replies)
unfolding handle_discovery
handle_discovery-Stage b n m m' replies sent h e =
    elim (Bool-cases (b.type == BundleType.broker_announce)) [
      | inl announce ↦
          on_announce-Stage n m m' b.source m.broker_pending m.broker replies sent refl refl h
            (rw announce at e)
      | inr other ↦ elim (Bool-cases (b.type == BundleType.broker_ack)) [
        | inl ack ↦
            let e' = rw (other, ack) at e in
            unchanged n (on_ack m.broker_pending b.source m) m' replies sent
              (on_ack-Stage n m b.source m.broker_pending m.broker sent refl refl h)
              (ap (λ r. r.0) e') (ap (λ r. r.1) e')
        | inr neither ↦
            let e' = rw (other, neither) at e in
            unchanged n m m' replies sent h (ap (λ r. r.0) e') (ap (λ r. r.1) e')
      ]
    ]
