-- ===== src/Node/Association.antt =====
-- The association of a node with a broker as a state machine (dtn/node.py).
use ma_sinafadavi_gpt.Base.{
  ℕ, ◌+◌, ◌≤◌, ◌≡◌, ◌⊎◌, refl, inl, inr, Bool-cases, true, Option, none, some, List, [], ◌∷◌, ◌++◌,
  length, length-append, ok, arith, ◌==◌, ==_iff,
}
use ma_sinafadavi_gpt.Eid.{Endpoint, same}
use ma_sinafadavi_gpt.Bundles.{BundleData}
use ma_sinafadavi_gpt.Bundles.BundleType
use ma_sinafadavi_gpt.Node.{Node, on_ack, handle_discovery, handle_all}
use ma_sinafadavi_gpt.Node.Rounds.{handle_all-cons}

-- A node is not pending and associated at once.
abbrev pub IsConsistent : Node → Type 0
IsConsistent n = (n.broker_pending ≡ none) ⊎ (n.broker ≡ none)

-- Handling a discovery bundle never leaves a node pending and associated at once.
pub handle_discovery-IsConsistent :
    (b : BundleData) (n : Node) → IsConsistent n → IsConsistent (handle_discovery b n).1
unfolding handle_discovery
handle_discovery-IsConsistent b n h = ground arith

on_ack-changes :
    (b : BundleData) (n : Node) (pending : Option Endpoint)
    → n.broker_pending ≡ pending
    → b.type ≡ BundleType.broker_ack
    → ((on_ack pending b.source n).broker ≡ n.broker)
      ⊎ ((b.type ≡ BundleType.broker_ack)
          × ((p : Endpoint) × (n.broker_pending ≡ some p) × (same p b.source ≡ true))
          × ((on_ack pending b.source n).broker ≡ some b.source)
          × ((on_ack pending b.source n).broker_pending ≡ none))
unfolding on_ack
on_ack-changes b n none e t = inl refl
on_ack-changes b n (some p) e t = elim (Bool-cases (same p b.source)) [
  | inl from ↦ rw from (inr (t, (p, e, from), refl, refl))
  | inr other ↦ rw other (inl refl)
]

-- The broker of a node changes only by an acknowledgement, from the broker that the node is pending
-- on, and to the source of that bundle; the node is not pending afterwards.
pub broker_changes :
    (b : BundleData) (n : Node)
    → ((handle_discovery b n).1.broker ≡ n.broker)
      ⊎ ((b.type ≡ BundleType.broker_ack)
          × ((p : Endpoint) × (n.broker_pending ≡ some p) × (same p b.source ≡ true))
          × ((handle_discovery b n).1.broker ≡ some b.source)
          × ((handle_discovery b n).1.broker_pending ≡ none))
unfolding handle_discovery
broker_changes b n = elim (Bool-cases (b.type == BundleType.broker_announce)) [
  | inl announce ↦ inl (ground arith)
  | inr other ↦ elim (Bool-cases (b.type == BundleType.broker_ack)) [
    | inl ack ↦
        rw (other, ack)
          (on_ack-changes b n n.broker_pending refl ((==_iff b.type BundleType.broker_ack).0 ack))
    | inr neither ↦ inl (ground arith)
  ]
]

-- Once associated, a node answers no discovery bundle and keeps its broker.
pub handle_discovery-associated :
    (b : BundleData) (n : Node) (broker : Endpoint)
    → n.broker ≡ some broker
    → n.broker_pending ≡ none
    → handle_discovery b n ≡ (ok [], n)
unfolding handle_discovery
handle_discovery-associated b n broker h p = ground arith

-- How many requests a node may still send: one, as long as it is neither pending nor associated.
abbrev pub requests_left : Node → ℕ
requests_left n = left n.broker_pending n.broker
  where
    left : Option Endpoint → Option Endpoint → ℕ
    left none none = 1
    left none (some b) = 0
    left (some p) b = 0

handle_discovery-requests :
    (b : BundleData) (n : Node) (replies : List BundleData) (n' : Node)
    → handle_discovery b n ≡ (ok replies, n')
    → length replies + requests_left n' ≤ requests_left n
unfolding handle_discovery
handle_discovery-requests b n replies n' h = ground arith

handle_all-requests :
    (bs replies sent : List BundleData) (n n' : Node)
    → handle_all handle_discovery bs replies n ≡ (ok sent, n')
    → length sent + requests_left n' ≤ length replies + requests_left n
unfolding handle_all
handle_all-requests [] replies sent n n' h = ground arith
handle_all-requests (b ∷ bs) replies sent n n' h =
    let (more, m, first, rest) = handle_all-cons handle_discovery b bs replies n h in
    omega (
      arith,
      handle_all-requests bs (replies ++ more) sent m n' rest,
      handle_discovery-requests b n more m first,
      length-append replies more,
    )

-- However many discovery bundles a node handles, it sends one request at most, and none if it is
-- pending or associated.
pub requests_bounded :
    (bs sent : List BundleData) (n n' : Node)
    → handle_all handle_discovery bs [] n ≡ (ok sent, n')
    → length sent ≤ requests_left n
requests_bounded bs sent n n' h = omega (arith, handle_all-requests bs [] sent n n' h)
