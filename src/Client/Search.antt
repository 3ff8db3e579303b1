-- ===== src/Client/Search.antt =====
-- The search for a broker (dtn/client.py) as a state machine.
mod Stages
use ma_sinafadavi_gpt.Base.{
  ◌≡◌, ◌≢◌, refl, ap, inl, inr, Bool, Bool-cases, true, Option, none, some, List, [], ◌∷◌, ◌++◌,
  take, subst, Result, ok, err,
}
use ma_sinafadavi_gpt.Eid.{Endpoint, same}
use ma_sinafadavi_gpt.Bundles.{BundleData, is_discovery}
use ma_sinafadavi_gpt.Bundles.BundleType
use ma_sinafadavi_gpt.Messages.{Message}
use ma_sinafadavi_gpt.Node.{Node, request, handle_discovery, new_bundles}
use ma_sinafadavi_gpt.Client.{Progress, heard, hear, search_on, fetched, search_broker, find_broker}
use ma_sinafadavi_gpt.Client.Search.Stages.{Stage, handle_discovery-Stage}

heard-Stage :
    (n m m' : Node) (r : Result (List BundleData) × Node) (sent sent' : List BundleData)
    (rest : Node → List BundleData → Result (Unit {0}) × Progress)
    → ((replies : List BundleData) (k : Node)
        → r ≡ (ok replies, k)
        → Stage n k (sent ++ take 1 replies))
    → ((k : Node) (more : List BundleData)
        → Stage n k more
        → rest k more ≡ (ok tt, (m', sent'))
        → Stage n m' sent')
    → heard r sent rest ≡ (ok tt, (m', sent'))
    → Stage n m' sent'
unfolding heard
heard-Stage n m m' (err e, k) sent sent' rest first then_rest h = absurd (cc)
heard-Stage n m m' (ok replies, k) sent sent' rest first then_rest h =
    then_rest k (sent ++ take 1 replies) (first replies k refl) h

hear-Stage :
    (bs : List BundleData) (n m m' : Node) (sent sent' : List BundleData)
    → Stage n m sent
    → hear bs m sent ≡ (ok tt, (m', sent'))
    → Stage n m' sent'
unfolding hear
hear-Stage [] n m m' sent sent' h e =
    subst (λ x. Stage n x sent') (ap (λ r. r.1.0) e)
      (subst (λ x. Stage n m x) (ap (λ r. r.1.1) e) h)
hear-Stage (b ∷ bs) n m m' sent sent' h e = elim (Bool-cases (is_discovery b.type)) [
  | inl discovery ↦
      heard-Stage n m m' (handle_discovery b m) sent sent' (hear bs)
        (λ replies k here. handle_discovery-Stage b n m k replies sent h here)
        (λ k more there run. hear-Stage bs n k m' more sent' there run) (rw discovery at e)
  | inr other ↦ hear-Stage bs n m m' sent sent' h (rw other at e)
]

search_on-Stage :
    (n m' : Node) (sent' : List BundleData) (r : Result (Unit {0}) × Progress)
    (rest : Node → List BundleData → Result Bool × Progress)
    → ((k : Node) (more : List BundleData) → r ≡ (ok tt, (k, more)) → Stage n k more)
    → ((k : Node) (more : List BundleData)
        → Stage n k more
        → rest k more ≡ (ok true, (m', sent'))
        → Stage n m' sent' × (m'.broker ≢ none))
    → search_on r rest ≡ (ok true, (m', sent'))
    → Stage n m' sent' × (m'.broker ≢ none)
unfolding search_on
search_on-Stage n m' sent' (err e, (k, more)) rest here there run = absurd (cc)
search_on-Stage n m' sent' (ok _, (k, more)) rest here there run =
    there k more (here k more refl) run

fetched-Stage :
    (n m m' : Node) (r : Result (List BundleData)) (sent sent' : List BundleData)
    (rest : Node → List BundleData → Result Bool × Progress)
    → Stage n m sent
    → ((k : Node) (more : List BundleData)
        → Stage n k more
        → rest k more ≡ (ok true, (m', sent'))
        → Stage n m' sent' × (m'.broker ≢ none))
    → fetched r m sent rest ≡ (ok true, (m', sent'))
    → Stage n m' sent' × (m'.broker ≢ none)
unfolding fetched
fetched-Stage n m m' (err e) sent sent' rest h then_rest run = absurd (cc)
fetched-Stage n m m' (ok bundles) sent sent' rest h then_rest run =
    search_on-Stage n m' sent' (hear bundles m sent) rest
      (λ k more e. hear-Stage bundles n m k sent more h e) then_rest run

search_broker-Stage :
    (answers : List (Result Message)) (n m m' : Node) (broker : Option Endpoint)
    (sent sent' : List BundleData)
    → m.broker ≡ broker
    → Stage n m sent
    → search_broker answers broker m sent ≡ (ok true, (m', sent'))
    → Stage n m' sent' × (m'.broker ≢ none)
unfolding search_broker
search_broker-Stage answers n m m' (some b) sent sent' known h e = (
  subst (λ x. Stage n x sent') (ap (λ r. r.1.0) e) (subst (λ x. Stage n m x) (ap (λ r. r.1.1) e) h),
  λ none_there. cc (known, none_there, ap (λ (r : Result Bool × Progress). r.1.0.broker) e),
)
search_broker-Stage [] n m m' none sent sent' known h e = absurd (cc)
search_broker-Stage (answer ∷ answers) n m m' none sent sent' known h e =
    fetched-Stage n m m' (new_bundles answer) sent sent' (λ k. search_broker answers k.broker k) h
      (λ k more there run. search_broker-Stage answers n k m' k.broker more sent' refl there run) e

-- What the stage of an associated client says.
joined-Stage :
    (n m : Node) (sent : List BundleData) (pending broker : Option Endpoint)
    → m.broker_pending ≡ pending
    → m.broker ≡ broker
    → Stage n m sent
    → m.broker ≢ none
    → (p b : Endpoint) × (m.broker ≡ some b)
      × (m.broker_pending ≡ none)
      × (same p b ≡ true)
      × (sent ≡ request n p ∷ [])
joined-Stage n m sent pending none x y h known = absurd (known y)
joined-Stage n m sent (some k) (some b) x y h known = absurd (rw (x, y) at h.stage)
joined-Stage n m sent none (some b) x y h known =
    let (p, alike, one_sent) = rw (x, y) at h.stage in (p, b, y, x, alike, one_sent)

-- A client that is neither pending nor associated and whose search for a broker ends is then
-- associated, pending on no broker, and has sent one bundle: the request to an endpoint with the
-- text of that broker's. Its own endpoint and its type stay.
pub find_broker-joined :
    (answers : List (Result Message)) (n m : Node) (sent : List BundleData)
    → n.broker_pending ≡ none
    → n.broker ≡ none
    → find_broker answers n ≡ (ok true, (m, sent))
    → (p b : Endpoint) × (m.broker ≡ some b)
      × (m.broker_pending ≡ none)
      × (same p b ≡ true)
      × (sent ≡ request n p ∷ [])
      × (m.node_id ≡ n.node_id)
      × (m.node_type ≡ n.node_type)
unfolding find_broker
find_broker-joined answers n m sent p b e =
    let start : Stage n n [] = record {
      same_id = refl;
      same_type = refl;
      stage = rw (p, b) refl;
    } in
    let (h, known) = search_broker-Stage answers n n m n.broker [] sent refl start e in
    let (q, k, there, idle, alike, one_sent) =
      joined-Stage n m sent m.broker_pending m.broker refl refl h known in
    (q, k, there, idle, alike, one_sent, h.same_id, h.same_type)
