-- ===== src/Client.antt =====
-- The client (dtn/client.py): the search for a broker, waiting for a reply, and the bundles that its
-- commands send. The agent's answers to the fetches are a list; the context file is not modelled.
-- The proofs are in the modules below this one.
pub mod Search
pub mod Exchange
pub mod Ending
mod Tests
use ma_sinafadavi_gpt.Base.{
  ℕ, ◌≡◌, Bool, true, false, Option, none, some, List, [], ◌∷◌, ◌++◌, take, Text, Bytes, Result, ok,
  err, ◌>>=◌, ◌>>◌, guard, ◌==◌, if◌then◌else◌,
}
use ma_sinafadavi_gpt.Base.Exceptions.{no_source, no_destination}
use ma_sinafadavi_gpt.Eid.{Endpoint, eid, normalize, truthy}
use ma_sinafadavi_gpt.Bundles
use ma_sinafadavi_gpt.Bundles.{BundleData, Names, one, bundle, is_discovery}
use ma_sinafadavi_gpt.Bundles.BundleType
use ma_sinafadavi_gpt.Messages.{Message}
use ma_sinafadavi_gpt.Node
use ma_sinafadavi_gpt.Node.{Node, new_bundles}

-- The node, and the bundles that were sent.
abbrev pub Progress : Type 0
Progress = Node × List BundleData

-- `reply[0]`, if there is a reply, is sent; what the agent answers, or raises, changes nothing.
unfoldable pub heard :
    Result (List BundleData) × Node
    → List BundleData
    → (Node → List BundleData → Result (Unit {0}) × Progress)
    → Result (Unit {0}) × Progress
heard (err e, n) sent rest = (err e, (n, sent))
heard (ok replies, n) sent rest = rest n (sent ++ take 1 replies)

-- The loop over the bundles of a fetch in `_find_broker`, with the bundles sent so far.
unfoldable pub hear : List BundleData → Node → List BundleData → Result (Unit {0}) × Progress
unfolding heard
hear [] n sent = (ok tt, (n, sent))
hear (b ∷ bs) n sent =
    let rest = hear bs n sent in
    if is_discovery b.type then heard (Node.handle_discovery b n) sent (hear bs) else rest

-- Behind a round: an exception ends the search.
unfoldable pub search_on :
    Result (Unit {0}) × Progress
    → (Node → List BundleData → Result Bool × Progress)
    → Result Bool × Progress
search_on (err e, (n, sent)) rest = (err e, (n, sent))
search_on (ok _, (n, sent)) rest = rest n sent

unfoldable pub fetched :
    Result (List BundleData)
    → Node
    → List BundleData
    → (Node → List BundleData → Result Bool × Progress)
    → Result Bool × Progress
unfolding search_on
fetched (err e) n sent rest = (err e, (n, sent))
fetched (ok bundles) n sent rest = search_on (hear bundles n sent) rest

-- The loop of `_find_broker`, by `_broker`: `true` where it ends, `false` where the answers end
-- first.
unfoldable pub search_broker :
    List (Result Message) → Option Endpoint → Node → List BundleData → Result Bool × Progress
unfolding fetched
search_broker answers (some broker) n sent = (ok true, (n, sent))
search_broker [] none n sent = (ok false, (n, sent))
search_broker (answer ∷ answers) none n sent =
    fetched (new_bundles answer) n sent (λ m. search_broker answers m.broker m)

-- `_find_broker`, with the bundles that it sent
unfoldable pub find_broker : List (Result Message) → Node → Result Bool × Progress
unfolding search_broker
find_broker answers n = search_broker answers n.broker n []

-- The loop over the bundles of a fetch in `wait_reply`
unfoldable pub first_of : ℕ → List BundleData → Option BundleData
first_of wait_for [] = none
first_of wait_for (b ∷ bs) =
    let rest = first_of wait_for bs in if b.type == wait_for then some b else rest

returned : Option BundleData → Result (Option BundleData) → Result (Option BundleData)
returned (some b) rest = ok (some b)
returned none rest = rest

waited : Result (List BundleData) → ℕ → Result (Option BundleData) → Result (Option BundleData)
unfolding returned first_of
waited (err e) wait_for rest = err e
waited (ok bundles) wait_for rest = returned (first_of wait_for bundles) rest

-- `wait_reply`: nothing where the answers end first.
unfoldable pub wait_reply : ℕ → List (Result Message) → Result (Option BundleData)
unfolding waited
wait_reply wait_for [] = ok none
wait_reply wait_for (answer ∷ answers) =
    waited (new_bundles answer) wait_for (wait_reply wait_for answers)

to_broker : Option Endpoint → Node → Endpoint → Result BundleData
to_broker none n submitter = do guard (truthy n.node_id) no_source; err no_destination
to_broker (some broker) n submitter =
    Bundles.new
      (record (bundle BundleType.job_query n.node_id broker) { submitter = some submitter })

-- The bundle of `job_query`; without a broker its destination is `None`.
unfoldable pub query_bundle : Node → Text → Result BundleData
unfolding to_broker
query_bundle n submitter = do s ← normalize submitter; to_broker n.broker n (eid s)

-- The bundle of `data_get`
unfoldable pub get_bundle : Node → Endpoint → Text → Result BundleData
get_bundle n datastore name =
    Bundles.new (record (bundle BundleType.ndata_get n.node_id datastore) { named_data = one name })

-- The bundle of `data_put`, with the content of the file
unfoldable pub put_bundle : Node → Endpoint → Text → Bytes → Result BundleData
put_bundle n datastore name content =
    Bundles.new (record (bundle BundleType.ndata_put n.node_id datastore) {
      payload = content;
      named_data = one name;
    })
