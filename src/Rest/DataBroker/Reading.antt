-- ===== src/Rest/DataBroker/Reading.antt =====
-- Reading data and passing on results at a REST broker (rest/nodes/brokers/databroker.py).
pub mod Location
use ma_sinafadavi_gpt.Base.{
  ℕ, zero, suc, Bool, Option, none, some, List, [], ◌∷◌, Text, Bytes, member, Result, ok, err, ◌==◌,
  if◌then◌else◌,
}
use ma_sinafadavi_gpt.Base.Exceptions.{http}
use ma_sinafadavi_gpt.Rest.Model.{Address}
use ma_sinafadavi_gpt.Rest.DatastoreCache
use ma_sinafadavi_gpt.Rest.DatastoreCache.{Datastore, Cache, invalidate}
use ma_sinafadavi_gpt.Rest.DataBroker.{Broker, Pages, iter_data}

-- `store if name in page.items else None`
abbrev pub if_listed : Text → List Text → Datastore → Unit {0} → Option Datastore × Unit {0}
if_listed name page d a = (if member name page then some d else none, a)

-- The search under which pages are cached: all of a job, or those of the name.
term_of : Text → Option ℕ → Text
term_of name none = name
term_of name (some job) = []

or_search :
    ℕ → Pages → Text → Option ℕ → Option Datastore × Cache → Broker → Option Datastore × Broker
unfolding term_of
or_search now pages name job (some d, cache) b = (some d, record b { cache = cache })
or_search now pages name job (none, cache) b =
    let r =
      iter_data (if_listed name) now (term_of name job) job pages tt (record b { cache = cache }) in
    (r.0, r.1.1)

-- `job_data_location`
unfoldable pub job_data_location : ℕ → Pages → Text → Option ℕ → Broker → Option Datastore × Broker
unfolding or_search
job_data_location now pages name job b =
    or_search now pages name job (DatastoreCache.get now name job b.cache) b

-- What a datastore answers to a read, by the try.
abbrev pub Serves : Type 0
Serves = ℕ → Datastore → Option Bytes

-- Behind an answer that is none.
after_invalidate :
    Result (Unit {0}) × Cache
    → Broker
    → (Broker → Result (Option Bytes) × Broker)
    → Result (Option Bytes) × Broker
after_invalidate (err e, cache) b again = (err e, record b { cache = cache })
after_invalidate (ok _, cache) b again = again (record b { cache = cache })

answered :
    Option Bytes
    → ℕ
    → Text
    → Option ℕ
    → Broker
    → (Broker → Result (Option Bytes) × Broker)
    → Result (Option Bytes) × Broker
unfolding after_invalidate
answered (some content) now name job b again = (ok (some content), b)
answered none now name job b again = after_invalidate (invalidate now name job b.cache) b again

asked :
    Serves
    → ℕ
    → ℕ
    → Text
    → Option ℕ
    → Option Datastore × Broker
    → (Broker → Result (Option Bytes) × Broker)
    → Result (Option Bytes) × Broker
unfolding answered
asked serves k now name job (none, b) again = (err (http 404), b)
asked serves k now name job (some d, b) again = answered (serves k d) now name job b again

-- The loop of `get_data`: nothing where the tries end.
get_loop : ℕ → ℕ → Serves → ℕ → Pages → Text → Option ℕ → Broker → Result (Option Bytes) × Broker
unfolding asked
get_loop zero k serves now pages name job b = (ok none, b)
get_loop (suc n) k serves now pages name job b =
    asked serves k now name job (job_data_location now pages name job b)
      (get_loop n (suc k) serves now pages name job)

-- `get_data`
unfoldable pub get_data :
    Serves → ℕ → Pages → Text → Option ℕ → Broker → Result (Option Bytes) × Broker
unfolding get_loop
get_data serves now pages name job b = get_loop 10 0 serves now pages name job b

-- `self.pending_results.get(job_id, None)` and `self.pending_results.pop(job_id, None)`
unfoldable pub address_of : ℕ → List (ℕ × Address) → Option Address
address_of id [] = none
address_of id ((i, a) ∷ results) =
    let rest = address_of id results in if i == id then some a else rest

unfoldable pub drop_result : ℕ → List (ℕ × Address) → List (ℕ × Address)
drop_result id [] = []
drop_result id ((i, a) ∷ results) =
    let rest = (i, a) ∷ drop_result id results in if i == id then results else rest

passed : (Address → Bytes → Bool) → ℕ → Bytes → Option Address → Broker → Result (Unit {0}) × Broker
passed receives id content none b = (ok tt, b)
passed receives id content (some address) b =
    if receives address content
    then (ok tt, record b { pending_results = drop_result id b.pending_results })
    else (err (http 503), b)

-- `send_result`; `receives` is what the client answers.
unfoldable pub send_result :
    (Address → Bytes → Bool) → ℕ → Bytes → Broker → Result (Unit {0}) × Broker
unfolding passed
send_result receives id content b = passed receives id content (address_of id b.pending_results) b
