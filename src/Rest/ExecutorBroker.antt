-- ===== src/Rest/ExecutorBroker.antt =====
-- The broker's side of executors and jobs in the REST variant (rest/nodes/brokers/executorbroker.py):
-- registration, heartbeats, the choice of an executor, and the queue of jobs that wait for others. Times
-- are counted in ticks of 2^-22 s, the spacing of the floats that `time.time()` returns. The answers of
-- the executors and what `random.choice` draws are parameters.
pub mod Executors
pub mod Choice
pub mod Jobs
mod Tests
use ma_sinafadavi_gpt.Base.{
  ℕ, ◌+◌, ◌*◌, ◌^◌, Bool, true, false, ◌||◌, Option, none, some, List, [], ◌∷◌, length, Text,
  text_eq, member, select, Result, ok, err, ltb, ◌==◌, if◌then◌else◌,
}
use ma_sinafadavi_gpt.Base.Exceptions.{bad_uuid, http}
use ma_sinafadavi_gpt.Rest.Model.{Address, Capabilities, JobInfo, is_capable}
use ma_sinafadavi_gpt.Rest.Draw.{choice}
use ma_sinafadavi_gpt.Rest.Names.{id_from_name}

-- An executor as the broker knows it.
pub record Executor : Type 0 where
  pub id : ℕ
  pub address : Address
  pub cur_caps : Capabilities
  pub last_update : ℕ

pub record QueuedJob : Type 0 where
  pub job_id : ℕ
  pub job_info : JobInfo
  pub wait_for : List ℕ

-- The state of the broker; `pending_results` is what `on_job_started` writes.
pub record Broker : Type 0 where
  pub executors : List Executor
  pub queued_jobs : List QueuedJob
  pub completed_jobs : List ℕ
  pub pending_results : List (ℕ × Address)

abbrev pub init : Broker
init = record { executors = []; queued_jobs = []; completed_jobs = []; pending_results = [] }

-- `self.executors.get(id)`
unfoldable pub find_executor : ℕ → List Executor → Option Executor
find_executor id [] = none
find_executor id (e ∷ es) = let rest = find_executor id es in if e.id == id then some e else rest

-- `self.executors[e.id] = e`
unfoldable pub put_executor : Executor → List Executor → List Executor
put_executor e [] = e ∷ []
put_executor e (d ∷ es) = let rest = d ∷ put_executor e es in if d.id == e.id then e ∷ es else rest

-- `self.executors.pop(id, None)`
unfoldable pub pop_executor : ℕ → List Executor → List Executor
pop_executor id [] = []
pop_executor id (e ∷ es) = let rest = e ∷ pop_executor id es in if e.id == id then es else rest

-- `hosts.remove(host)`
remove_host : Text → List Text → List Text
remove_host host [] = []
remove_host host (h ∷ hs) =
    let rest = h ∷ remove_host host hs in if text_eq h host then hs else rest

-- The host that the request came from is tried first, if the executor names it.
unfoldable pub host_order : Text → List Text → List Text
unfolding remove_host
host_order client hosts = if member client hosts then client ∷ remove_host client hosts else hosts

-- What `executor.ping()` returns at a host.
abbrev pub Pings : Type 0
Pings = Address → Option Text

of_id : ℕ → Option ℕ → Result Bool
of_id id none = err bad_uuid
of_id id (some i) = ok (i == id)

-- Whether the answer to a ping is the name of the executor.
identified : ℕ → Option Text → Result Bool
unfolding of_id
identified id none = ok false
identified id (some name) = of_id id (id_from_name name)

abbrev pub at_host : Executor → Text → Executor
at_host e host = record e { address = record { host = host; port = e.address.port } }

answered :
    Result Bool
    → Executor
    → Broker
    → (Broker → Result (Unit {0}) × Broker)
    → Result (Unit {0}) × Broker
answered (err x) e b rest = (err x, b)
answered (ok true) e b rest = (ok tt, record b { executors = put_executor e b.executors })
answered (ok false) e b rest = rest b

try_hosts : Pings → Executor → List Text → Broker → Result (Unit {0}) × Broker
unfolding identified answered
try_hosts pings e [] b = (err (http 400), b)
try_hosts pings e (host ∷ hosts) b =
    answered (identified e.id (pings (at_host e host).address)) (at_host e host) b
      (try_hosts pings e hosts)

-- `register_executor`
unfoldable pub register_executor :
    Pings → Text → List Text → Executor → Broker → Result (Unit {0}) × Broker
unfolding try_hosts
register_executor pings client hosts e b = try_hosts pings e (host_order client hosts) b

beat : Option Executor → Capabilities → ℕ → Broker → Result (Unit {0}) × Broker
beat none caps now b = (err (http 404), b)
beat (some e) caps now b = (
  ok tt,
  record b {
    executors = put_executor (record e { cur_caps = caps; last_update = now }) b.executors;
  },
)

-- `heartbeat_executor`
unfoldable pub heartbeat_executor : ℕ → Capabilities → ℕ → Broker → Result (Unit {0}) × Broker
unfolding beat
heartbeat_executor id caps now b = beat (find_executor id b.executors) caps now b

-- 130 s in ticks.
abbrev pub patience : ℕ
patience = 130 * 2 ^ 22

-- `current_time - executor.last_update > 130`
unfoldable pub is_stale : ℕ → Executor → Bool
is_stale now e = ltb (e.last_update + patience) now

unfoldable pub pop_all : List Executor → List Executor → List Executor
pop_all [] es = es
pop_all (e ∷ gone) es = pop_all gone (pop_executor e.id es)

-- `prune_executor_list`
unfoldable pub prune_executor_list : ℕ → Broker → Broker
prune_executor_list now b = record b {
  executors = pop_all (select (is_stale now) b.executors) b.executors;
}

-- `executor_count`
unfoldable pub executor_count : ℕ → Broker → ℕ × Broker
executor_count now b = let c = prune_executor_list now b in (length c.executors, c)

-- `capable_executor`
unfoldable pub capable_executor : ℕ → ℕ → Capabilities → Broker → Option Executor × Broker
capable_executor now drawn caps b =
    let c = prune_executor_list now b in
    (choice drawn (select (λ e. is_capable e.cur_caps caps) c.executors), c)
