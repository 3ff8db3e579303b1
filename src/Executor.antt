-- ===== src/Executor.antt =====
-- The executor (dtn/executor.py): the intake of jobs and of named data, and the queue of pending
-- jobs. The WASM runtime and the job's directory are not modelled; what the system offers at a test
-- is a parameter. The proofs are in the modules below this one.
pub mod Queue
pub mod Intake
pub mod Results
pub mod Arrival
pub mod Handling
pub mod Directory
pub mod Scheduler
mod Tests
use ma_sinafadavi_gpt.Base.{
  ℕ, zero, suc, ◌≡◌, Bool, true, false, ◌&&◌, ◌||◌, Option, none, some, List, [], ◌∷◌, ◌++◌, length,
  Text, Bytes, is_empty, Result, ok, err, if◌then◌else◌,
}
use ma_sinafadavi_gpt.Base.Exceptions.{index_error, type_error}
use ma_sinafadavi_gpt.Base.Dict.{Dict}
use ma_sinafadavi_gpt.Eid.{Endpoint, datastore_address}
use ma_sinafadavi_gpt.Bundles
use ma_sinafadavi_gpt.Bundles.{BundleData, Names, nameless, one, many, bundle}
use ma_sinafadavi_gpt.Bundles.BundleType
use ma_sinafadavi_gpt.Capabilities.{Capabilities, is_capable_of}
use ma_sinafadavi_gpt.Jobs.{JobInfo, Job, required_named_data}
use ma_sinafadavi_gpt.Node.{Node, singly}
use ma_sinafadavi_gpt.Storage.{Backend, Storage, store_data, find_missing}

-- What `Capabilities.from_system()` returns at the round of a loop.
abbrev pub Readings : Type 0
Readings = ℕ → Capabilities

module _ (B : Backend) where
  pub record Executor : Type 0 where
    pub node : Node
    pub storage : Storage B
    pub pending_jobs : List JobInfo

  abbrev pub with_storage : Executor → Storage B → Executor
  with_storage s storage = record s { storage = storage }

  stored :
      Result (Unit {0}) × Storage B
      → (Storage B → Result (Unit {0}) × Storage B)
      → Result (Unit {0}) × Storage B
  stored (ok _, storage) rest = rest storage
  stored (err e, storage) rest = (err e, storage)

  -- The loops around `store_data`: an exception leaves the loop.
  unfoldable pub store_each : List (Text × Bytes) → Storage B → Result (Unit {0}) × Storage B
  unfolding stored
  store_each [] storage = (ok tt, storage)
  store_each ((name, content) ∷ items) storage =
      stored (store_data B name content storage) (store_each items)

  -- The bundle that asks the datastores for named data.
  abbrev pub data_request : Executor → List Text → BundleData
  data_request s missing = record (bundle BundleType.ndata_get s.node.node_id datastore_address) {
    named_data = many missing;
  }

  -- `if missing:`
  unfoldable pub ask : List Text → Executor → Result (List BundleData)
  unfolding singly
  ask [] s = ok []
  ask (name ∷ missing) s = singly (Bundles.new (data_request s (name ∷ missing)))

  enqueue : Result (Unit {0}) → JobInfo → Executor → Result (List BundleData) × Executor
  unfolding ask
  enqueue (err e) job s = (err e, s)
  enqueue (ok _) job s = (
    ask (find_missing B (required_named_data job) s.storage) s,
    record s { pending_jobs = s.pending_jobs ++ job ∷ [] },
  )

  -- What `_handle_job` does with the job, once it is read from the payload.
  unfoldable pub take_job : Job → Executor → Result (List BundleData) × Executor
  unfolding enqueue
  take_job job s =
      let r = store_each job.content s.storage in enqueue r.0 job.metadata (with_storage s r.1)

  -- The names of a bundle, each with its payload.
  unfoldable pub each_with : Bytes → List Text → List (Text × Bytes)
  each_with payload [] = []
  each_with payload (name ∷ names) = (name, payload) ∷ each_with payload names

  store_names : Names → Bytes → Storage B → Result (Unit {0}) × Storage B
  unfolding store_each each_with
  store_names nameless payload storage = (err type_error, storage)
  store_names (one name) payload storage = store_each (each_with payload (name ∷ [])) storage
  store_names (many names) payload storage = store_each (each_with payload names) storage

  -- `_handle_data`
  unfoldable pub handle_data : BundleData → Executor → Result (Unit {0}) × Executor
  unfolding store_names
  handle_data b s =
      let r = store_names b.named_data b.payload s.storage in (r.0, with_storage s r.1)

  -- `_store_named_results`
  unfoldable pub store_named_results : Dict Bytes → Executor → Result (Unit {0}) × Executor
  unfolding store_each
  store_named_results results s = let r = store_each results s.storage in (r.0, with_storage s r.1)

  -- `_job_has_all_inputs`
  unfoldable pub job_has_all_inputs : Storage B → JobInfo → Bool
  job_has_all_inputs storage job = is_empty (find_missing B (required_named_data job) storage)

  -- The test of both loops: the job has its inputs, and `_system_can_run(job)`.
  unfoldable pub runnable : Storage B → JobInfo → Capabilities → Bool
  unfolding job_has_all_inputs
  runnable storage job current =
      job_has_all_inputs storage job && is_capable_of current job.capabilities

  unfoldable pub any_runnable : Storage B → Readings → ℕ → List JobInfo → Bool
  unfolding runnable
  any_runnable storage readings k [] = false
  any_runnable storage readings k (job ∷ jobs) =
      runnable storage job (readings k) || any_runnable storage readings (suc k) jobs

  -- `_has_runnable_job`
  unfoldable pub has_runnable_job : Readings → Executor → Bool
  unfolding any_runnable
  has_runnable_job readings s = any_runnable s.storage readings 0 s.pending_jobs

  -- The loop of `_pop_next_runnable_job`, with `rounds` to go and `k` behind it.
  unfoldable pub pop_loop :
      ℕ → Storage B → Readings → ℕ → List JobInfo → Result (Option JobInfo) × List JobInfo
  unfolding runnable
  pop_loop zero storage readings k jobs = (ok none, jobs)
  pop_loop (suc rounds) storage readings k [] = (err index_error, [])
  pop_loop (suc rounds) storage readings k (job ∷ jobs) =
      let rest = pop_loop rounds storage readings (suc k) (jobs ++ job ∷ []) in
      if runnable storage job (readings k) then (ok (some job), jobs) else rest

  -- `_pop_next_runnable_job`
  unfoldable pub pop_next_runnable_job : Readings → Executor → Result (Option JobInfo) × Executor
  pop_next_runnable_job readings s =
      let r = pop_loop (length s.pending_jobs) s.storage readings 0 s.pending_jobs in
      (r.0, record s { pending_jobs = r.1 })
