-- ===== src/Rest/ExecutorBroker/Jobs.antt =====
-- The jobs of a REST broker (rest/nodes/brokers/executorbroker.py): submission, the queue of jobs that
-- wait for others, and the rounds of `job_scheduler`.
pub mod Started
pub mod Events
use ma_sinafadavi_gpt.Base.{
  ℕ, Bool, true, false, ◌||◌, Option, none, some, List, [], ◌∷◌, ◌++◌, Text, codes, text_eq, all,
  Result, ok, err, ◌==◌, if◌then◌else◌,
}
use ma_sinafadavi_gpt.Base.Exceptions.{http}
use ma_sinafadavi_gpt.Rest.Model.{Address, JobInfo}
use ma_sinafadavi_gpt.Rest.ExecutorBroker.{Executor, QueuedJob, Broker, capable_executor}

-- Whether an executor accepts a job, and whether it deletes one.
abbrev pub Accepts : Type 0
Accepts = Executor → ℕ → JobInfo → Bool

abbrev pub Deletes : Type 0
Deletes = Executor → ℕ → Bool

-- `id in ids`
unfoldable pub among : ℕ → List ℕ → Bool
among id [] = false
among id (i ∷ ids) = i == id || among id ids

-- `self.pending_results[job_id] = address`
unfoldable pub put_result : ℕ → Address → List (ℕ × Address) → List (ℕ × Address)
put_result id address [] = (id, address) ∷ []
put_result id address ((i, a) ∷ results) =
    let rest = (i, a) ∷ put_result id address results in
    if i == id then (i, address) ∷ results else rest

-- `on_job_started`: `add_pending_job` of the data broker
unfoldable pub on_job_started : ℕ → JobInfo → Broker → Broker
unfolding put_result
on_job_started id info b = record b {
  pending_results = put_result id info.result_addr b.pending_results;
}

-- `"this"` stands for the host that the request came from.
unfoldable pub own_address : Text → JobInfo → JobInfo
own_address client info =
    if text_eq info.result_addr.host (codes "this")
    then record info { result_addr = record { host = client; port = info.result_addr.port } }
    else info

offered : Accepts → ℕ → JobInfo → Option Executor × Broker → Result ℕ × Broker
offered accepts id info (none, b) = (err (http 503), b)
offered accepts id info (some e, b) =
    if accepts e id info then (ok id, on_job_started id info b) else (err (http 503), b)

-- `queue_job`
unfoldable pub queue_job : ℕ → JobInfo → Option (List ℕ) → Broker → Broker
queue_job id info none b = record b {
  queued_jobs = b.queued_jobs ++ record { job_id = id; job_info = info; wait_for = [] } ∷ [];
}
queue_job id info (some ids) b = record b {
  queued_jobs = b.queued_jobs ++ record { job_id = id; job_info = info; wait_for = ids } ∷ [];
}

submitted : Accepts → ℕ → ℕ → ℕ → JobInfo → Option (List ℕ) → Broker → Result ℕ × Broker
unfolding offered queue_job
submitted accepts now drawn id info none b =
    offered accepts id info (capable_executor now drawn info.capabilities b)
submitted accepts now drawn id info (some ids) b = (ok id, queue_job id info (some ids) b)

-- `submit_job`
unfoldable pub submit_job :
    Accepts → ℕ → ℕ → Text → ℕ → JobInfo → Option (List ℕ) → Broker → Result ℕ × Broker
unfolding submitted
submit_job accepts now drawn client id info wait_for b =
    submitted accepts now drawn id (own_address client info) wait_for b

-- `job_done`
unfoldable pub job_done : ℕ → Broker → Broker
job_done id b =
    if among id b.completed_jobs
    then b
    else record b { completed_jobs = b.completed_jobs ++ id ∷ [] }

-- `delete_job_from_executor`
unfoldable pub delete_job_from_executor : Deletes → ℕ → List Executor → Bool
delete_job_from_executor deletes id [] = false
delete_job_from_executor deletes id (e ∷ es) =
    deletes e id || delete_job_from_executor deletes id es

-- `wait_for.issubset(self.completed_jobs)`
unfoldable pub is_ready : QueuedJob → Broker → Bool
is_ready job b = all (λ id. among id b.completed_jobs) job.wait_for

tried : Accepts → QueuedJob → Option Executor × Broker → Bool × Broker
tried accepts job (none, b) = (false, b)
tried accepts job (some e, b) =
    if accepts e job.job_id job.job_info
    then (true, on_job_started job.job_id job.job_info b)
    else (false, b)

-- A round of the inner loop of `job_scheduler` behind the test of `should_exit`, and whether it ends the
-- loop.
unfoldable pub attempt : Accepts → ℕ → ℕ → QueuedJob → Broker → Bool × Broker
unfolding tried
attempt accepts now drawn job b =
    if is_ready job b
    then tried accepts job (capable_executor now drawn job.job_info.capabilities b)
    else (false, b)

-- What the inner loop meets in a round: what the other handlers did while it slept, the time, the draw,
-- and the answers of the executors.
pub record Round : Type 0 where
  pub meanwhile : Broker → Broker
  pub should_exit : Bool
  pub now : ℕ
  pub drawn : ℕ
  pub accepts : Accepts

-- How the inner loop ends: the job was started, the broker exits, or the rounds end first.
pub data Outcome : Type 0 where
  started exited waiting : Outcome

after_attempt : Bool × Broker → (Broker → Outcome × Broker) → Outcome × Broker
after_attempt (true, b) rest = (started, b)
after_attempt (false, b) rest = rest b

-- The inner loop of `job_scheduler`
unfoldable pub serve : QueuedJob → List Round → Broker → Outcome × Broker
unfolding after_attempt
serve job [] b = (waiting, b)
serve job (r ∷ rs) b =
    let go = after_attempt (attempt r.accepts r.now r.drawn job (r.meanwhile b)) (serve job rs) in
    if r.should_exit then (exited, r.meanwhile b) else go

taken : List QueuedJob → Broker → Option QueuedJob × Broker
taken [] b = (none, b)
taken (job ∷ jobs) b = (some job, record b { queued_jobs = jobs })

-- `self.queued_jobs.get()`, which waits where there is none.
unfoldable pub next_job : Broker → Option QueuedJob × Broker
unfolding taken
next_job b = taken b.queued_jobs b
