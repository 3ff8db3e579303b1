-- ===== src/Rest/ExecutorBroker/Jobs/Events.antt =====
-- A REST broker over any interleaving of its handlers and its scheduler
-- (rest/nodes/brokers/executorbroker.py).
use ma_sinafadavi_gpt.Base.{
  ℕ, ◌≡◌, ◌∙◌, refl, ap, inl, inr, Bool-cases, true, Option, none, some, List, [], ◌∷◌, Text, codes,
  text_eq, all, select, err,
}
use ma_sinafadavi_gpt.Base.Exceptions.{http}
use ma_sinafadavi_gpt.Rest.Model.{Capabilities, JobInfo}
use ma_sinafadavi_gpt.Rest.ExecutorBroker.{
  Executor, QueuedJob, Broker, init, Pings, register_executor, heartbeat_executor, executor_count,
  capable_executor,
}
use ma_sinafadavi_gpt.Rest.Draw.{choice, item_at}
use ma_sinafadavi_gpt.Rest.ExecutorBroker.Choice.{fits, capable_executor_lem}
use ma_sinafadavi_gpt.Rest.ExecutorBroker.Executors.{
  DistinctIds, register_executor-DistinctIds, heartbeat_executor-DistinctIds,
  prune_executor_list-DistinctIds,
}
use ma_sinafadavi_gpt.Rest.ExecutorBroker.Jobs.{
  Accepts, among, on_job_started, is_ready, tried, attempt, offered, submitted, submit_job,
  own_address, queue_job, job_done, next_job, taken,
}
use ma_sinafadavi_gpt.Rest.ExecutorBroker.Jobs.Started.{Took, forgetting, attempt_started}

-- A handler of the broker, or what its scheduler does: it takes the next job, or tries one.
pub data Step (b : Broker) : Broker → Type 0 where
  registers :
      (pings : Pings) (client : Text) (hosts : List Text) (e : Executor)
      → Step b (register_executor pings client hosts e b).1
  beats : (id : ℕ) (caps : Capabilities) (now : ℕ) → Step b (heartbeat_executor id caps now b).1
  counts : (now : ℕ) → Step b (executor_count now b).1
  submits :
      (accepts : Accepts) (now drawn : ℕ) (client : Text) (id : ℕ) (info : JobInfo)
      (wait_for : Option (List ℕ))
      → Step b (submit_job accepts now drawn client id info wait_for b).1
  reports : (id : ℕ) → Step b (job_done id b)
  takes : Step b (next_job b).1
  tries :
      (accepts : Accepts) (now drawn : ℕ) (job : QueuedJob)
      → Step b (attempt accepts now drawn job b).1

-- The states that the broker can reach.
pub data Reachable : Broker → Type 0 where
  starts : Reachable init
  moves : {b c : Broker} → Reachable b → Step b c → Reachable c

offered-DistinctIds :
    (accepts : Accepts) (id : ℕ) (info : JobInfo) (r : Option Executor × Broker)
    → DistinctIds r.1.executors
    → DistinctIds (offered accepts id info r).1.executors
unfolding offered on_job_started
offered-DistinctIds accepts id info (none, b) h = h
offered-DistinctIds accepts id info (some e, b) h = elim (Bool-cases (accepts e id info)) [
  | inl agreed ↦ rw agreed h
  | inr refused ↦ rw refused h
]

submitted-DistinctIds :
    (accepts : Accepts) (now drawn id : ℕ) (info : JobInfo) (wait_for : Option (List ℕ))
    (b : Broker)
    → DistinctIds b.executors
    → DistinctIds (submitted accepts now drawn id info wait_for b).1.executors
unfolding submitted queue_job capable_executor
submitted-DistinctIds accepts now drawn id info none b h =
    offered-DistinctIds accepts id info (capable_executor now drawn info.capabilities b)
      (prune_executor_list-DistinctIds now b h)
submitted-DistinctIds accepts now drawn id info (some ids) b h = h

tried-DistinctIds :
    (accepts : Accepts) (job : QueuedJob) (r : Option Executor × Broker)
    → DistinctIds r.1.executors
    → DistinctIds (tried accepts job r).1.executors
unfolding tried on_job_started
tried-DistinctIds accepts job (none, b) h = h
tried-DistinctIds accepts job (some e, b) h =
    elim (Bool-cases (accepts e job.job_id job.job_info)) [
      | inl agreed ↦ rw agreed h
      | inr refused ↦ rw refused h
    ]

attempt-DistinctIds :
    (accepts : Accepts) (now drawn : ℕ) (job : QueuedJob) (b : Broker)
    → DistinctIds b.executors
    → DistinctIds (attempt accepts now drawn job b).1.executors
unfolding attempt capable_executor
attempt-DistinctIds accepts now drawn job b h = elim (Bool-cases (is_ready job b)) [
  | inl ready ↦ rw ready (
      tried-DistinctIds accepts job (capable_executor now drawn job.job_info.capabilities b)
        (prune_executor_list-DistinctIds now b h))
  | inr waits ↦ rw waits h
]

job_done-DistinctIds :
    (id : ℕ) (b : Broker) → DistinctIds b.executors → DistinctIds (job_done id b).executors
unfolding job_done
job_done-DistinctIds id b h = elim (Bool-cases (among id b.completed_jobs)) [
  | inl old ↦ rw old h
  | inr new_one ↦ rw new_one h
]

taken-DistinctIds :
    (jobs : List QueuedJob) (b : Broker)
    → DistinctIds b.executors
    → DistinctIds (taken jobs b).1.executors
unfolding taken
taken-DistinctIds [] b h = h
taken-DistinctIds (job ∷ jobs) b h = h

Step-DistinctIds : {b c : Broker} → Step b c → DistinctIds b.executors → DistinctIds c.executors
unfolding executor_count submit_job next_job
Step-DistinctIds {b} (registers pings client hosts e) h =
    register_executor-DistinctIds pings client hosts e b h
Step-DistinctIds {b} (beats id caps now) h = heartbeat_executor-DistinctIds id caps now b h
Step-DistinctIds {b} (counts now) h = prune_executor_list-DistinctIds now b h
Step-DistinctIds {b} (submits accepts now drawn client id info wait_for) h =
    submitted-DistinctIds accepts now drawn id (own_address client info) wait_for b h
Step-DistinctIds {b} (reports id) h = job_done-DistinctIds id b h
Step-DistinctIds {b} takes h = taken-DistinctIds b.queued_jobs b h
Step-DistinctIds {b} (tries accepts now drawn job) h = attempt-DistinctIds accepts now drawn job b h

-- In every state that a broker can reach, by any interleaving of its handlers with its scheduler, no two
-- of its executors have the same identifier.
pub Reachable-DistinctIds : {b : Broker} → Reachable b → DistinctIds b.executors
Reachable-DistinctIds starts = tt
Reachable-DistinctIds (moves before step) = Step-DistinctIds step (Reachable-DistinctIds before)

own_address-capabilities :
    (client : Text) (info : JobInfo) → (own_address client info).capabilities ≡ info.capabilities
unfolding own_address
own_address-capabilities client info =
    elim (Bool-cases (text_eq info.result_addr.host (codes "this"))) [
      | inl own ↦ rw own
      | inr other ↦ rw other
    ]

none_offered :
    (accepts : Accepts) (drawn id : ℕ) (info : JobInfo) (es : List Executor) (b : Broker)
    → es ≡ []
    → offered accepts id info (choice drawn es, b) ≡ (err (http 503), b)
unfolding offered choice item_at
none_offered accepts drawn id info [] b h = refl
none_offered accepts drawn id info (e ∷ es) b h = absurd (cc)

-- Whatever happened before, a job of the queue is started only when every job that it waits for is
-- reported as done, and by an executor that the broker knows, that was heard of within the last 130 s,
-- whose last capabilities suffice, and that accepted it; the address for its result is noted then.
pub Reachable-attempt :
    (accepts : Accepts) (now drawn : ℕ) (job : QueuedJob) (b c : Broker)
    → Reachable b
    → attempt accepts now drawn job b ≡ (true, c)
    → (all (λ id. among id b.completed_jobs) job.wait_for ≡ true)
      × Took accepts now job.job_id job.job_info b
      × (c ≡ on_job_started job.job_id job.job_info (forgetting now b))
Reachable-attempt accepts now drawn job b c reached =
    attempt_started accepts now drawn job b c (Reachable-DistinctIds reached)

-- A job that is submitted without `wait_for` is refused with status 503, and no address is noted for it,
-- if no executor was heard of within the last 130 s with capabilities that suffice.
pub submit_job_refused :
    (accepts : Accepts) (now drawn : ℕ) (client : Text) (id : ℕ) (info : JobInfo) (b : Broker)
    → Reachable b
    → select (fits now info.capabilities) b.executors ≡ []
    → submit_job accepts now drawn client id info none b ≡ (err (http 503), forgetting now b)
unfolding submit_job submitted
submit_job_refused accepts now drawn client id info b reached nobody =
    ap (offered accepts id (own_address client info)) (
      ap (λ caps. capable_executor now drawn caps b) (own_address-capabilities client info)
      ∙ capable_executor_lem now drawn info.capabilities b (Reachable-DistinctIds reached))
    ∙ none_offered accepts drawn id (own_address client info)
        (select (fits now info.capabilities) b.executors) (forgetting now b) nobody
