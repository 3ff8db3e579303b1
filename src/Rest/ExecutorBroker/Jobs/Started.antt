-- ===== src/Rest/ExecutorBroker/Jobs/Started.antt =====
-- When a REST broker starts a job (rest/nodes/brokers/executorbroker.py).
use ma_sinafadavi_gpt.Base.{
  ℕ, ◌≡◌, ◌∙◌, refl, ap, sym, inl, inr, Bool-cases, true, false, not, Option, none, some, all,
  select, arith,
}
use ma_sinafadavi_gpt.Rest.Model.{JobInfo, is_capable}
use ma_sinafadavi_gpt.Rest.ExecutorBroker.{Executor, QueuedJob, Broker, is_stale, choice}
use ma_sinafadavi_gpt.Rest.ExecutorBroker.Executors.{DistinctIds}
use ma_sinafadavi_gpt.Rest.ExecutorBroker.Choice.{fits, capable_executor_lem}
use ma_sinafadavi_gpt.Rest.Draw.{choice, IsOne, choice_one}
use ma_sinafadavi_gpt.Rest.ExecutorBroker.Jobs.{
  Accepts, among, on_job_started, is_ready, tried, attempt,
}

-- An executor that the broker knew, that was heard of within the last 130 s, whose last capabilities
-- suffice for the job, and that accepted it.
pub record Took (accepts : Accepts) (now id : ℕ) (info : JobInfo) (b : Broker) : Type 0 where
  pub executor : Executor
  pub known : IsOne executor b.executors
  pub fresh : is_stale now executor ≡ false
  pub capable : is_capable executor.cur_caps info.capabilities ≡ true
  pub accepted : accepts executor id info ≡ true

abbrev pub forgetting : ℕ → Broker → Broker
forgetting now b = record b { executors = select (λ e. not (is_stale now e)) b.executors }

tried-true :
    (accepts : Accepts) (job : QueuedJob) (o : Option Executor) (b c : Broker)
    → tried accepts job (o, b) ≡ (true, c)
    → (e : Executor) × (o ≡ some e)
      × (accepts e job.job_id job.job_info ≡ true)
      × (c ≡ on_job_started job.job_id job.job_info b)
unfolding tried
tried-true accepts job none b c h = absurd (cc)
tried-true accepts job (some e) b c h = elim (Bool-cases (accepts e job.job_id job.job_info)) [
  | inl agreed ↦ (e, refl, agreed, cc (rw agreed at h))
  | inr refused ↦ absurd (cc (rw refused at h))
]

-- A job of the queue is started only when every job that it waits for is reported as done, and by an
-- executor that the broker knows, that was heard of within the last 130 s, whose last capabilities
-- suffice, and that accepted it; the address for its result is noted then.
pub attempt_started :
    (accepts : Accepts) (now drawn : ℕ) (job : QueuedJob) (b c : Broker)
    → DistinctIds b.executors
    → attempt accepts now drawn job b ≡ (true, c)
    → (all (λ id. among id b.completed_jobs) job.wait_for ≡ true)
      × Took accepts now job.job_id job.job_info b
      × (c ≡ on_job_started job.job_id job.job_info (forgetting now b))
unfolding attempt is_ready
attempt_started accepts now drawn job b c distinct h =
    elim (Bool-cases (all (λ id. among id b.completed_jobs) job.wait_for)) [
      | inr waits ↦ absurd (cc (rw waits at h))
      | inl ready ↦
          let caps = job.job_info.capabilities in
          let (e, chosen, agreed, same) =
            tried-true accepts job (choice drawn (select (fits now caps) b.executors))
              (forgetting now b) c
              (ap (tried accepts job) (sym (capable_executor_lem now drawn caps b distinct))
                ∙ rw ready at h) in
          let (known, fine) = choice_one drawn (fits now caps) b.executors e chosen in
          (
            ready,
            record {
              executor = e;
              known = known;
              fresh = ground arith;
              capable = ground arith;
              accepted = agreed;
            },
            same,
          )
    ]
