-- ===== src/Executor/Scheduler.antt =====
-- The scheduler of the executor (dtn/executor.py): `_run_job` and a round of the loop of `_scheduler`,
-- from the pop of a job to the sending of its results. The WASM runtime is a parameter.
pub mod Laws
mod Tests
use ma_sinafadavi_gpt.Base.{
  ℕ, Bool, true, false, Option, none, some, List, [], ◌∷◌, ◌++◌, Text, Bytes, Result, ok, err,
  if◌then◌else◌,
}
use ma_sinafadavi_gpt.Base.Actions.{Action, bound, next, pure, reading, ◌>>=◌, ◌>>◌}
use ma_sinafadavi_gpt.Base.Dict.{Dict}
use ma_sinafadavi_gpt.Jobs.{JobInfo}
use ma_sinafadavi_gpt.Node.Agent.{Agent}
use ma_sinafadavi_gpt.Storage.{Backend, Storage}
use ma_sinafadavi_gpt.Executor.{
  Executor, Readings, with_storage, store_named_results, pop_next_runnable_job,
}
use ma_sinafadavi_gpt.Executor.Directory.{Location, Disk, Disks, on_disk, prepare}
use ma_sinafadavi_gpt.Executor.Directory.Collect.{Zip, collect_results, collect_named_results}
use ma_sinafadavi_gpt.Executor.Results.{send_results, send_named_results}

-- The results of a job and its named results.
abbrev pub Outcome : Type 0
Outcome = Option Bytes × Dict Bytes

-- `_run_wasi_module`: what it returns, or raises, and the disk that the module leaves.
abbrev pub Runtime : Type 0 → Type 0
Runtime S = JobInfo → Location → Option Location → Location → Action S ℕ

module _ {S : Type 0} (D : Disk S) (zip : Zip) (runtime : Runtime S) where
  -- The `try` of `_run_job`.
  unfoldable pub execute :
      JobInfo → Location → Location × Option Location × Location → Action S Outcome
  unfolding next
  execute job job_dir (wasm_file, stdin_path, data_dir) = do
    exit_code ← runtime job wasm_file stdin_path data_dir
    results ← collect_results D zip job job_dir
    named_results ← reading (collect_named_results D zip job job_dir)
    pure (results, named_results)

  -- Its `finally`
  unfoldable pub tidy : Location → S → S
  tidy job_dir s = if D.exists job_dir s then D.rmtree job_dir s else s

  -- Its `except`, and the `finally` behind it.
  unfoldable pub settled : Location → Result Outcome × S → Result Outcome × S
  unfolding tidy
  settled job_dir (ok outcome, s) = (ok outcome, tidy job_dir s)
  settled job_dir (err e, s) = (ok (none, []), tidy job_dir s)

module _ {S : Type 0} (D : Disk S) (B : Backend) (zip : Zip) (runtime : Runtime S) where
  -- A call that leaves the named data alone.
  beside : {V : Type 0} → Action S V → Action (Disks D B) V
  beside call (s, storage) = let r = call s in (r.0, (r.1, storage))

  -- What `_run_job` does in the directory of the job.
  unfoldable pub run_in : JobInfo → Location → Action (Disks D B) Outcome
  unfolding next beside
  run_in job job_dir = do
    places ← prepare D B job job_dir
    beside (λ s. settled D zip runtime job_dir (execute D zip runtime job job_dir places s))

  -- `_run_job`; `directory` is the name that it makes of `id(job)`.
  unfoldable pub run_job : Location → Text → JobInfo → Action (Disks D B) Outcome
  unfolding next on_disk run_in
  run_job root_dir directory job = do
    job_dir ← reading (λ d. D.resolve (root_dir ++ directory ∷ []) d.0)
    on_disk D B (D.mkdir job_dir)
    run_in job job_dir

-- The executor, the files, and the DTN agent.
pub record World (S : Type 0) (A : Type 0) (B : Backend) : Type 0 where
  pub executor : Executor B
  pub disk : S
  pub agent : A

module _ {S A : Type 0} (D : Disk S) (B : Backend) (agent : Agent A) (zip : Zip)
    (runtime : Runtime S) (root_dir : Location) (directory : JobInfo → Text) where
  on_disks : {V : Type 0} → Action (Disks D B) V → Action (World S A B) V
  on_disks call w =
      let r = call (w.disk, w.executor.storage) in
      (r.0, record w { disk = r.1.0; executor = with_storage B w.executor r.1.1 })

  on_agent : (A → Result (Unit {0}) × A) → Action (World S A B) (Unit {0})
  on_agent call w = let r = call w.agent in (r.0, record w { agent = r.1 })

  on_executor : (Executor B → Result (Unit {0}) × Executor B) → Action (World S A B) (Unit {0})
  on_executor call w = let r = call w.executor in (r.0, record w { executor = r.1 })

  -- The `try` of the loop of `_scheduler`.
  unfoldable pub process : JobInfo → Action (World S A B) (Unit {0})
  unfolding next on_disks on_agent on_executor
  process job = next (on_disks (run_job D B zip runtime root_dir (directory job) job)) λ outcome.
      next (λ w. on_agent (send_results agent w.executor.node job outcome.0) w)
        λ _.
          next (on_executor (store_named_results B outcome.1))
            λ _. λ w. on_agent (send_named_results agent w.executor.node outcome.1) w

  popped : Result (Option JobInfo) × Executor B → World S A B → Result (Unit {0}) × World S A B
  unfolding process
  popped (err e, s) w = (err e, record w { executor = s })
  popped (ok none, s) w = (ok tt, record w { executor = s })
  popped (ok (some job), s) w = (ok tt, (process job (record w { executor = s })).1)

  -- A round of the loop of `_scheduler`, from the pop on: an exception in the `try` is logged.
  unfoldable pub scheduler_round : Readings → Action (World S A B) (Unit {0})
  unfolding popped
  scheduler_round readings w = popped (pop_next_runnable_job B readings w.executor) w
