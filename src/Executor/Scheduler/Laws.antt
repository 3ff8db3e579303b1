-- ===== src/Executor/Scheduler/Laws.antt =====
-- What a round of the scheduler does (dtn/executor.py).
use ma_sinafadavi_gpt.Base.{
  ◌≡◌, ◌≢◌, ◌∙◌, refl, subst, sym, ap, inl, inr, Bool-cases, false, Option, none, some, List, [],
  ◌∷◌, ◌++◌, Text, Bytes, Result, ok, err, Error,
}
use ma_sinafadavi_gpt.Base.Actions.{Action, bound, next, reading, Keeps, next-Keeps}
use ma_sinafadavi_gpt.Base.Dict.{Dict}
use ma_sinafadavi_gpt.Jobs.{JobInfo}
use ma_sinafadavi_gpt.Node.Agent.{Agent}
use ma_sinafadavi_gpt.Storage.{Backend, IsLawful, Storage}
use ma_sinafadavi_gpt.Storage.Invariant.{IsValid}
use ma_sinafadavi_gpt.Executor.{Executor, Readings, store_named_results, pop_next_runnable_job}
use ma_sinafadavi_gpt.Executor.Intake.{executor-IsValid}
use ma_sinafadavi_gpt.Executor.Queue.{pop_rotates}
use ma_sinafadavi_gpt.Executor.Results.{send_results}
use ma_sinafadavi_gpt.Executor.Directory.{Location, Disk, Disks, on_disk, prepare}
use ma_sinafadavi_gpt.Executor.Directory.Collect.{Zip}
use ma_sinafadavi_gpt.Executor.Directory.Stored.{on_disk-Same, prepare-Same}
use ma_sinafadavi_gpt.Executor.Scheduler.{
  Outcome, Runtime, execute, tidy, settled, beside, run_in, run_job, World, on_disks, on_agent,
  on_executor, process, popped, scheduler_round,
}

-- What is removed is not there afterwards.
pub record IsRemoving {S : Type 0} (D : Disk S) : Type 0 where
  pub exists-rmtree : (l : Location) (s : S) → D.exists l (D.rmtree l s) ≡ false

module _ {S : Type 0} (D : Disk S) (B : Backend) (zip : Zip) (runtime : Runtime S) where
  exists-tidy :
      (job_dir : Location) (s : S)
      → IsRemoving D
      → D.exists job_dir (tidy D zip runtime job_dir s) ≡ false
  unfolding tidy
  exists-tidy job_dir s removes = elim (Bool-cases (D.exists job_dir s)) [
    | inl there ↦ rw there (removes.exists-rmtree job_dir s)
    | inr gone ↦ rw gone gone
  ]

  settled_lem :
      (job_dir : Location) (r : Result Outcome × S)
      → IsRemoving D
      → (outcome : Outcome) × ((settled D zip runtime job_dir r).0 ≡ ok outcome)
        × (D.exists job_dir (settled D zip runtime job_dir r).1 ≡ false)
  unfolding settled
  settled_lem job_dir (ok outcome, s) removes = (outcome, refl, exists-tidy job_dir s removes)
  settled_lem job_dir (err e, s) removes = ((none, []), refl, exists-tidy job_dir s removes)

  abbrev pub Places : Type 0
  Places = Location × Option Location × Location

  run_in-step :
      (job : JobInfo) (job_dir : Location) (d : Disks D B) (r : Result Places × Disks D B)
      → prepare D B job job_dir d ≡ r
      → run_in D B zip runtime job job_dir d
        ≡ bound r (λ places.
          beside D B zip runtime
            (λ s. settled D zip runtime job_dir (execute D zip runtime job job_dir places s)))
  unfolding run_in next
  run_in-step job job_dir d r e =
      ap
        (λ q. bound q (λ places.
          beside D B zip runtime
            (λ s. settled D zip runtime job_dir (execute D zip runtime job job_dir places s))))
        e

  -- Where the preparation of a job returns, nothing is raised and the directory of the job is gone
  -- afterwards, whatever the module and the collection of its results do, on a disk that removes what it
  -- is told to remove.
  pub run_in-removed :
      (job : JobInfo) (job_dir : Location) (d after : Disks D B) (places : Places)
      → IsRemoving D
      → prepare D B job job_dir d ≡ (ok places, after)
      → (outcome : Outcome) × ((run_in D B zip runtime job job_dir d).0 ≡ ok outcome)
        × (D.exists job_dir (run_in D B zip runtime job job_dir d).1.0 ≡ false)
  unfolding bound beside
  run_in-removed job job_dir d after places removes h =
      let (outcome, fine, gone) =
        settled_lem job_dir (execute D zip runtime job job_dir places after.0) removes in
      let run = run_in-step job job_dir d (ok places, after) h in
      (outcome, ap (λ r. r.0) run ∙ fine, ap (λ r. D.exists job_dir r.1.0) run ∙ gone)

  beside-Same :
      (storage : Storage B) {V : Type 0} (call : Action S V)
      → Keeps (λ (d : Disks D B). d.1 ≡ storage) (beside D B zip runtime call)
  unfolding beside
  beside-Same storage call (s, m) h = h

  -- A job leaves the named data that were there as they were.
  run_job-Same :
      (law : IsLawful B) (storage : Storage B)
      → IsValid B law storage
      → (root_dir : Location) (directory : Text) (job : JobInfo)
      → Keeps (λ (d : Disks D B). d.1 ≡ storage) (run_job D B zip runtime root_dir directory job)
  unfolding run_job run_in
  run_job-Same law storage valid root_dir directory job =
      let Same : Disks D B → Type 0 = λ d. d.1 ≡ storage in
      next-Keeps Same (reading (λ d. D.resolve (root_dir ++ directory ∷ []) d.0)) _ (λ d h. h)
        (λ job_dir.
          next-Keeps Same (on_disk D B (D.mkdir job_dir)) _
            (on_disk-Same D B law storage valid.complete (D.mkdir job_dir))
            (λ _.
              next-Keeps Same (prepare D B job job_dir) _
                (prepare-Same D B law storage valid.complete job job_dir)
                (λ places. beside-Same storage (λ s.
                  settled D zip runtime job_dir (execute D zip runtime job job_dir places s)))))

module _ {S A : Type 0} (D : Disk S) (B : Backend) (law : IsLawful B) (agent : Agent A) (zip : Zip)
    (runtime : Runtime S) (root_dir : Location) (directory : JobInfo → Text)
    (queue : List JobInfo) where
  -- The storage is valid, and these jobs are pending.
  abbrev pub IsWaiting : World S A B → Type 0
  IsWaiting w = IsValid B law w.executor.storage × (w.executor.pending_jobs ≡ queue)

  on_agent-Waits :
      (call : A → Result (Unit {0}) × A)
      → Keeps IsWaiting (on_agent D B agent zip runtime root_dir directory call)
  unfolding on_agent
  on_agent-Waits call w h = h

  run_job-Waits :
      (job : JobInfo)
      → Keeps IsWaiting (
          on_disks D B agent zip runtime root_dir directory
            (run_job D B zip runtime root_dir (directory job) job))
  unfolding on_disks
  run_job-Waits job w (valid, same) = (
    subst (IsValid B law)
        (sym (
          run_job-Same D B zip runtime law w.executor.storage valid root_dir (directory job) job
            (w.disk, w.executor.storage) refl))
        valid,
    same,
  )

  store_named_results-Waits :
      (results : Dict Bytes)
      → Keeps IsWaiting
          (on_executor D B agent zip runtime root_dir directory (store_named_results B results))
  unfolding on_executor store_named_results
  store_named_results-Waits results w (valid, same) =
      ((executor-IsValid B law w.executor valid).2 results, same)

  process-Waits :
      (job : JobInfo) → Keeps IsWaiting (process D B agent zip runtime root_dir directory job)
  unfolding process on_agent
  process-Waits job =
      next-Keeps IsWaiting
        (on_disks D B agent zip runtime root_dir directory
          (run_job D B zip runtime root_dir (directory job) job))
        _ (run_job-Waits job)
        (λ outcome.
          next-Keeps IsWaiting
            (λ w.
              on_agent D B agent zip runtime root_dir directory
                (send_results agent w.executor.node job outcome.0) w)
            _ (λ w h. h)
            (λ _.
              next-Keeps IsWaiting
                (on_executor D B agent zip runtime root_dir directory
                  (store_named_results B outcome.1))
                _ (store_named_results-Waits outcome.1) (λ _ w h. h)))

  popped_lem :
      (r : Result (Option JobInfo) × Executor B) (w : World S A B)
      → ((e : Error) → r.0 ≢ err e)
      → IsValid B law r.1.storage
      → r.1.pending_jobs ≡ queue
      → ((popped D B agent zip runtime root_dir directory r w).0 ≡ ok tt)
        × IsWaiting (popped D B agent zip runtime root_dir directory r w).1
  unfolding popped
  popped_lem (err e, s) w no_error valid same = absurd (no_error e refl)
  popped_lem (ok none, s) w no_error valid same = (refl, (valid, same))
  popped_lem (ok (some job), s) w no_error valid same =
      (refl, process-Waits job (record w { executor = s }) (valid, same))

module _ {S A : Type 0} (D : Disk S) (B : Backend) (law : IsLawful B) (agent : Agent A) (zip : Zip)
    (runtime : Runtime S) (root_dir : Location) (directory : JobInfo → Text) where
  pop-returns :
      (readings : Readings) (s : Executor B) (e : Error)
      → (pop_next_runnable_job B readings s).0 ≢ err e
  pop-returns readings s e h = elim (pop_rotates B readings s) [
    | inl (none_left, found) ↦ cc (rw found at h)
    | inr (before, job, after, first, found) ↦ cc (rw found at h)
  ]

  -- A round of the scheduler raises nothing, whatever the module, the disk and the agent do and whether
  -- or not the job fails: the storage stays valid, and the pending jobs are those that the search left,
  -- so that a job that fails is not tried again and the others stay.
  pub scheduler_round_lem :
      (readings : Readings) (w : World S A B)
      → IsValid B law w.executor.storage
      → ((scheduler_round D B agent zip runtime root_dir directory readings w).0 ≡ ok tt)
        × IsValid B law
            (scheduler_round D B agent zip runtime root_dir directory readings w).1.executor.storage
        × ((scheduler_round D B agent zip runtime root_dir directory readings
              w).1.executor.pending_jobs
            ≡ (pop_next_runnable_job B readings w.executor).1.pending_jobs)
  unfolding scheduler_round pop_next_runnable_job
  scheduler_round_lem readings w valid =
      let (fine, (kept, same)) =
        popped_lem D B law agent zip runtime root_dir directory
          (pop_next_runnable_job B readings w.executor).1.pending_jobs
          (pop_next_runnable_job B readings w.executor) w (pop-returns readings w.executor) valid
          refl in
      (fine, kept, same)
