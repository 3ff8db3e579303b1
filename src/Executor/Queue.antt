-- ===== src/Executor/Queue.antt =====
-- The queue of pending jobs (dtn/executor.py): the search for a runnable job rotates the queue.
use ma_sinafadavi_gpt.Base.{
  ℕ, suc, ◌+◌, ◌<◌, ◌≡◌, ◌≢◌, ◌↔◌, ◌⊎◌, ◌∙◌, refl, sym, ap, inl, inr, Bool-cases, true, false,
  Option, none, some, List, [], ◌∷◌, ◌++◌, append_assoc, append-nil, length, length-append, Result,
  ok, arith, is_empty, Text, subst, All,
}
use ma_sinafadavi_gpt.Capabilities.{Capabilities, is_capable_of}
use ma_sinafadavi_gpt.Jobs.{JobInfo, required_named_data}
use ma_sinafadavi_gpt.Storage.{Backend, IsLawful, Storage, find_missing}
use ma_sinafadavi_gpt.Storage.View.{docs}
use ma_sinafadavi_gpt.Storage.Invariant.{HasBlob}
use ma_sinafadavi_gpt.Storage.Cleanup.{AllReadable, find_missing-nil}
use ma_sinafadavi_gpt.Executor.{
  Readings, Executor, job_has_all_inputs, runnable, any_runnable, has_runnable_job, pop_loop,
  pop_next_runnable_job,
}

round_suc : (k n : ℕ) → k + suc n ≡ suc k + n
round_suc k n = omega arith

round_zero : (k : ℕ) → k + 0 ≡ k
round_zero k = omega arith

module _ (B : Backend) where
  -- The job was reached at the round `k`, was runnable, and stood behind jobs that were not.
  pub record IsFirst (storage : Storage B) (readings : Readings) (k : ℕ)
      (jobs before after : List JobInfo) (job : JobInfo) : Type 0 where
    pub split : jobs ≡ before ++ job ∷ after
    pub passed : any_runnable B storage readings k before ≡ false
    pub fits : runnable B storage job (readings (k + length before)) ≡ true

  -- The two outcomes of a search, as the result and the queue that it leaves.
  abbrev pub Search :
      Storage B
      → Readings
      → ℕ
      → List JobInfo
      → List JobInfo
      → Result (Option JobInfo) × List JobInfo
      → Type 0
  Search storage readings k jobs done r =
      ((any_runnable B storage readings k jobs ≡ false) × (r ≡ (ok none, done ++ jobs)))
      ⊎ ((before : List JobInfo) × (job : JobInfo) × (after : List JobInfo) × IsFirst storage
            readings k jobs before after job
          × (r ≡ (ok (some job), after ++ (done ++ before))))

  further :
      (storage : Storage B) (readings : Readings) (k : ℕ) (job : JobInfo) (jobs done : List JobInfo)
      {q r : Result (Option JobInfo) × List JobInfo}
      → q ≡ r
      → runnable B storage job (readings k) ≡ false
      → Search storage readings (suc k) jobs (done ++ job ∷ []) r
      → Search storage readings k (job ∷ jobs) done q
  unfolding any_runnable
  further storage readings k job jobs done step unable (inl (none_left, e)) =
      inl (rw (unable, none_left), step ∙ (e ∙ simp append_assoc))
  further storage readings k job jobs done step unable (inr (before, j, after, first, e)) = inr (
    job ∷ before,
    j,
    after,
    record {
      split = ap (λ l. job ∷ l) first.split;
      passed = rw (unable, first.passed);
      fits = rw (round_suc k (length before)) first.fits;
    },
    step ∙ (e ∙ simp append_assoc),
  )

  pop_loop-Search :
      (storage : Storage B) (readings : Readings) (k : ℕ) (jobs done : List JobInfo)
      → Search storage readings k jobs done
          (pop_loop B (length jobs) storage readings k (jobs ++ done))
  unfolding pop_loop any_runnable
  pop_loop-Search storage readings k [] done = inl (refl, rw (append-nil done))
  pop_loop-Search storage readings k (job ∷ jobs) done =
      elim (Bool-cases (runnable B storage job (readings k))) [
        | inl able ↦ inr (
          [],
          job,
          jobs,
          record { split = refl; passed = refl; fits = rw (round_zero k) able },
          rw (able, append-nil done),
        )
        | inr unable ↦
            further storage readings k job jobs done (rw (unable, append_assoc)) unable
              (pop_loop-Search storage readings (suc k) jobs (done ++ job ∷ []))
      ]

  -- The search of the executor is the loop, from an empty list of jobs that were passed over.
  pop-eq :
      (readings : Readings) (s : Executor B) {o : Option JobInfo} {jobs : List JobInfo}
      → pop_loop B (length s.pending_jobs) s.storage readings 0 (s.pending_jobs ++ [])
        ≡ (ok o, jobs)
      → pop_next_runnable_job B readings s ≡ (ok o, record s { pending_jobs = jobs })
  unfolding pop_next_runnable_job
  pop-eq readings s e =
      ap (λ r. (r.0, record s { pending_jobs = r.1 }))
        (ap (pop_loop B (length s.pending_jobs) s.storage readings 0)
            (sym (append-nil s.pending_jobs))
          ∙ e)

  -- A search of the queue raises nothing. Either no pending job is runnable when its round comes, and
  -- the queue is as before; or the first that is runnable is returned, those that were passed over are
  -- put behind the others, and both groups keep their order. The storage and the node stay.
  pub pop_rotates :
      (readings : Readings) (s : Executor B)
      → ((any_runnable B s.storage readings 0 s.pending_jobs ≡ false)
          × (pop_next_runnable_job B readings s ≡ (ok none, s)))
        ⊎ ((before : List JobInfo) × (job : JobInfo) × (after : List JobInfo) × IsFirst s.storage
              readings 0 s.pending_jobs before after job
            × (pop_next_runnable_job B readings s
                ≡ (ok (some job), record s { pending_jobs = after ++ before })))
  pop_rotates readings s = elim (pop_loop-Search s.storage readings 0 s.pending_jobs []) [
    | inl (none_left, e) ↦ inl (none_left, pop-eq readings s e)
    | inr (before, job, after, first, e) ↦ inr (before, job, after, first, pop-eq readings s e)
  ]

  any_runnable-split :
      (storage : Storage B) (readings : Readings) (k : ℕ) (before after : List JobInfo)
      (job : JobInfo)
      → runnable B storage job (readings (k + length before)) ≡ true
      → any_runnable B storage readings k (before ++ job ∷ after) ≡ true
  unfolding any_runnable
  any_runnable-split storage readings k [] after job h =
      rw (ap (λ n. runnable B storage job (readings n)) (sym (round_zero k)) ∙ h)
  any_runnable-split storage readings k (b ∷ before) after job h = ground (
    arith,
    any_runnable-split storage readings (suc k) before after job
        (rw (round_suc k (length before)) at h),
  )

  -- A job is returned exactly if the test of the scheduler holds, where both read the same.
  pub pop_agrees :
      (readings : Readings) (s : Executor B)
      → ((pop_next_runnable_job B readings s).0 ≢ ok none) ↔ (has_runnable_job B readings s ≡ true)
  unfolding has_runnable_job
  pop_agrees readings s = elim (pop_rotates readings s) [
    | inl (none_left, e) ↦ (λ h. absurd (h (ap (λ r. r.0) e)), λ h. absurd (cc))
    | inr (before, job, after, first, e) ↦ (
      λ h.
          ap (any_runnable B s.storage readings 0) first.split
          ∙ any_runnable-split s.storage readings 0 before after job first.fits,
      λ h. λ none_there. cc (rw e at none_there),
    )
  ]

  empty_nil : (names : List Text) → is_empty names ≡ true → names ≡ []
  empty_nil [] h = refl
  empty_nil (n ∷ names) h = absurd (cc)

  runnable-both :
      (storage : Storage B) (job : JobInfo) (current : Capabilities)
      → runnable B storage job current ≡ true
      → (find_missing B (required_named_data job) storage ≡ [])
        × (is_capable_of current job.capabilities ≡ true)
  unfolding runnable job_has_all_inputs
  runnable-both storage job current h =
      (empty_nil (find_missing B (required_named_data job) storage) (ground arith), ground arith)

  -- Where every document has its blob, each name that a returned job requires can be copied to a file
  -- afterwards, which leaves the storage as it is, and at a round of the search the system offered what
  -- the job needs.
  pub popped_job-readable :
      (law : IsLawful B) (readings : Readings) (s s' : Executor B) (job : JobInfo)
      → All (HasBlob B law s.storage) (docs B law s.storage)
      → pop_next_runnable_job B readings s ≡ (ok (some job), s')
      → AllReadable B law (required_named_data job) s'.storage
        × ((k : ℕ) × (k < length s.pending_jobs)
            × (is_capable_of (readings k) job.capabilities ≡ true))
  popped_job-readable law readings s s' job complete popped = elim (pop_rotates readings s) [
    | inl (none_left, e) ↦ absurd (cc)
    | inr (before, j, after, first, e) ↦
        let (there, capable) =
          runnable-both s.storage j (readings (0 + length before)) first.fits in
        let kept = ap (λ r. r.1.storage) (sym e ∙ popped) in
        let same : j ≡ job = cc in
        (
          subst (λ t. AllReadable B law (required_named_data job) t) kept
              (subst (λ t. AllReadable B law (required_named_data t) s.storage) same
                (find_missing-nil B law (required_named_data j) s.storage complete there)),
          (
            0 + length before,
            omega (arith, ap length first.split, length-append before (j ∷ after)),
            subst (λ t. is_capable_of (readings (0 + length before)) t.capabilities ≡ true) same
                capable,
          ),
        )
  ]
