-- ===== src/Executor/Tests.antt =====
-- Runs of the executor (dtn/executor.py) over a store in memory.
use ma_sinafadavi_gpt.Base.{
  Text, ◌≡◌, ◌≢◌, ◌⊎◌, ◌<◌, ℕ, refl, true, false, none, some, List, [], ◌∷◌, ◌++◌, map, length,
  Bytes, codes, text_eq, select, All, ok, err,
}
use ma_sinafadavi_gpt.Base.Dict
use ma_sinafadavi_gpt.Base.Dict.{Dict}
use ma_sinafadavi_gpt.Base.Exceptions.{name_taken, foreign}
use ma_sinafadavi_gpt.Eid.{eid, truthy}
use ma_sinafadavi_gpt.Bundles.{BundleData, bundle, one}
use ma_sinafadavi_gpt.Bundles.BundleType
use ma_sinafadavi_gpt.Bundles.NodeType
use ma_sinafadavi_gpt.Capabilities.{Capabilities, is_capable_of}
use ma_sinafadavi_gpt.Jobs.{JobInfo, Job, job_info, required_named_data, set_of}
use ma_sinafadavi_gpt.Node.{unassociated}
use ma_sinafadavi_gpt.Storage.{Storage, init, store_data, find_missing}
use ma_sinafadavi_gpt.Storage.View.{find}
use ma_sinafadavi_gpt.Storage.Invariant.{HasBlob}
use ma_sinafadavi_gpt.Storage.Cleanup.{AllReadable}
use ma_sinafadavi_gpt.Storage.Memory.{in_memory, in_memory-IsLawful}
use ma_sinafadavi_gpt.Executor.{
  with_storage, store_each, with_storage, job_has_all_inputs, Executor, Readings, store_each,
  take_job, handle_data, any_runnable, pop_next_runnable_job, pop_loop,
}
use ma_sinafadavi_gpt.Messages.{Message, create}
use ma_sinafadavi_gpt.Node.Agent.{Agent, Logs}
use ma_sinafadavi_gpt.Executor.Arrival.{arrival_completes}
use ma_sinafadavi_gpt.Executor.Results.{named_bundle, send_named_results, named_results_offered}
use ma_sinafadavi_gpt.Executor.Queue.{IsFirst, pop_rotates, popped_job-readable}
use ma_sinafadavi_gpt.Executor.Intake.{take_job-name_taken}

abbrev small : Capabilities
small = record { cpu_cores = 1; free_cpu_capacity = 0; free_memory = 0; free_disk_space = 0 }

abbrev readings : Readings
readings = λ k. small

-- A job whose module is there, and one whose module is not.
abbrev ready : JobInfo
ready = job_info 1 (codes "a") small

abbrev waiting : JobInfo
waiting = job_info 2 (codes "m") small

abbrev stocked : Storage in_memory
stocked = record {
  db = record { name = codes "a"; filename = codes "x" } ∷ [];
  blobs = (codes "x", codes "x") ∷ [];
}

abbrev busy : Executor in_memory
busy = record {
  node = unassociated (eid (codes "dtn://e/")) NodeType.executor;
  storage = stocked;
  pending_jobs = waiting ∷ ready ∷ [];
}

abbrev left_over : Executor in_memory
left_over = record busy { pending_jobs = waiting ∷ [] }

search_run : pop_next_runnable_job in_memory readings busy ≡ (ok (some ready), left_over)
unfolding pop_next_runnable_job pop_loop find_missing required_named_data select text_eq
    is_capable_of set_of
search_run = refl

pop_rotates_example :
    ((any_runnable in_memory busy.storage readings 0 busy.pending_jobs ≡ false)
      × (pop_next_runnable_job in_memory readings busy ≡ (ok none, busy)))
    ⊎ ((before : List JobInfo) × (job : JobInfo) × (after : List JobInfo) × IsFirst in_memory
          busy.storage readings 0 busy.pending_jobs before after job
        × (pop_next_runnable_job in_memory readings busy
            ≡ (ok (some job), record busy { pending_jobs = after ++ before })))
pop_rotates_example = pop_rotates in_memory readings busy

busy_complete : All (HasBlob in_memory in_memory-IsLawful stocked) stocked.db
unfolding Dict.lookup text_eq
busy_complete = (λ e. absurd (cc), tt)

popped_job-readable_example :
    AllReadable in_memory in_memory-IsLawful (required_named_data ready) left_over.storage
    × ((k : ℕ) × (k < length busy.pending_jobs)
        × (is_capable_of (readings k) ready.capabilities ≡ true))
popped_job-readable_example =
    popped_job-readable in_memory in_memory-IsLawful readings busy left_over ready busy_complete
      search_run

-- A job that brings its module and lacks its standard input.
abbrev brought : Job
brought = record {
  metadata = record (job_info 3 (codes "n") small) { stdin_file = some (codes "i") };
  content = (codes "n", codes "z") ∷ [];
}

abbrev filled : Storage in_memory
filled = record {
  db =
      record { name = codes "a"; filename = codes "x" }
      ∷ record { name = codes "n"; filename = codes "z" }
      ∷ [];
  blobs = (codes "x", codes "x") ∷ (codes "z", codes "z") ∷ [];
}

brought_stored : store_each in_memory brought.content busy.storage ≡ (ok tt, filled)
unfolding store_each store_data select text_eq Dict.lookup Dict.put
brought_stored = refl

busy_named : truthy busy.node.node_id ≡ true
unfolding truthy text_eq
busy_named = refl

-- A job that brings a module under a name that is there.
abbrev repeated : Job
repeated = record {
  metadata = ready;
  content = (codes "z", codes "y") ∷ (codes "a", codes "x") ∷ [];
}

module_there : find (codes "a") stocked.db ≢ none
unfolding find text_eq
module_there = λ e. absurd (cc)

take_job-name_taken_example :
    (taken : Text) × (take_job in_memory repeated busy ≡ (
      err (name_taken taken),
      with_storage in_memory busy
          (store_each in_memory ((codes "z", codes "y") ∷ []) busy.storage).1,
    ))
take_job-name_taken_example =
    take_job-name_taken in_memory in_memory-IsLawful repeated ((codes "z", codes "y") ∷ [])
      (codes "a") (codes "x") [] busy refl module_there

abbrev idle : Executor in_memory
idle = record busy { storage = init in_memory }

-- An agent that fails always, and remembers what it was asked.
abbrev recorder : Agent (List Message)
recorder = λ m s. (err foreign, s ++ m ∷ [])

abbrev recorder-Logs : Logs (List Message) recorder
recorder-Logs = record { log = λ s. s; log-agent = λ m s. refl }

abbrev two_results : Dict Bytes
two_results = (codes "r", codes "1") ∷ (codes "q", codes "2") ∷ []

named_results_offered_example :
    ((send_named_results recorder busy.node two_results []).0 ≡ ok tt)
    × ((send_named_results recorder busy.node two_results []).1
        ≡ map (λ r. create (named_bundle busy.node r)) two_results)
named_results_offered_example =
    named_results_offered recorder recorder-Logs busy.node two_results [] busy_named
      (refl, (refl, tt))

abbrev delivery : BundleData
delivery = record (bundle BundleType.ndata_get (eid (codes "dtn://s/")) (eid (codes "dtn://e/"))) {
  payload = codes "w";
  named_data = one (codes "m");
}

module_missing : find_missing in_memory (required_named_data waiting) stocked ≡ codes "m" ∷ []
unfolding find_missing required_named_data set_of select text_eq
module_missing = refl

arrival_completes_example :
    (storage : Storage in_memory) × (handle_data in_memory delivery busy
      ≡ (ok tt, with_storage in_memory busy storage))
    × (job_has_all_inputs in_memory storage waiting ≡ true)
arrival_completes_example =
    arrival_completes in_memory in_memory-IsLawful waiting (codes "m") delivery busy refl
      module_missing
