-- ===== src/Executor/Scheduler/Tests.antt =====
-- A round of the scheduler with concrete data (dtn/executor.py).
use ma_sinafadavi_gpt.Base.{
  ◌≡◌, refl, true, false, none, List, Text, [], ◌∷◌, ◌++◌, codes, text_eq, select, split, ok, err,
}
use ma_sinafadavi_gpt.Base.Dict
use ma_sinafadavi_gpt.Base.Exceptions.{foreign, escapes}
use ma_sinafadavi_gpt.Bundles.NodeType
use ma_sinafadavi_gpt.Capabilities.{Capabilities}
use ma_sinafadavi_gpt.Eid.{eid}
use ma_sinafadavi_gpt.Jobs.{JobInfo, job_info}
use ma_sinafadavi_gpt.Messages.{Message}
use ma_sinafadavi_gpt.Node.{unassociated}
use ma_sinafadavi_gpt.Node.Agent.{Agent}
use ma_sinafadavi_gpt.Storage.{Storage, init, store_data, copy_to_file}
use ma_sinafadavi_gpt.Storage.Invariant.{IsValid, init-IsValid, store_data-IsValid}
use ma_sinafadavi_gpt.Storage.Memory.{in_memory, in_memory-IsLawful}
use ma_sinafadavi_gpt.Executor.{Readings, pop_next_runnable_job}
use ma_sinafadavi_gpt.Executor.Directory.{
  Location, Disks, prepare, locate, target, is_relative_to, join, strip_slashes, parent,
}
use ma_sinafadavi_gpt.Executor.Directory.Collect.{Zip}
use ma_sinafadavi_gpt.Executor.Directory.Memory.{Memory, memory, exists-rmtree}
use ma_sinafadavi_gpt.Executor.Scheduler.{Outcome, Runtime, World, run_in, scheduler_round}
use ma_sinafadavi_gpt.Executor.Scheduler.Laws.{IsRemoving, run_in-removed, scheduler_round_lem}

abbrev small : Capabilities
small = record { cpu_cores = 1; free_cpu_capacity = 0; free_memory = 0; free_disk_space = 0 }

abbrev job : JobInfo
job = job_info 1 (codes "m") small

-- A storage that holds the module of the job.
abbrev stocked : Storage in_memory
stocked = (store_data in_memory (codes "m") (codes "x") (init in_memory)).1

stocked-IsValid : IsValid in_memory in_memory-IsLawful stocked
stocked-IsValid =
    store_data-IsValid in_memory in_memory-IsLawful (codes "m") (codes "x") (init in_memory)
      (init-IsValid in_memory in_memory-IsLawful)

abbrev no_files : Zip
no_files files = []

-- A runtime in which every module traps.
abbrev trapping : Runtime Memory
trapping _ wasm_file stdin_path data_dir s = (err foreign, s)

abbrev silent : Agent (List Message)
silent m s = (err foreign, m ∷ s)

abbrev world : World Memory (List Message) in_memory
world = record {
  executor = record {
    node = unassociated (eid (codes "dtn://e/")) NodeType.executor;
    storage = stocked;
    pending_jobs = job ∷ [];
  };
  disk = record { places = []; files = [] };
  agent = [];
}

abbrev readings : Readings
readings k = small

abbrev root : Location
root = codes "e" ∷ []

abbrev named : JobInfo → Text
named j = codes "job-1"

scheduler_round_lem_example :
    ((scheduler_round memory in_memory silent no_files trapping root named readings world).0
      ≡ ok tt)
    × IsValid in_memory in_memory-IsLawful
        (scheduler_round memory in_memory silent no_files trapping root named readings
          world).1.executor.storage
    × ((scheduler_round memory in_memory silent no_files trapping root named readings
          world).1.executor.pending_jobs
        ≡ (pop_next_runnable_job in_memory readings world.executor).1.pending_jobs)
scheduler_round_lem_example =
    scheduler_round_lem memory in_memory in_memory-IsLawful silent no_files trapping root named
      readings world stocked-IsValid

memory-IsRemoving : IsRemoving memory
memory-IsRemoving = record { exists-rmtree = exists-rmtree }

abbrev before : Disks memory in_memory
before = (world.disk, stocked)

abbrev data_dir : Location
data_dir = root ++ codes "data" ∷ []

abbrev module_place : Location
module_place = root ++ codes "module.wasm" ∷ []

abbrev prepared : Disks memory in_memory
prepared = (
  record { places = root ∷ module_place ∷ data_dir ∷ []; files = (module_place, codes "x") ∷ [] },
  stocked,
)

job-prepared :
    prepare memory in_memory job root before ≡ (ok (module_place, none, data_dir), prepared)
unfolding prepare memory copy_to_file select store_data Dict.lookup text_eq Dict.put
job-prepared = refl

run_in-removed_example :
    (outcome : Outcome) × ((run_in memory in_memory no_files trapping job root before).0
      ≡ ok outcome)
    × (memory.exists root (run_in memory in_memory no_files trapping job root before).1.0 ≡ false)
run_in-removed_example =
    run_in-removed memory in_memory no_files trapping job root before prepared
      (module_place, none, data_dir) memory-IsRemoving job-prepared

-- A job with a directory that leads out of its data directory.
abbrev leaving : JobInfo
leaving = record job { dirs = codes ".." ∷ [] }

leaving_refused :
    prepare memory in_memory leaving root before ≡ (err (escapes (codes "..")), prepared)
unfolding prepare memory copy_to_file select store_data Dict.lookup text_eq Dict.put locate target
    is_relative_to join split strip_slashes parent
leaving_refused = refl

-- The directory of the job stays on the disk.
root_there : memory.exists root prepared.0 ≡ true
unfolding memory is_relative_to text_eq
root_there = refl
