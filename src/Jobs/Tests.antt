-- ===== src/Jobs/Tests.antt =====
-- Jobs with concrete data (dtn/job.py).
use ma_sinafadavi_gpt.Base.{some, [], ◌∷◌, codes}
use ma_sinafadavi_gpt.Capabilities.{Capabilities}
use ma_sinafadavi_gpt.Jobs.{JobInfo, Job, job_info}

abbrev small : Capabilities
small = record { cpu_cores = 1; free_cpu_capacity = 0; free_memory = 0; free_disk_space = 0 }

-- A job that reads its standard input and a file, and brings its module.
abbrev described : JobInfo
described = record (job_info 7 (codes "m") small) {
  stdin_file = some (codes "i");
  inputs = (codes "/f", codes "d") ∷ [];
}

abbrev job : Job
job = record { metadata = described; content = (codes "m", codes "x") ∷ [] }
