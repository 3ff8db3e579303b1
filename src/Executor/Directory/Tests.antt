-- ===== src/Executor/Directory/Tests.antt =====
-- Job directories with concrete paths (dtn/executor.py).
use ma_sinafadavi_gpt.Base.{
  ◌≡◌, refl, inl, some, [], ◌∷◌, ◌++◌, Bytes, codes, text_eq, select, split, All, ok, err,
}
use ma_sinafadavi_gpt.Base.Dict
use ma_sinafadavi_gpt.Base.Dict.{Dict}
use ma_sinafadavi_gpt.Base.Exceptions.{escapes}
use ma_sinafadavi_gpt.Jobs.{JobInfo, job_info}
use ma_sinafadavi_gpt.Storage.{init}
use ma_sinafadavi_gpt.Storage.Memory.{in_memory}
use ma_sinafadavi_gpt.Executor.Directory.{
  Location, Disks, fill, locate, target, is_relative_to, join, strip_slashes, parent,
}
use ma_sinafadavi_gpt.Executor.Directory.Collect.{Zip, collect_named_results}
use ma_sinafadavi_gpt.Executor.Directory.Collect.Sound.{Some, Gives, collect_named_results_sound}
use ma_sinafadavi_gpt.Executor.Directory.Inside.{IsInside, fill-IsInside}
use ma_sinafadavi_gpt.Executor.Directory.Memory.{Memory, memory, memory-Log}

abbrev data_dir : Location
data_dir = codes "j" ∷ codes "data" ∷ []

-- A job with a directory, and a path that leads out of the data directory.
abbrev leaving : JobInfo
leaving =
    record (job_info 1 (codes "m")
      (record { cpu_cores = 1; free_cpu_capacity = 0; free_memory = 0; free_disk_space = 0 })) {
        dirs = codes "/a/b" ∷ codes "a/../../x" ∷ [];
        named_results = (codes "r", codes "n") ∷ [];
      }

abbrev made : Disks memory in_memory
made = (record { places = data_dir ∷ []; files = [] }, init in_memory)

abbrev filled : Disks memory in_memory
filled = (
  record { places = data_dir ∷ (data_dir ++ codes "a" ∷ codes "b" ∷ []) ∷ []; files = [] },
  init in_memory,
)

leaving_refused :
    fill memory in_memory leaving data_dir made ≡ (err (escapes (codes "a/../../x")), filled)
unfolding fill locate target memory is_relative_to join text_eq select split strip_slashes parent
leaving_refused = refl

fill-IsInside_example :
    All (IsInside data_dir) (fill memory in_memory leaving data_dir made).1.0.places
unfolding memory-Log is_relative_to text_eq
fill-IsInside_example =
    fill-IsInside memory in_memory memory-Log data_dir leaving made (inl refl, tt)

-- A disk with a result.
abbrev finished : Memory
finished = record {
  places = data_dir ∷ (data_dir ++ codes "r" ∷ []) ∷ [];
  files = (data_dir ++ codes "r" ∷ [], codes "z") ∷ [];
}

abbrev first_file : Zip
first_file [] = []
first_file ((l, content) ∷ files) = content

abbrev collected : Dict Bytes
collected = (codes "n", codes "z") ∷ []

finished-collected :
    collect_named_results memory first_file leaving (codes "j" ∷ []) finished ≡ ok collected
unfolding collect_named_results memory target is_relative_to text_eq join select split strip_slashes
    Dict.put
finished-collected = refl

collected_there : Dict.lookup (codes "n") collected ≡ some (codes "z")
unfolding Dict.lookup text_eq
collected_there = refl

collect_named_results_sound_example :
    (place : Location) × (memory.resolve (codes "j" ∷ codes "data" ∷ []) finished ≡ ok place)
    × Some (Gives memory first_file place finished (codes "n") (codes "z")) leaving.named_results
collect_named_results_sound_example =
    collect_named_results_sound memory first_file leaving (codes "j" ∷ []) finished collected
      (codes "n") (codes "z") finished-collected collected_there
