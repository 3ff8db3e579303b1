-- ===== src/Executor/Handling/Tests.antt =====
-- Bundles that an executor with a store in memory handles (dtn/executor.py).
use ma_sinafadavi_gpt.Base.{
  ◌≡◌, refl, true, some, [], ◌∷◌, ◌++◌, Bytes, codes, text_eq, select, is_empty, ok, arith,
  if◌then◌else◌,
}
use ma_sinafadavi_gpt.Base.Dict
use ma_sinafadavi_gpt.Bundles.{BundleData, bundle}
use ma_sinafadavi_gpt.Bundles.BundleType
use ma_sinafadavi_gpt.Bundles.NodeType
use ma_sinafadavi_gpt.Eid.{eid, truthy}
use ma_sinafadavi_gpt.Jobs.{Job, job_info, required_named_data}
use ma_sinafadavi_gpt.Jobs.Reading.{dictify_job, serialize}
use ma_sinafadavi_gpt.Jobs.Reading.RoundTrip.{IsSendable, received}
use ma_sinafadavi_gpt.Node.{unassociated, round}
use ma_sinafadavi_gpt.Messages.{fetch_reply}
use ma_sinafadavi_gpt.Storage.{Storage, init, store_data, find_missing}
use ma_sinafadavi_gpt.Storage.Invariant.{IsValid, init-IsValid}
use ma_sinafadavi_gpt.Storage.Memory.{in_memory, in_memory-IsLawful}
use ma_sinafadavi_gpt.Wire.{obj}
use ma_sinafadavi_gpt.Wire.Plain.{plain_codec, plain_codec-IsLawful, encode}
use ma_sinafadavi_gpt.Executor.{Executor, store_each, data_request}
use ma_sinafadavi_gpt.Executor.Handling.{handle_bundle}
use ma_sinafadavi_gpt.Executor.Handling.Laws.{submitted_job-queued, executor_round-IsValid}

abbrev idle : Executor in_memory
idle = record {
  node = unassociated (eid (codes "dtn://e/")) NodeType.executor;
  storage = init in_memory;
  pending_jobs = [];
}

-- A job that brings its module and lacks its standard input.
abbrev brought : Job
brought = record {
  metadata =
      record (job_info 3 (codes "n")
        (record { cpu_cores = 1; free_cpu_capacity = 0; free_memory = 0; free_disk_space = 0 })) {
          stdin_file = some (codes "i");
        };
  content = (codes "n", codes "z") ∷ [];
}

brought-IsSendable : IsSendable brought.metadata
brought-IsSendable = record {
  has_module = refl;
  is_uuid = omega arith;
  checked = record {
    has_core = omega arith;
    cores_fit = omega arith;
    capacity_fits = omega arith;
    memory_fits = omega arith;
    disk_fits = omega arith;
  };
}

abbrev packed : Bytes
packed = encode (obj (dictify_job brought))

abbrev submission : BundleData
submission =
    record (bundle BundleType.job_submit (eid (codes "dtn://c/")) (eid (codes "dtn://e/"))) {
      payload = packed;
    }

abbrev filled : Storage in_memory
filled = record {
  db = record { name = codes "n"; filename = codes "z" } ∷ [];
  blobs = (codes "z", codes "z") ∷ [];
}

brought_stored : store_each in_memory brought.content idle.storage ≡ (ok tt, filled)
unfolding store_each store_data select text_eq Dict.lookup Dict.put
brought_stored = refl

idle_named : truthy idle.node.node_id ≡ true
unfolding truthy text_eq
idle_named = refl

brought-packed : serialize plain_codec brought ≡ ok packed
unfolding serialize plain_codec
brought-packed = refl

submitted_job-queued_example : handle_bundle in_memory plain_codec submission idle ≡ (
  ok (
      if is_empty (find_missing in_memory (required_named_data brought.metadata) filled)
      then []
      else data_request in_memory idle
          (find_missing in_memory (required_named_data brought.metadata) filled)
        ∷ []),
  record idle { storage = filled; pending_jobs = [] ++ received brought.metadata ∷ [] },
)
submitted_job-queued_example =
    submitted_job-queued in_memory in_memory-IsLawful plain_codec submission idle brought filled
      plain_codec-IsLawful brought-IsSendable refl brought-packed idle_named brought_stored

executor_round-IsValid_example :
    IsValid in_memory in_memory-IsLawful
      (round
        (handle_bundle in_memory plain_codec)
        (ok (fetch_reply true [] (submission ∷ submission ∷ [])))
        idle).1.storage
executor_round-IsValid_example =
    executor_round-IsValid in_memory in_memory-IsLawful plain_codec
      (ok (fetch_reply true [] (submission ∷ submission ∷ []))) idle
      (init-IsValid in_memory in_memory-IsLawful)
