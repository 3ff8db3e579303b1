-- ===== src/Jobs/Reading/Tests.antt =====
-- Jobs that are written and read again (dtn/job.py).
use ma_sinafadavi_gpt.Base.{◌≡◌, refl, some, [], ◌∷◌, Bytes, codes, select, starts_with, ok, arith}
use ma_sinafadavi_gpt.Eid.{eid}
use ma_sinafadavi_gpt.Eid.Number.{clean}
use ma_sinafadavi_gpt.Jobs.{Job, JobInfo, job_info}
use ma_sinafadavi_gpt.Jobs.Uuid.{
  uuid_of, without_dashes, strip_braces, remove_from, parse_hex, scan_hex, hex_value,
}
use ma_sinafadavi_gpt.Jobs.Reading.{dictify_job, serialize, deserialize}
use ma_sinafadavi_gpt.Jobs.Reading.RoundTrip.{IsSendable, received_job, job_round_trip}
use ma_sinafadavi_gpt.Wire.{obj}
use ma_sinafadavi_gpt.Wire.Plain.{plain_codec, plain_codec-IsLawful, encode}

abbrev described : JobInfo
described =
    record (job_info 258 (codes "m")
      (record { cpu_cores = 2; free_cpu_capacity = 0; free_memory = 7; free_disk_space = 0 })) {
        submitter = eid (codes "dtn://c/");
        stdin_file = some (codes "i");
        inputs = (codes "/f", codes "d") ∷ [];
      }

abbrev job : Job
job = record { metadata = described; content = (codes "m", codes "x") ∷ [] }

described-IsSendable : IsSendable described
described-IsSendable = record {
  has_module = refl;
  is_uuid = omega arith;
  checked = record {
    has_core = omega arith;
    cores_fit = omega arith;
    capacity_fits = omega arith;
    memory_fits = omega arith;
    disk_fits = omega arith;
  };
}

abbrev packed : Bytes
packed = encode (obj (dictify_job job))

job_round_trip_example : deserialize plain_codec packed ≡ ok (received_job job)
unfolding plain_codec serialize
job_round_trip_example =
    job_round_trip plain_codec job packed plain_codec-IsLawful described-IsSendable refl

-- The forms of a UUID that Python reads, and one that it refuses.
read_braced : uuid_of (codes "{urn:uuid:00000000-0000-0000-0000-0000000001Ff}") ≡ some 511
unfolding uuid_of without_dashes select strip_braces remove_from starts_with parse_hex scan_hex
    clean hex_value
read_braced = refl
