-- ===== src/Capabilities/Tests.antt =====
-- Capabilities at concrete numbers (dtn/job.py).
use ma_sinafadavi_gpt.Base.{◌++◌, ◌≡◌, refl, true, pos, negsuc, [], ◌∷◌, Bytes, codes, ok, err}
use ma_sinafadavi_gpt.Base.Exceptions.{no_cores, negative, too_large}
use ma_sinafadavi_gpt.Wire.{put_if}
use ma_sinafadavi_gpt.Capabilities.{Capabilities, dictify, new, serialize, is_capable_of}
use ma_sinafadavi_gpt.Wire.Plain.{plain_codec}

abbrev small : Capabilities
small = record { cpu_cores = 4; free_cpu_capacity = 50; free_memory = 0; free_disk_space = 9 }

small_made : new (pos 4) (pos 50) (pos 0) (pos 9) ≡ ok small
unfolding new
small_made = refl

refusals :
    (new (pos 0) (pos 0) (pos 0) (pos 0) ≡ err no_cores)
    × (new (pos 1) (pos 0) (negsuc 0) (pos 0) ≡ err negative)
    × (new (pos 1) (pos 0) (pos 18446744073709551616) (pos 0) ≡ err too_large)
unfolding new
refusals = (refl, refl, refl)

self_capable : is_capable_of small small ≡ true
unfolding is_capable_of
self_capable = refl

abbrev small_bytes : Bytes
small_bytes =
    6 ∷ 1 ∷ 9 ∷ codes "cpu_cores"
    ++ (2 ∷ 4 ∷ 1 ∷ 17 ∷ codes "free_cpu_capacity"
        ++ (2 ∷ 50 ∷ 1 ∷ 15 ∷ codes "free_disk_space" ++ 2 ∷ 9 ∷ 0 ∷ []))

small_written : serialize plain_codec small ≡ ok small_bytes
unfolding serialize plain_codec dictify put_if
small_written = refl
