-- ===== src/Capabilities/Laws.antt =====
-- What `Capabilities` promises (dtn/job.py).
use ma_sinafadavi_gpt.Base.{
  ℕ, zero, suc, ◌≤◌, ◌<◌, ◌≡◌, ◌↔◌, refl, ℤ, pos, negsuc, true, not, none, some, Bytes, codes,
  text_eq, ok, arith, ◌==◌, if◌then◌else◌,
}
use ma_sinafadavi_gpt.Wire.{
  int, obj, get, only_keys, one_of, as_nat, as_obj, Codec, IsLawful, get-put_if, get-end,
  only_keys-put_if,
}
use ma_sinafadavi_gpt.Capabilities.{
  Capabilities, max_int, new, positive, dictify, from_dict, default, field_names, serialize,
  deserialize, is_capable_of,
}

-- What the checks let through: a core at least, and numbers that `msgpack` can write.
pub record IsChecked (c : Capabilities) : Type 0 where
  pub has_core : 0 < c.cpu_cores
  pub cores_fit : c.cpu_cores ≤ max_int
  pub capacity_fits : c.free_cpu_capacity ≤ max_int
  pub memory_fits : c.free_memory ≤ max_int
  pub disk_fits : c.free_disk_space ≤ max_int

-- Every `Capabilities` that was made has a core, and no number above `MSGPACK_MAXINT`.
pub new-IsChecked :
    (cores capacity memory disk : ℤ) (c : Capabilities)
    → new cores capacity memory disk ≡ ok c
    → IsChecked c
unfolding new
new-IsChecked (pos zero) capacity memory disk c h = cc
new-IsChecked (negsuc n) capacity memory disk c h = cc
new-IsChecked (pos (suc n)) (pos a) (pos m) (pos d) c h = ground arith
new-IsChecked (pos (suc n)) (negsuc a) memory disk c h = cc
new-IsChecked (pos (suc n)) (pos a) (negsuc m) disk c h = cc
new-IsChecked (pos (suc n)) (pos a) (pos m) (negsuc d) c h = cc

positive_ok : (n : ℕ) → 0 < n → positive (pos n) ≡ ok n
unfolding positive
positive_ok zero h = absurd (omega arith)
positive_ok (suc n) h = refl

new_ok :
    (c : Capabilities)
    → IsChecked c
    → new (pos c.cpu_cores) (pos c.free_cpu_capacity) (pos c.free_memory) (pos c.free_disk_space)
      ≡ ok c
unfolding new
new_ok c h = ground (arith, positive_ok c.cpu_cores h.has_core)

kept_nat : (n : ℕ) → default 0 (if not (n == 0) then some (int n) else none) ≡ ok n
unfolding default as_nat
kept_nat zero = refl
kept_nat (suc n) = ground arith

ruleset dict_laws = (get-put_if, get-end)

module _ (c : Capabilities) where
  read_cores : 0 < c.cpu_cores → default 1 (get (codes "cpu_cores") (dictify c)) ≡ ok c.cpu_cores
  unfolding dictify text_eq default as_nat
  read_cores h = simp dict_laws (ground arith)

  read_capacity : default 0 (get (codes "free_cpu_capacity") (dictify c)) ≡ ok c.free_cpu_capacity
  unfolding dictify text_eq
  read_capacity = simp dict_laws (kept_nat c.free_cpu_capacity)

  read_memory : default 0 (get (codes "free_memory") (dictify c)) ≡ ok c.free_memory
  unfolding dictify text_eq
  read_memory = simp dict_laws (kept_nat c.free_memory)

  read_disk : default 0 (get (codes "free_disk_space") (dictify c)) ≡ ok c.free_disk_space
  unfolding dictify text_eq
  read_disk = simp dict_laws (kept_nat c.free_disk_space)

  dictify_keys : only_keys field_names (dictify c) ≡ true
  unfolding dictify text_eq one_of only_keys
  dictify_keys = simp only_keys-put_if

-- Capabilities that passed the checks are read back, equal, from their dictionary.
pub from_dict-dictify : (c : Capabilities) → IsChecked c → from_dict (dictify c) ≡ ok c
unfolding from_dict
from_dict-dictify c h =
    rw (dictify_keys c, read_cores c h.has_core, read_capacity c, read_memory c, read_disk c)
      (new_ok c h)

-- What `Capabilities(…)` returned is read back, equal, from the bytes that `serialize` returned.
pub capabilities_round_trip :
    (codec : Codec) (cores capacity memory disk : ℤ) (c : Capabilities) (b : Bytes)
    → IsLawful codec
    → new cores capacity memory disk ≡ ok c
    → serialize codec c ≡ ok b
    → deserialize codec b ≡ ok c
unfolding serialize deserialize as_obj
capabilities_round_trip codec cores capacity memory disk c b law made e =
    rw (law.unpackb-packb (obj (dictify c)) b e)
      (from_dict-dictify c (new-IsChecked cores capacity memory disk c made))

-- The test holds exactly when each of the four resources suffices.
is_capable_of_iff :
    (self caps : Capabilities)
    → (is_capable_of self caps ≡ true) ↔ (
        (caps.cpu_cores ≤ self.cpu_cores)
        × (caps.free_cpu_capacity ≤ self.free_cpu_capacity)
        × (caps.free_memory ≤ self.free_memory)
        × (caps.free_disk_space ≤ self.free_disk_space))
unfolding is_capable_of
is_capable_of_iff self caps = (λ h. ground arith, λ h. ground arith)

-- A system that can do what another one offers can run every job that the other one can run.
pub is_capable_of_trans :
    (a b c : Capabilities)
    → is_capable_of a b ≡ true
    → is_capable_of b c ≡ true
    → is_capable_of a c ≡ true
unfolding is_capable_of
is_capable_of_trans a b c p q = ground arith
