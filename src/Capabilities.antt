-- ===== src/Capabilities.antt =====
-- System resources (dtn/job.py, `Capabilities`): the checks of `__post_init__`, the dictionary form,
-- `serialize` and `deserialize`, and the comparison of what a system has with what a job needs.
pub mod Laws
mod Tests
use ma_sinafadavi_gpt.Base.{
  ℕ, zero, suc, ◌-◌, ◌^◌, ◌≡◌, ℤ, pos, negsuc, Bool, true, false, not, ◌&&◌, ◌||◌, Option, none,
  some, List, [], ◌∷◌, Text, Bytes, codes, Result, ok, err, Error, ◌>>=◌, ◌>>◌, guard, leb, ltb,
  ◌==◌, if◌then◌else◌,
}
use ma_sinafadavi_gpt.Base.Exceptions.{no_cores, negative, too_large, type_error}
use ma_sinafadavi_gpt.Wire.{
  Value, Fields, int, obj, end, get, put_if, only_keys, as_nat, as_obj, Codec,
}

-- `MSGPACK_MAXINT` (dtn/messages.py)
abbrev pub max_int : ℕ
max_int = 2 ^ 64 - 1

pub record Capabilities : Type 0 where
  pub cpu_cores : ℕ
  pub free_cpu_capacity : ℕ
  pub free_memory : ℕ
  pub free_disk_space : ℕ

-- `if value < 0: raise …`
natural : ℤ → Result ℕ
natural (pos n) = ok n
natural (negsuc n) = err negative

-- `if cpu_cores <= 0: raise …`
positive : ℤ → Result ℕ
positive (pos zero) = err no_cores
positive (pos (suc n)) = ok (suc n)
positive (negsuc n) = err no_cores

-- `Capabilities(…)`
unfoldable pub new : ℤ → ℤ → ℤ → ℤ → Result Capabilities
unfolding natural positive
new cores capacity memory disk = do
  cores' ← positive cores
  capacity' ← natural capacity
  memory' ← natural memory
  disk' ← natural disk
  guard
      (not
        (ltb max_int cores' || ltb max_int capacity' || ltb max_int memory' || ltb max_int disk'))
      too_large
  ok (record {
    cpu_cores = cores';
    free_cpu_capacity = capacity';
    free_memory = memory';
    free_disk_space = disk';
  })

-- `dictify`: what is 0 is left out.
unfoldable pub dictify : Capabilities → Fields
dictify c = put_if (not (c.cpu_cores == 0)) (codes "cpu_cores") (int c.cpu_cores) (
    put_if (not (c.free_cpu_capacity == 0)) (codes "free_cpu_capacity") (int c.free_cpu_capacity) (
      put_if (not (c.free_memory == 0)) (codes "free_memory") (int c.free_memory) (
        put_if (not (c.free_disk_space == 0)) (codes "free_disk_space") (int c.free_disk_space)
          end)))

abbrev pub field_names : List Text
field_names =
    codes "cpu_cores"
    ∷ codes "free_cpu_capacity"
    ∷ codes "free_memory"
    ∷ codes "free_disk_space"
    ∷ []

-- An argument that may be left out.
default : ℕ → Option Value → Result ℕ
default d none = ok d
default d (some v) = as_nat v

-- `from_dict`
unfoldable pub from_dict : Fields → Result Capabilities
unfolding default new
from_dict d = do
  guard (only_keys field_names d) type_error
  cores ← default 1 (get (codes "cpu_cores") d)
  capacity ← default 0 (get (codes "free_cpu_capacity") d)
  memory ← default 0 (get (codes "free_memory") d)
  disk ← default 0 (get (codes "free_disk_space") d)
  new (pos cores) (pos capacity) (pos memory) (pos disk)

module _ (codec : Codec) where
  -- `serialize`
  unfoldable pub serialize : Capabilities → Result Bytes
  serialize c = codec.packb (obj (dictify c))

  -- `deserialize`
  unfoldable pub deserialize : Bytes → Result Capabilities
  deserialize serialized = do v ← codec.unpackb serialized; d ← as_obj v; from_dict d

-- `self.is_capable_of(caps)`
unfoldable pub is_capable_of : Capabilities → Capabilities → Bool
is_capable_of self caps =
    leb caps.cpu_cores self.cpu_cores
    && leb caps.free_cpu_capacity self.free_cpu_capacity
    && leb caps.free_memory self.free_memory
    && leb caps.free_disk_space self.free_disk_space
