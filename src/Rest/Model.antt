-- ===== src/Rest/Model.antt =====
-- The data of the REST variant (rest/model.py). Its floats are finite; they are only compared, and stand
-- here as integers, multiples of the smallest float above zero.
use ma_sinafadavi_gpt.Base.{
  ℕ, ℤ, lez, lez_refl, lez_trans, ◌≡◌, Bool, true, false, not, ◌&&◌, List, Text, arith,
  if◌then◌else◌,
}
use ma_sinafadavi_gpt.Base.Dict.{Dict}

pub record Address : Type 0 where
  pub host : Text
  pub port : ℕ

pub record Capabilities : Type 0 where
  pub memory : ℤ
  pub disk : ℤ
  pub cpu_load : ℤ
  pub cpu_cores : ℤ
  pub cpu_freq : ℤ
  pub has_battery : Bool
  pub power : ℤ

-- `self.is_capable(caps)`
unfoldable pub is_capable : Capabilities → Capabilities → Bool
is_capable self caps =
    let suffices =
      lez caps.memory self.memory
      && lez caps.disk self.disk
      && lez self.cpu_load caps.cpu_load
      && lez caps.cpu_cores self.cpu_cores
      && lez caps.cpu_freq self.cpu_freq in
    let mains_only = not caps.has_battery && self.has_battery in
    (if mains_only then false else suffices)
    && (if self.has_battery then lez caps.power self.power else true)

-- A file by its name on the client, or by its name and the path where it is put.
pub data Source : Type 0 where
  name : Text → Source
  placed : Text → Text → Source

pub record JobInfo : Type 0 where
  pub wasm_bin : Source
  pub wasm_bin_is_named : Bool
  pub stdin : Source
  pub stdin_is_named : Bool
  pub job_data : Dict Text
  pub named_data : Dict Text
  pub directories : List Text
  pub args : List Text
  pub env : Dict Text
  pub zip_results : Dict Text
  pub named_results : Dict Text
  pub capabilities : Capabilities
  pub result_addr : Address
  pub delete : Bool

-- Every system can do what it offers.
pub is_capable_refl : (a : Capabilities) → is_capable a a ≡ true
unfolding is_capable
is_capable_refl a = ground (
  arith,
  lez_refl a.memory,
  lez_refl a.disk,
  lez_refl a.cpu_load,
  lez_refl a.cpu_cores,
  lez_refl a.cpu_freq,
  lez_refl a.power,
)

-- A system that can do what another one offers can do what that one can do, batteries included.
pub is_capable_trans :
    (a b c : Capabilities) → is_capable a b ≡ true → is_capable b c ≡ true → is_capable a c ≡ true
unfolding is_capable
is_capable_trans a b c h k = ground (
  arith,
  lez_trans c.memory b.memory a.memory,
  lez_trans c.disk b.disk a.disk,
  lez_trans a.cpu_load b.cpu_load c.cpu_load,
  lez_trans c.cpu_cores b.cpu_cores a.cpu_cores,
  lez_trans c.cpu_freq b.cpu_freq a.cpu_freq,
  lez_trans c.power b.power a.power,
)
