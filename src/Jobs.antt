-- ===== src/Jobs.antt =====
-- Jobs (dtn/job.py): `JobInfo` with its check and its dictionary form, `Job`, and the named data
-- that a job needs. The proofs are in the modules below this one.
pub mod Uuid
pub mod Required
pub mod Reading
mod Tests
use ma_sinafadavi_gpt.Base.{
  ℕ, ◌≡◌, Bool, true, false, not, ◌&&◌, ◌||◌, Option, none, some, List, [], ◌∷◌, ◌++◌, Text, Bytes,
  codes, text_eq, member, is_empty, select, all, map, Result, ok, err, ◌>>=◌, ◌>>◌, guard, ◌==◌,
  if◌then◌else◌,
}
use ma_sinafadavi_gpt.Base.Dict.{Dict}
use ma_sinafadavi_gpt.Base.Exceptions.{no_wasm_module}
use ma_sinafadavi_gpt.Eid.{Endpoint, eid, dtn_none, text_of, truthy}
use ma_sinafadavi_gpt.Wire.{
  Value, Values, Fields, str, bin, arr, obj, nil, cons, end, field, put_if, texts,
}
use ma_sinafadavi_gpt.Capabilities
use ma_sinafadavi_gpt.Capabilities.{Capabilities}
use Uuid.{uuid_text}

pub record JobInfo : Type 0 where
  pub job_id : ℕ
  pub wasm_module : Text
  pub capabilities : Capabilities
  pub submitter : Endpoint
  pub results_receiver : Endpoint
  pub argv : List Text
  pub env : Dict Text
  pub stdin_file : Option Text
  pub dirs : List Text
  pub inputs : Dict Text
  pub stdout_file : Option Text
  pub stderr_file : Option Text
  pub results : List Text
  pub named_results : Dict Text

-- The fields that have defaults, at their defaults.
abbrev pub job_info : ℕ → Text → Capabilities → JobInfo
job_info job_id wasm_module capabilities = record {
  job_id = job_id;
  wasm_module = wasm_module;
  capabilities = capabilities;
  submitter = eid dtn_none;
  results_receiver = eid dtn_none;
  argv = [];
  env = [];
  stdin_file = none;
  dirs = [];
  inputs = [];
  stdout_file = none;
  stderr_file = none;
  results = [];
  named_results = [];
}

-- `JobInfo(…)`. An instance of `UUID` is never false, so its first check cannot fail.
unfoldable pub new : JobInfo → Result JobInfo
new j = do guard (not (is_empty j.wasm_module)) no_wasm_module; ok j

-- `JobInfo.__eq__`, which `__hash__` agrees with
unfoldable pub same_job : JobInfo → JobInfo → Bool
same_job a b = a.job_id == b.job_id

-- `value` of an optional text, and whether it is true
abbrev pub is_set : Option Text → Bool
is_set none = false
is_set (some t) = not (is_empty t)

value_of : Option Text → Value
value_of none = str []
value_of (some t) = str t

fields_of : Dict Text → Fields
fields_of [] = end
fields_of ((k, v) ∷ d) = field k (str v) (fields_of d)

-- An entry of the dictionary for a list and for a dict.
put_list : Text → List Text → Fields → Fields
put_list name ts = put_if (not (is_empty ts)) name (arr (texts ts))

put_dict : Text → Dict Text → Fields → Fields
unfolding fields_of
put_dict name d = put_if (not (is_empty d)) name (obj (fields_of d))

put_text : Text → Option Text → Fields → Fields
unfolding value_of
put_text name t = put_if (is_set t) name (value_of t)

put_eid : Text → Endpoint → Fields → Fields
put_eid name e = put_if (truthy e) name (str (text_of e))

-- `JobInfo.dictify`
unfoldable pub dictify : JobInfo → Fields
unfolding put_list put_dict put_text put_eid
dictify j = field (codes "job_id") (str (uuid_text j.job_id)) (
    put_if (not (is_empty j.wasm_module)) (codes "wasm_module") (str j.wasm_module) (
      field (codes "capabilities") (obj (Capabilities.dictify j.capabilities)) (
        put_eid (codes "submitter") j.submitter (
          put_eid (codes "results_receiver") j.results_receiver (
            put_list (codes "argv") j.argv (
              put_dict (codes "env") j.env (
                put_text (codes "stdin_file") j.stdin_file (
                  put_list (codes "dirs") j.dirs (
                    put_dict (codes "data") j.inputs (
                      put_text (codes "stdout_file") j.stdout_file (
                        put_text (codes "stderr_file") j.stderr_file (
                          put_list (codes "results") j.results
                            (put_dict (codes "named_results") j.named_results end)))))))))))))

-- `dictify_job_infos`
unfoldable pub dictify_job_infos : List JobInfo → Values
dictify_job_infos [] = nil
dictify_job_infos (j ∷ js) = cons (obj (dictify j)) (dictify_job_infos js)

-- `set(names)`, in the order of the first occurrences
unfoldable pub set_of : List Text → List Text
set_of [] = []
set_of (n ∷ names) = n ∷ select (λ m. not (text_eq m n)) (set_of names)

-- `d.values()` and `d.keys()`
unfoldable pub values {ℓ} : {V : Type ℓ} → Dict V → List V
values [] = []
values ((k, v) ∷ d) = v ∷ values d

unfoldable pub keys {ℓ} : {V : Type ℓ} → Dict V → List Text
keys [] = []
keys ((k, v) ∷ d) = k ∷ keys d

with_stdin : Option Text → List Text → List Text
with_stdin none rest = rest
with_stdin (some t) rest = if is_empty t then rest else t ∷ rest

-- `required_named_data`
unfoldable pub required_named_data : JobInfo → List Text
unfolding with_stdin values
required_named_data j = set_of (j.wasm_module ∷ with_stdin j.stdin_file (values j.inputs))

pub record Job : Type 0 where
  pub metadata : JobInfo
  pub content : Dict Bytes

-- `has_all_data`
unfoldable pub has_all_data : Job → Bool
has_all_data job = all (λ n. member n (keys job.content)) (required_named_data job.metadata)

-- `missing_data`
unfoldable pub missing_data : Job → List Text
missing_data job =
    select (λ n. not (member n (keys job.content))) (required_named_data job.metadata)
