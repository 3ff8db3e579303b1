-- ===== src/Jobs/Reading.antt =====
-- Reading jobs (dtn/job.py): `from_dict` and `deserialize` of `JobInfo` and `Job`, and the dictionary
-- of a `Job`. What the two `UUID`s and the texts of endpoints become is as Python leaves it: nothing
-- makes an `EID` of an endpoint's text.
pub mod RoundTrip
mod Tests
use ma_sinafadavi_gpt.Base.{
  ℕ, Bool, true, false, Option, none, some, List, [], ◌∷◌, Text, Bytes, codes, Result, ok, err,
  Error, ◌>>=◌, ◌>>◌, guard,
}
use ma_sinafadavi_gpt.Base.Dict.{Dict}
use ma_sinafadavi_gpt.Base.Exceptions.{bad_uuid, key_error, type_error, ill_typed}
use ma_sinafadavi_gpt.Eid.{Endpoint, eid, plain, dtn_none}
use ma_sinafadavi_gpt.Wire.{
  Value, Values, Fields, null, str, bin, arr, obj, nil, cons, end, field, get, only_keys, need,
  as_text, as_texts, as_bytes, as_obj, Codec,
}
use ma_sinafadavi_gpt.Capabilities
use ma_sinafadavi_gpt.Capabilities.{Capabilities}
use ma_sinafadavi_gpt.Jobs.{JobInfo, Job, new, dictify}
use ma_sinafadavi_gpt.Jobs.Uuid.{uuid_of}

-- `UUID(value)`
uuid_from : Option ℕ → Result ℕ
uuid_from none = err bad_uuid
uuid_from (some n) = ok n

-- A dictionary whose values are texts, and one whose values are bytes.
texts_from : Fields → Result (Dict Text)
texts_from end = ok []
texts_from (field k v d) = do t ← as_text v; ts ← texts_from d; ok ((k, t) ∷ ts)

unfoldable pub contents_from : Fields → Result (Dict Bytes)
contents_from end = ok []
contents_from (field k v d) = do b ← as_bytes v; bs ← contents_from d; ok ((k, b) ∷ bs)

-- The arguments of `JobInfo(…)`, which are left at their defaults where they are missing.
text_arg : Option Value → Result (Option Text)
text_arg none = ok none
text_arg (some null) = ok none
text_arg (some v) = do t ← as_text v; ok (some t)

endpoint_arg : Option Value → Result Endpoint
endpoint_arg none = ok (eid dtn_none)
endpoint_arg (some v) = do t ← as_text v; ok (plain t)

list_arg : Option Value → Result (List Text)
list_arg none = ok []
list_arg (some (arr vs)) = as_texts vs
list_arg (some _) = err ill_typed

dict_arg : Option Value → Result (Dict Text)
unfolding texts_from
dict_arg none = ok []
dict_arg (some (obj d)) = texts_from d
dict_arg (some _) = err ill_typed

abbrev pub field_names : List Text
field_names =
    codes "job_id"
    ∷ codes "wasm_module"
    ∷ codes "capabilities"
    ∷ codes "submitter"
    ∷ codes "results_receiver"
    ∷ codes "argv"
    ∷ codes "env"
    ∷ codes "stdin_file"
    ∷ codes "dirs"
    ∷ codes "data"
    ∷ codes "stdout_file"
    ∷ codes "stderr_file"
    ∷ codes "results"
    ∷ codes "named_results"
    ∷ []

-- `JobInfo.from_dict`
unfoldable pub info_from_dict : Fields → Result JobInfo
unfolding uuid_from text_arg endpoint_arg list_arg dict_arg
info_from_dict d = do
  id_value ← need key_error (get (codes "job_id") d)
  id_text ← as_text id_value
  job_id ← uuid_from (uuid_of id_text)
  caps_value ← need key_error (get (codes "capabilities") d)
  caps_dict ← as_obj caps_value
  capabilities ← Capabilities.from_dict caps_dict
  guard (only_keys field_names d) type_error
  module_value ← need type_error (get (codes "wasm_module") d)
  wasm_module ← as_text module_value
  submitter ← endpoint_arg (get (codes "submitter") d)
  results_receiver ← endpoint_arg (get (codes "results_receiver") d)
  argv ← list_arg (get (codes "argv") d)
  env ← dict_arg (get (codes "env") d)
  stdin_file ← text_arg (get (codes "stdin_file") d)
  dirs ← list_arg (get (codes "dirs") d)
  inputs ← dict_arg (get (codes "data") d)
  stdout_file ← text_arg (get (codes "stdout_file") d)
  stderr_file ← text_arg (get (codes "stderr_file") d)
  results ← list_arg (get (codes "results") d)
  named_results ← dict_arg (get (codes "named_results") d)
  new (record {
    job_id = job_id;
    wasm_module = wasm_module;
    capabilities = capabilities;
    submitter = submitter;
    results_receiver = results_receiver;
    argv = argv;
    env = env;
    stdin_file = stdin_file;
    dirs = dirs;
    inputs = inputs;
    stdout_file = stdout_file;
    stderr_file = stderr_file;
    results = results;
    named_results = named_results;
  })

-- `job_infos_from_dicts`
unfoldable pub job_infos_from_dicts : Values → Result (List JobInfo)
job_infos_from_dicts nil = ok []
job_infos_from_dicts (cons v vs) = do
  d ← as_obj v
  j ← info_from_dict d
  js ← job_infos_from_dicts vs
  ok (j ∷ js)

contents_of : Dict Bytes → Fields
contents_of [] = end
contents_of ((k, b) ∷ d) = field k (bin b) (contents_of d)

-- `Job.dictify`
unfoldable pub dictify_job : Job → Fields
unfolding contents_of
dictify_job job =
    field (codes "metadata") (obj (dictify job.metadata))
      (field (codes "data") (obj (contents_of job.content)) end)

-- `Job.from_dict`
unfoldable pub job_from_dict : Fields → Result Job
job_from_dict d = do
  metadata_value ← need key_error (get (codes "metadata") d)
  metadata_dict ← as_obj metadata_value
  metadata ← info_from_dict metadata_dict
  guard (only_keys (codes "metadata" ∷ codes "data" ∷ []) d) type_error
  content_value ← need type_error (get (codes "data") d)
  content_dict ← as_obj content_value
  content ← contents_from content_dict
  ok (record { metadata = metadata; content = content })

module _ (codec : Codec) where
  -- `JobInfo.serialize` and `JobInfo.deserialize`
  unfoldable pub serialize_info : JobInfo → Result Bytes
  serialize_info j = codec.packb (obj (dictify j))

  unfoldable pub deserialize_info : Bytes → Result JobInfo
  deserialize_info serialized = do v ← codec.unpackb serialized; d ← as_obj v; info_from_dict d

  -- `Job.serialize` and `Job.deserialize`
  unfoldable pub serialize : Job → Result Bytes
  serialize job = codec.packb (obj (dictify_job job))

  unfoldable pub deserialize : Bytes → Result Job
  deserialize serialized = do v ← codec.unpackb serialized; d ← as_obj v; job_from_dict d
