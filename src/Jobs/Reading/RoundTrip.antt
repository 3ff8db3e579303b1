-- ===== src/Jobs/Reading/RoundTrip.antt =====
-- `JobInfo.from_dict` and `Job.from_dict` on what `dictify` writes (dtn/job.py).
use ma_sinafadavi_gpt.Base.{
  ◌^◌, ◌<◌, ◌≡◌, refl, Bool, true, false, not, Option, none, some, List, [], ◌∷◌, Text, Bytes,
  codes, text_eq, is_empty, ok, if◌then◌else◌,
}
use ma_sinafadavi_gpt.Base.Dict.{Dict}
use ma_sinafadavi_gpt.Base.Exceptions.{key_error, type_error}
use ma_sinafadavi_gpt.Eid.{Endpoint, eid, plain, dtn_none, text_of, truthy}
use ma_sinafadavi_gpt.Wire.{
  str, arr, obj, get, only_keys, one_of, need, texts, as_texts-texts, as_text, as_bytes, as_obj,
  get-put_if, get-field, get-end, only_keys-put_if, only_keys-field, Codec, IsLawful,
}
use ma_sinafadavi_gpt.Capabilities
use ma_sinafadavi_gpt.Capabilities.Laws.{IsChecked, from_dict-dictify}
use ma_sinafadavi_gpt.Jobs.{
  JobInfo, Job, new, dictify, is_set, value_of, fields_of, put_list, put_dict, put_text, put_eid,
  with_stdin, required_named_data,
}
use ma_sinafadavi_gpt.Jobs.Uuid.{uuid_text}
use ma_sinafadavi_gpt.Jobs.Uuid.RoundTrip.{uuid_of-uuid_text}
use ma_sinafadavi_gpt.Jobs.Reading.{
  uuid_from, texts_from, contents_from, text_arg, endpoint_arg, list_arg, dict_arg, field_names,
  info_from_dict, contents_of, dictify_job, job_from_dict, serialize, deserialize,
}

-- An endpoint as it is read: a plain text, or the default.
unfoldable pub heard : Endpoint → Endpoint
heard e = if truthy e then plain (text_of e) else eid dtn_none

-- An optional text as it is read: the empty one is left out.
unfoldable pub kept : Option Text → Option Text
kept t = if is_set t then t else none

-- The job as it is read.
unfoldable pub received : JobInfo → JobInfo
unfolding heard kept
received j = record j {
  submitter = heard j.submitter;
  results_receiver = heard j.results_receiver;
  stdin_file = kept j.stdin_file;
  stdout_file = kept j.stdout_file;
  stderr_file = kept j.stderr_file;
}

kept_endpoint :
    (b : Bool) (t : Text)
    → endpoint_arg (if b then some (str t) else none) ≡ ok (if b then plain t else eid dtn_none)
unfolding endpoint_arg as_text
kept_endpoint true t = refl
kept_endpoint false t = refl

kept_eid :
    (e : Endpoint) → endpoint_arg (if truthy e then some (str (text_of e)) else none) ≡ ok (heard e)
unfolding heard
kept_eid e = kept_endpoint (truthy e) (text_of e)

kept_list :
    (ts : List Text) → list_arg (if not (is_empty ts) then some (arr (texts ts)) else none) ≡ ok ts
unfolding list_arg
kept_list [] = refl
kept_list (t ∷ ts) = as_texts-texts (t ∷ ts)

texts_from-fields_of : (d : Dict Text) → texts_from (fields_of d) ≡ ok d
unfolding texts_from fields_of as_text
texts_from-fields_of [] = refl
texts_from-fields_of ((k, t) ∷ d) = rw (texts_from-fields_of d)

kept_dict :
    (d : Dict Text) → dict_arg (if not (is_empty d) then some (obj (fields_of d)) else none) ≡ ok d
unfolding dict_arg
kept_dict [] = refl
kept_dict (e ∷ d) = texts_from-fields_of (e ∷ d)

kept_text :
    (t : Option Text) → text_arg (if is_set t then some (value_of t) else none) ≡ ok (kept t)
unfolding text_arg kept value_of as_text
kept_text none = refl
kept_text (some []) = refl
kept_text (some (c ∷ t)) = refl

contents_from-contents_of : (d : Dict Bytes) → contents_from (contents_of d) ≡ ok d
unfolding contents_from contents_of as_bytes
contents_from-contents_of [] = refl
contents_from-contents_of ((k, b) ∷ d) = rw (contents_from-contents_of d)

ruleset dict_laws = (get-put_if, get-field, get-end)

-- What `from_dict` reads from the dictionary of a job.
module _ (j : JobInfo) where
  need_id : need key_error (get (codes "job_id") (dictify j)) ≡ ok (str (uuid_text j.job_id))
  unfolding dictify text_eq need
  need_id = simp dict_laws

  need_capabilities :
      need key_error (get (codes "capabilities") (dictify j))
      ≡ ok (obj (Capabilities.dictify j.capabilities))
  unfolding dictify text_eq need
  need_capabilities = simp dict_laws

  need_module :
      is_empty j.wasm_module ≡ false
      → need type_error (get (codes "wasm_module") (dictify j)) ≡ ok (str j.wasm_module)
  unfolding dictify text_eq need
  need_module h = simp (dict_laws, h)

  read_submitter : endpoint_arg (get (codes "submitter") (dictify j)) ≡ ok (heard j.submitter)
  unfolding dictify text_eq put_eid put_list put_dict put_text
  read_submitter = simp dict_laws (kept_eid j.submitter)

  read_receiver :
      endpoint_arg (get (codes "results_receiver") (dictify j)) ≡ ok (heard j.results_receiver)
  unfolding dictify text_eq put_eid put_list put_dict put_text
  read_receiver = simp dict_laws (kept_eid j.results_receiver)

  read_argv : list_arg (get (codes "argv") (dictify j)) ≡ ok j.argv
  unfolding dictify text_eq put_eid put_list put_dict put_text
  read_argv = simp dict_laws (kept_list j.argv)

  dictify_keys : only_keys field_names (dictify j) ≡ true
  unfolding dictify text_eq one_of only_keys put_eid put_list put_dict put_text
  dictify_keys = simp (only_keys-put_if, only_keys-field)

  read_env : dict_arg (get (codes "env") (dictify j)) ≡ ok j.env
  unfolding dictify text_eq put_eid put_list put_dict put_text
  read_env = simp dict_laws (kept_dict j.env)

  read_stdin : text_arg (get (codes "stdin_file") (dictify j)) ≡ ok (kept j.stdin_file)
  unfolding dictify text_eq put_eid put_list put_dict put_text
  read_stdin = simp dict_laws (kept_text j.stdin_file)

  read_dirs : list_arg (get (codes "dirs") (dictify j)) ≡ ok j.dirs
  unfolding dictify text_eq put_eid put_list put_dict put_text
  read_dirs = simp dict_laws (kept_list j.dirs)

  read_inputs : dict_arg (get (codes "data") (dictify j)) ≡ ok j.inputs
  unfolding dictify text_eq put_eid put_list put_dict put_text
  read_inputs = simp dict_laws (kept_dict j.inputs)

  read_stdout : text_arg (get (codes "stdout_file") (dictify j)) ≡ ok (kept j.stdout_file)
  unfolding dictify text_eq put_eid put_list put_dict put_text
  read_stdout = simp dict_laws (kept_text j.stdout_file)

  read_stderr : text_arg (get (codes "stderr_file") (dictify j)) ≡ ok (kept j.stderr_file)
  unfolding dictify text_eq put_eid put_list put_dict put_text
  read_stderr = simp dict_laws (kept_text j.stderr_file)

  read_results : list_arg (get (codes "results") (dictify j)) ≡ ok j.results
  unfolding dictify text_eq put_eid put_list put_dict put_text
  read_results = simp dict_laws (kept_list j.results)

  read_named : dict_arg (get (codes "named_results") (dictify j)) ≡ ok j.named_results
  unfolding dictify text_eq put_eid put_list put_dict put_text
  read_named = simp dict_laws (kept_dict j.named_results)

with_stdin-kept :
    (t : Option Text) (rest : List Text) → with_stdin (kept t) rest ≡ with_stdin t rest
unfolding with_stdin kept
with_stdin-kept none rest = refl
with_stdin-kept (some []) rest = refl
with_stdin-kept (some (c ∷ t)) rest = refl

-- A job that is read back requires the same named data.
pub required_named_data-received :
    (j : JobInfo) → required_named_data (received j) ≡ required_named_data j
unfolding required_named_data received
required_named_data-received j = rw (with_stdin-kept j.stdin_file)

-- A job that `JobInfo(…)` accepts, with capabilities that passed their checks and a UUID.
pub record IsSendable (j : JobInfo) : Type 0 where
  pub has_module : is_empty j.wasm_module ≡ false
  pub is_uuid : j.job_id < 16 ^ 32
  pub checked : IsChecked j.capabilities

-- A job is read back from its dictionary with every field as it was, except that each endpoint that is
-- not `dtn:none` comes back as a plain text and not as an `EID`, and that an empty name of a standard
-- stream comes back as none.
pub info_from_dict-dictify :
    (j : JobInfo) → IsSendable j → info_from_dict (dictify j) ≡ ok (received j)
unfolding info_from_dict received as_text as_obj uuid_from new
info_from_dict-dictify j h = rw (
  need_id j,
  uuid_of-uuid_text j.job_id h.is_uuid,
  need_capabilities j,
  from_dict-dictify j.capabilities h.checked,
  dictify_keys j,
  need_module j h.has_module,
  read_submitter j,
  read_receiver j,
  read_argv j,
  read_env j,
  read_stdin j,
  read_dirs j,
  read_inputs j,
  read_stdout j,
  read_stderr j,
  read_results j,
  read_named j,
  h.has_module,
)

abbrev pub received_job : Job → Job
received_job job = record job { metadata = received job.metadata }

job_from_dict-dictify :
    (job : Job) → IsSendable job.metadata → job_from_dict (dictify_job job) ≡ ok (received_job job)
unfolding job_from_dict dictify_job get need text_eq only_keys one_of as_obj
job_from_dict-dictify job h =
    rw (info_from_dict-dictify job.metadata h, contents_from-contents_of job.content)

-- A job that was serialized is read back with the same data under the same names in the same order,
-- and with its metadata as it was, except that each endpoint that is not `dtn:none` comes back as a
-- plain text and that an empty name of a standard stream comes back as none.
pub job_round_trip :
    (codec : Codec) (job : Job) (b : Bytes)
    → IsLawful codec
    → IsSendable job.metadata
    → serialize codec job ≡ ok b
    → deserialize codec b ≡ ok (received_job job)
unfolding serialize deserialize as_obj
job_round_trip codec job b law h e =
    rw (law.unpackb-packb (obj (dictify_job job)) b e) (job_from_dict-dictify job h)
