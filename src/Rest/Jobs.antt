-- ===== src/Rest/Jobs.antt =====
-- The jobs of the REST client and of the REST executor (rest/job.py): what they make of the job of a
-- user, before anything runs. A path is a text; `os.path.join`, `os.path.basename` and the expansions that
-- `prevent_breakout` calls are parameters.
pub mod Stdin
mod Tests
use ma_sinafadavi_gpt.Base.{
  ℕ, Option, none, some, List, [], ◌∷◌, ◌++◌, Text, codes, is_empty, Result, ok, err, ◌>>=◌,
  if◌then◌else◌,
}
use ma_sinafadavi_gpt.Base.Dict
use ma_sinafadavi_gpt.Base.Dict.{Dict}
use ma_sinafadavi_gpt.Base.Exceptions.{Error, escapes, index_error, attribute_error, failed_job}
use ma_sinafadavi_gpt.Jobs.Uuid.{uuid_text}
use ma_sinafadavi_gpt.Rest.Breakout.{prevent_breakout}
use ma_sinafadavi_gpt.Rest.Draw.{item_at}
use ma_sinafadavi_gpt.Rest.Model.{Source, name, placed, JobInfo}

-- `f"{self.id}/{name}"`
unfoldable pub job_data_name : ℕ → Text → Text
job_data_name id text = uuid_text id ++ b'/' ∷ text

-- The client's name for the module
named_bin : ℕ → Source → Source
unfolding job_data_name
named_bin id (name text) = name (job_data_name id (codes "exec.wasm"))
named_bin id (placed text path) = placed (job_data_name id path) path

-- `f"{self.id}/{stdin[1]}"` of a text takes its second character.
stdin_of_text : ℕ → Option ℕ → JobInfo → Result JobInfo
unfolding job_data_name
stdin_of_text id none info = err index_error
stdin_of_text id (some c) info = ok (record info {
  job_data = Dict.put (job_data_name id (c ∷ [])) (codes "stdin") info.job_data;
  stdin = name (codes "stdin");
})

named_stdin : ℕ → Source → JobInfo → Result JobInfo
unfolding stdin_of_text job_data_name
named_stdin id (name text) info = stdin_of_text id (item_at 1 text) info
named_stdin id (placed text path) info =
    if is_empty text
    then ok info
    else ok (record info {
      job_data = Dict.put (job_data_name id path) path info.job_data;
      stdin = placed path path;
    })

-- `{self.job_data_name(path): path for _, path in items}`
unfoldable pub by_path : ℕ → Dict Text → Dict Text → Dict Text
unfolding job_data_name
by_path id made [] = made
by_path id made ((key, path) ∷ items) =
    by_path id (Dict.put (job_data_name id path) path made) items

with_paths : ℕ → JobInfo → Result JobInfo
unfolding by_path
with_paths id info = ok (record info { job_data = by_path id [] info.job_data })

-- `transform_job_info_broker`
unfoldable pub transform_job_info_broker : ℕ → JobInfo → Result JobInfo
unfolding named_bin named_stdin with_paths
transform_job_info_broker id info =
    let binary = if info.wasm_bin_is_named then info.wasm_bin else named_bin id info.wasm_bin in
    let started : JobInfo = record info { wasm_bin = binary } in
    (if info.stdin_is_named then ok started else named_stdin id info.stdin started)
    >>= with_paths id

-- The paths of a job on the executor, and what the executor makes of its `JobInfo`.
pub record Place : Type 0 where
  pub code_dir : Text
  pub data_dir : Text

pub record Internal : Type 0 where
  pub wasm_bin : Text × Text
  pub stdin : Option Text
  pub env : Dict Text
  pub args : List Text
  pub job_data : Dict Text
  pub named_data : Dict Text
  pub to_store_named : Dict Text
  pub zip_results : Dict Text
  pub named_results : Dict Text

-- `WasmRestException("Invalid Formatting")` in place of a `ValueError`
reworded : Error → Error
reworded (escapes text) = failed_job
reworded e = e

invalid_formatting : Result Internal → Result Internal
unfolding reworded
invalid_formatting (ok made) = ok made
invalid_formatting (err e) = err (reworded e)

module _ (join : Text → Text → Text) (basename expanduser expandvars : Text → Text) where
  checked : Text → Result Text
  checked path = prevent_breakout expanduser expandvars path

  -- `data_path`
  unfoldable pub data_path : Place → Text → Result Text
  unfolding checked
  data_path place path = checked path >>= λ inner. ok (join place.data_dir inner)

  binary_of : Place → Source → Result (Text × Text)
  unfolding checked
  binary_of place (name text) = ok (text, join place.code_dir (codes "exec.wasm"))
  binary_of place (placed text path) =
      checked path >>= λ inner. ok (text, join place.code_dir inner)

  -- The standard input by a text, or by a name and a path: then `self.job_data` is read before it is
  -- set.
  stdin_of : Place → Source → Result (Option Text)
  unfolding data_path
  stdin_of place (name text) =
      if is_empty text then ok none else data_path place text >>= λ path. ok (some path)
  stdin_of place (placed text path) = if is_empty text then ok none else err attribute_error

  -- `{name: job.data_path(path) for name, path in items}`
  unfoldable pub at_paths : Place → Dict Text → Dict Text → Result (Dict Text)
  unfolding data_path
  at_paths place made [] = ok made
  at_paths place made ((key, path) ∷ items) =
      data_path place path >>= λ there. at_paths place (Dict.put key there made) items

  -- `{job.data_path(host_path): prevent_breakout(zip_path) for …}`
  zipped : Place → Dict Text → Dict Text → Result (Dict Text)
  unfolding data_path checked
  zipped place made [] = ok made
  zipped place made ((host_path, zip_path) ∷ items) = data_path place host_path >>= λ there.
      checked zip_path >>= λ inner. zipped place (Dict.put there inner made) items

  -- `{job.data_path(host_path): name for …}`
  named_from : Place → Dict Text → Dict Text → Result (Dict Text)
  unfolding data_path
  named_from place made [] = ok made
  named_from place made ((host_path, text) ∷ items) =
      data_path place host_path >>= λ there. named_from place (Dict.put there text made) items

  -- `ExecutorInternalJobInfo.__init__`, statement by statement
  unfoldable pub internal : Place → JobInfo → Result Internal
  unfolding invalid_formatting binary_of stdin_of at_paths zipped named_from
  internal place info = invalid_formatting (do
    binary ← binary_of place info.wasm_bin
    input ← stdin_of place info.stdin
    job_data ← at_paths place [] info.job_data
    named_data ← at_paths place [] info.named_data
    zip_results ← zipped place [] info.zip_results
    named_results ← named_from place [] info.named_results
    ok (record {
      wasm_bin = binary;
      stdin = input;
      env = info.env;
      args = basename binary.1 ∷ info.args;
      job_data = job_data;
      named_data = named_data;
      to_store_named = named_results;
      zip_results = zip_results;
      named_results = named_results;
    }))
