-- ===== src/Rest/Client.antt =====
-- The client of the REST variant (rest/nodes/client.py): it uploads the files of the jobs of a plan,
-- submits the jobs, and waits for their results. What the file system and the broker answer, and the
-- identifiers that `uuid4` draws, are parameters. A command that is not queued waits in a loop for
-- results; the state here is the one when that loop has ended. The deletion that is asked for when an
-- upload fails is left out: its answer is not looked at.
pub mod Stopping
pub mod Unqueued
mod Tests
use ma_sinafadavi_gpt.Base.{
  ℕ, Bool, true, false, not, ◌&&◌, ◌||◌, Option, none, some, List, [], ◌∷◌, Text, codes, is_empty,
  member, Result, ok, err, ◌==◌, ◌>>=◌, if◌then◌else◌,
}
use ma_sinafadavi_gpt.Base.Dict
use ma_sinafadavi_gpt.Base.Dict.{Dict}
use ma_sinafadavi_gpt.Base.Exceptions.{Error, type_error, key_error, http, failed_job}
use ma_sinafadavi_gpt.Rest.Jobs.{job_data_name, transform_job_info_broker}
use ma_sinafadavi_gpt.Rest.Model.{Source, name, placed, JobInfo}

-- A command of a plan.
pub record Execution : Type 0 where
  pub cmd : Text
  pub queue : Bool
  pub wait : List Text

-- The results that are awaited, the jobs that were started, and the jobs of the plan: submitting a job
-- changes its `JobInfo` there.
pub record Client : Type 0 where
  pub pending_results : List (ℕ × Text)
  pub all_queued : Bool
  pub stopped : Bool
  pub started_jobs : List Text
  pub name_to_uuid : Dict ℕ
  pub cmds : Dict JobInfo

unfoldable pub awaits : ℕ → List (ℕ × Text) → Bool
awaits id [] = false
awaits id ((i, n) ∷ pending) = (i == id) || awaits id pending

-- `self.pending_results.pop(job_id, None)`
unfoldable pub pop_result : ℕ → List (ℕ × Text) → List (ℕ × Text)
pop_result id [] = []
pop_result id ((i, n) ∷ pending) =
    let rest = (i, n) ∷ pop_result id pending in if i == id then pending else rest

-- `receive_result`; the first argument is whether the file could be written.
unfoldable pub receive_result : Bool → ℕ → Client → Result (Unit {0}) × Client
receive_result written id s =
    let left = pop_result id s.pending_results in
    let ends = s.all_queued && is_empty left in
    if not (awaits id s.pending_results)
    then (err (http 404), s)
    else if not written
    then (err (http 500), s)
    else (ok tt, record s { pending_results = left; stopped = ends || s.stopped })

-- `type(job_info.wasm_bin) is tuple[str, str]` is never true.
bin_file : Source → Result (Dict Text)
bin_file (name text) = ok ((text, codes "exec.wasm") ∷ [])
bin_file (placed text path) = err failed_job

stdin_file : Source → Dict Text → Dict Text
stdin_file (name text) d = if is_empty text then d else Dict.put text (codes "stdin") d
stdin_file (placed text path) d = if is_empty text then d else Dict.put text path d

data_files : Dict Text → Dict Text → Dict Text
data_files [] d = d
data_files ((host_path, path) ∷ items) d = data_files items (Dict.put host_path path d)

-- `files_to_upload`
unfoldable pub files_to_upload : JobInfo → Result (Dict Text)
unfolding bin_file stdin_file data_files
files_to_upload info =
    (if info.wasm_bin_is_named then ok [] else bin_file info.wasm_bin) >>= λ first.
    let second = if info.stdin_is_named then first else stdin_file info.stdin first in
    ok (data_files info.job_data second)

-- What the broker answers: to the upload of a file under a name, and to a job.
abbrev pub Uploads : Type 0
Uploads = Text → Text → Bool

abbrev pub Submits : Type 0
Submits = JobInfo → ℕ → List ℕ → Option ℕ

-- `Broker.submit_job` of rest/nodetypes/broker.py: `[str(it) for it in wait_for]` of `None`
unfoldable pub submit_job : Submits → JobInfo → ℕ → Option (List ℕ) → Result (Option ℕ)
submit_job submits info id none = err type_error
submit_job submits info id (some wait_for) = ok (submits info id wait_for)

same_id : Option ℕ → ℕ → Bool
same_id none id = false
same_id (some i) id = i == id

-- `except WasmRestException`
is_job_error : Error → Bool
is_job_error failed_job = true
is_job_error e = false

module _ (uploads : Uploads) (submits : Submits) (addresses : List Text) where
  -- The loop over the files, up to the first that cannot be uploaded.
  unfoldable pub upload_all : ℕ → Dict Text → Bool
  upload_all id [] = true
  upload_all id ((path, text) ∷ files) = uploads (job_data_name id text) path && upload_all id files

  -- `job_info.result_addr.host in self.addresses or … == "this"`
  is_awaited : JobInfo → Bool
  is_awaited info =
      member info.result_addr.host addresses || member info.result_addr.host (codes "this" ∷ [])

  submitted : Text → JobInfo → ℕ → Result (Option ℕ) → Client → Result (Option ℕ) × Client
  unfolding same_id is_awaited
  submitted job_name info id (err e) s = (err e, s)
  submitted job_name info id (ok answer) s =
      if not (same_id answer id)
      then (ok none, s)
      else if is_awaited info
      then (
        ok (some id),
        record s { pending_results = (id, job_name) ∷ pop_result id s.pending_results },
      )
      else (ok (some id), s)

  transformed : Text → ℕ → Option (List ℕ) → Result JobInfo → Client → Result (Option ℕ) × Client
  unfolding submitted
  transformed job_name id wait_for (err e) s = (err e, s)
  transformed job_name id wait_for (ok info) s =
      submitted job_name info id (submit_job submits info id wait_for)
        (record s { cmds = Dict.put job_name info s.cmds })

  with_files :
      Text
      → JobInfo
      → ℕ
      → Option (List ℕ)
      → Result (Dict Text)
      → Client
      → Result (Option ℕ) × Client
  unfolding transformed
  with_files job_name info id wait_for (err e) s = (err e, s)
  with_files job_name info id wait_for (ok files) s =
      if upload_all id files
      then transformed job_name id wait_for (transform_job_info_broker id info) s
      else (ok none, s)

  -- `run_job`, of the job that a command of the plan names
  unfoldable pub run_job :
      Text → JobInfo → ℕ → Option (List ℕ) → Client → Result (Option ℕ) × Client
  unfolding with_files
  run_job job_name info id wait_for s =
      with_files job_name info id wait_for (files_to_upload info) s

  both : Option ℕ → Option (List ℕ) → Option (List ℕ)
  both none ids = none
  both (some id) none = none
  both (some id) (some ids) = some (id ∷ ids)

  -- `{self.name_to_uuid[name] for name in cmd.wait}`; `none` is its `KeyError`.
  unfoldable pub ids_of : Dict ℕ → List Text → Option (List ℕ)
  unfolding both
  ids_of ids [] = some []
  ids_of ids (text ∷ names) = both (Dict.lookup text ids) (ids_of ids names)

  -- A job that started is noted; what `run_job` raises is logged if it is a `WasmRestException`.
  noted : Text → Result (Option ℕ) × Client → Result (Unit {0}) × Client
  unfolding is_job_error
  noted cmd (ok (some id), s) = (
    ok tt,
    record s { name_to_uuid = Dict.put cmd id s.name_to_uuid; started_jobs = cmd ∷ s.started_jobs },
  )
  noted cmd (ok none, s) = (ok tt, s)
  noted cmd (err e, s) = (if is_job_error e then ok tt else err e, s)

  started : Text → Option JobInfo → ℕ → Option (List ℕ) → Client → Result (Unit {0}) × Client
  unfolding noted
  started cmd none id wait_for s = (err key_error, s)
  started cmd (some info) id wait_for s = noted cmd (run_job cmd info id wait_for s)

  queued : Text → Option JobInfo → ℕ → Option (List ℕ) → Client → Result (Unit {0}) × Client
  unfolding started
  queued cmd job id none s = (ok tt, s)
  queued cmd job id (some ids) s = started cmd job id (some ids) s

  -- The body of the loop over the commands
  unfoldable pub run_command : Execution → ℕ → Client → Result (Unit {0}) × Client
  unfolding queued started
  run_command e id s =
      let job = Dict.lookup e.cmd s.cmds in
      if e.queue
      then queued e.cmd job id (ids_of s.name_to_uuid e.wait) s
      else started e.cmd job id none s

-- The end of `run`
unfoldable pub finish : Client → Client
finish s =
    if is_empty s.pending_results
    then record s { stopped = true }
    else record s { all_queued = true }

-- The results that arrive later, in their order, each with whether its file could be written.
unfoldable pub receive_all : List (Bool × ℕ) → Client → Client
receive_all [] s = s
receive_all ((written, id) ∷ results) s = receive_all results (receive_result written id s).1
