-- ===== src/Rest/Delivery.antt =====
-- What a REST executor does with the results of a job (rest/nodes/executor.py, with
-- `ExecutorJob.store_named` of rest/job.py and `try_store_named_data` of util/fs.py). The answers of the
-- broker and of the file system may depend on the calls that were made before; they are parameters. The
-- waits between the tries are left out, and the executor keeps its broker meanwhile.
pub mod Outcome
pub mod Samples
mod Tests
use ma_sinafadavi_gpt.Base.{
  ℕ, zero, suc, Bool, true, false, List, [], ◌∷◌, ◌++◌, length, Text, codes, is_empty, Result, ok,
  err, ◌==◌, if◌then◌else◌,
}
use ma_sinafadavi_gpt.Base.Actions.{Action, pure, ◌>>=◌}
use ma_sinafadavi_gpt.Base.Dict
use ma_sinafadavi_gpt.Base.Dict.{Dict}
use ma_sinafadavi_gpt.Base.Exceptions.{file_not_found}
use ma_sinafadavi_gpt.Jobs.Uuid.{uuid_text}
use ma_sinafadavi_gpt.Rest.Model.{JobInfo}

-- The calls of the broker: data from a file, the result from a file, the text in place of a result.
pub data Call : Type 0 where
  store_data : Text → Text → Call
  send_result : ℕ → Text → Call
  store_note : Text → Call
  job_done : ℕ → Call
  delete_job : ℕ → Call

-- What the broker answers to a call, and whether a file can be opened, behind the calls so far.
abbrev pub Answers : Type 0
Answers = List Call → Call → Bool

abbrev pub Opens : Type 0
Opens = List Call → Text → Bool

-- The calls so far, and the named results that are still to be stored, by path.
pub record Delivery : Type 0 where
  pub calls : List Call
  pub to_store_named : Dict Text

pub record Job : Type 0 where
  pub id : ℕ
  pub result_path : Text
  pub job_info : JobInfo

removed : List Text → Dict Text → Dict Text
removed [] d = d
removed (path ∷ paths) d = removed paths (Dict.remove path d)

tried : Result Bool × Delivery → Action Delivery Bool → Result Bool × Delivery
tried (ok true, s) rest = (ok true, s)
tried (ok false, s) rest = rest s
tried (err e, s) rest = (err e, s)

-- `for _ in range(n): if call(): break`
unfoldable pub retry : ℕ → Action Delivery Bool → Action Delivery Bool
unfolding tried
retry zero call s = (ok false, s)
retry (suc n) call s = tried (call s) (retry n call)

-- `f"{job.id}/result"`
abbrev pub result_name : Job → Text
result_name job = uuid_text job.id ++ codes "/result"

module _ (answers : Answers) (opens : Opens) where
  -- A call of the broker
  unfoldable pub ask : Call → Action Delivery Bool
  ask c s = (ok (answers s.calls c), record s { calls = s.calls ++ c ∷ [] })

  -- `with open(path, "br") as file: call`
  unfoldable pub opening : Text → Call → Action Delivery Bool
  unfolding ask
  opening path c s = if opens s.calls path then ask c s else (err file_not_found, s)

  -- `try_store_named_data`
  unfoldable pub try_store_named_data : Text → Text → Delivery → Bool × Delivery
  try_store_named_data name path s =
      if opens s.calls path
      then (
        answers s.calls (store_data name path),
        record s { calls = s.calls ++ store_data name path ∷ [] },
      )
      else (false, s)

  -- The loop of `store_named`: the paths whose results are stored, up to the first that is not.
  unfoldable pub store_each : Dict Text → Delivery → List Text × Delivery
  unfolding try_store_named_data
  store_each [] s = ([], s)
  store_each ((path, name) ∷ rest) s =
      let r = try_store_named_data name path s in
      let later = store_each rest r.1 in if r.0 then (path ∷ later.0, later.1) else ([], r.1)

  -- `store_named`
  unfoldable pub store_named : Action Delivery Bool
  unfolding removed
  store_named s =
      let r = store_each s.to_store_named s in
      let left = removed r.0 r.1.to_store_named in
      if length r.0 == length s.to_store_named
      then (ok true, record r.1 { to_store_named = [] })
      else (ok false, record r.1 { to_store_named = left })

  -- The last loop of `do_store_in_datastore`
  unfoldable pub store_error : Job → Action Delivery (Unit {0})
  store_error job = retry 10 (ask (store_note (result_name job))) >>= λ _. pure tt

  -- A loop that ended with a yes returns, else what stands behind it follows.
  unfoldable pub unless_done : Action Delivery (Unit {0}) → Bool → Action Delivery (Unit {0})
  unless_done rest true = pure tt
  unless_done rest false = rest

  -- The end of `do_store_in_datastore`: the result is stored, or else a text in its place.
  unfoldable pub store_result : Job → Action Delivery (Unit {0})
  store_result job =
      retry 10 (opening job.result_path (store_data (result_name job) job.result_path))
      >>= unless_done (store_error job)

  -- Behind the named results: `if job.job_info.result_addr.host != ""`
  unfoldable pub send_or_store : Job → Action Delivery (Unit {0})
  send_or_store job =
      if is_empty job.job_info.result_addr.host
      then store_result job
      else retry 10 (opening job.result_path (send_result job.id job.result_path))
        >>= unless_done (store_result job)

  -- `do_store_in_datastore`
  unfoldable pub do_store_in_datastore : Job → Action Delivery (Unit {0})
  do_store_in_datastore job = retry 10 store_named >>= λ _. send_or_store job

  -- The last two calls
  unfoldable pub report : Job → Action Delivery (Unit {0})
  report job = ask (job_done job.id) >>= λ _.
      if job.job_info.delete then (ask (delete_job job.id) >>= λ _. pure tt) else pure tt

  -- `store_job_in_datastore`
  unfoldable pub store_job_in_datastore : Job → Action Delivery (Unit {0})
  store_job_in_datastore job = do_store_in_datastore job >>= λ _. report job
