-- ===== src/Rest/Client/Unqueued.antt =====
-- Jobs that the client of the REST variant does not queue (rest/nodes/client.py).
use ma_sinafadavi_gpt.Base.{
  ℕ, ◌≡◌, ◌⊎◌, inl, inr, refl, Bool-cases, false, Option, none, some, List, Text, Result, ok, err,
}
use ma_sinafadavi_gpt.Base.Dict
use ma_sinafadavi_gpt.Base.Exceptions.{Error, type_error}
use ma_sinafadavi_gpt.Rest.Jobs.{transform_job_info_broker}
use ma_sinafadavi_gpt.Rest.Model.{JobInfo}
use ma_sinafadavi_gpt.Rest.Client.{
  Execution, Client, files_to_upload, Uploads, Submits, submit_job, upload_all, submitted,
  transformed, with_files, run_job, noted, started, run_command,
}

module _ (uploads : Uploads) (submits : Submits) (addresses : List Text) where
  -- The job did not start: nothing is awaited or noted that was not before.
  abbrev pub IsUnstarted : Client → Client → Type 0
  IsUnstarted s t =
      (t.started_jobs ≡ s.started_jobs)
      × (t.name_to_uuid ≡ s.name_to_uuid)
      × (t.pending_results ≡ s.pending_results)

  abbrev NotRun : Client → Result (Option ℕ) × Client → Type 0
  NotRun s r = ((r.0 ≡ ok none) ⊎ ((e : Error) × (r.0 ≡ err e))) × IsUnstarted s r.1

  transformed-none :
      (job_name : Text) (id : ℕ) (sent : Result JobInfo) (s : Client)
      → NotRun s (transformed uploads submits addresses job_name id none sent s)
  unfolding transformed submitted submit_job
  transformed-none job_name id (err e) s = (inr (e, refl), (refl, refl, refl))
  transformed-none job_name id (ok sent) s = (inr (type_error, refl), (refl, refl, refl))

  with_files-none :
      (job_name : Text) (info : JobInfo) (id : ℕ) (files : Result (Dict.Dict Text)) (s : Client)
      → NotRun s (with_files uploads submits addresses job_name info id none files s)
  unfolding with_files
  with_files-none job_name info id (err e) s = (inr (e, refl), (refl, refl, refl))
  with_files-none job_name info id (ok files) s =
      elim (Bool-cases (upload_all uploads submits addresses id files)) [
        | inl all_there ↦
            rw all_there (transformed-none job_name id (transform_job_info_broker id info) s)
        | inr some_missing ↦ rw some_missing (inl refl, (refl, refl, refl))
      ]

  not_started : {i : ℕ} → (ok (some i) ≡ ok none) ⊎ ((e : Error) × (ok (some i) ≡ err e)) → ⊥
  not_started (inl h) = absurd (cc)
  not_started (inr (e, h)) = absurd (cc)

  noted-NotRun :
      (cmd : Text) (s : Client) (r : Result (Option ℕ) × Client)
      → NotRun s r
      → IsUnstarted s (noted uploads submits addresses cmd r).1
  unfolding noted
  noted-NotRun cmd s (ok (some id), t) (h, k) = absurd (not_started h)
  noted-NotRun cmd s (ok none, t) (h, k) = k
  noted-NotRun cmd s (err e, t) (h, k) = k

  started-IsUnstarted :
      (cmd : Text) (job : Option JobInfo) (id : ℕ) (s : Client)
      → IsUnstarted s (started uploads submits addresses cmd job id none s).1
  unfolding started run_job
  started-IsUnstarted cmd none id s = (refl, refl, refl)
  started-IsUnstarted cmd (some info) id s =
      noted-NotRun cmd s _ (with_files-none cmd info id (files_to_upload info) s)

  -- A command that is not to be queued never starts its job, whatever the broker and the file system
  -- answer: no job is noted and no result awaited that was not before.
  pub unqueued_never_starts :
      (e : Execution) (id : ℕ) (s : Client)
      → e.queue ≡ false
      → IsUnstarted s (run_command uploads submits addresses e id s).1
  unfolding run_command
  unqueued_never_starts e id s h = rw h (started-IsUnstarted e.cmd (Dict.lookup e.cmd s.cmds) id s)
