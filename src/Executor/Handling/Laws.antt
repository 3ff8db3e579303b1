-- ===== src/Executor/Handling/Laws.antt =====
-- What the executor does with the bundles it fetches (dtn/executor.py): from a submitted job to the
-- queue, and the invariant of the storage over the rounds of the bundle handler.
use ma_sinafadavi_gpt.Base.{
  ◌≡◌, ◌∙◌, Bool, true, false, List, [], ◌∷◌, ◌++◌, is_empty, Result, ok, err, ◌==◌, if◌then◌else◌,
}
use ma_sinafadavi_gpt.Bundles.{BundleData, is_discovery}
use ma_sinafadavi_gpt.Bundles.BundleType
use ma_sinafadavi_gpt.Eid.{truthy}
use ma_sinafadavi_gpt.Jobs.{Job, required_named_data}
use ma_sinafadavi_gpt.Jobs.Reading.{serialize, deserialize}
use ma_sinafadavi_gpt.Jobs.Reading.RoundTrip.{
  IsSendable, received, received_job, required_named_data-received, job_round_trip,
}
use ma_sinafadavi_gpt.Messages.{Message}
use ma_sinafadavi_gpt.Node
use ma_sinafadavi_gpt.Node.{Node, round}
use ma_sinafadavi_gpt.Node.Rounds.{round-keeps}
use ma_sinafadavi_gpt.Storage.{Backend, IsLawful, Storage, find_missing}
use ma_sinafadavi_gpt.Storage.Invariant.{IsValid}
use ma_sinafadavi_gpt.Wire
use ma_sinafadavi_gpt.Wire.{Codec}
use ma_sinafadavi_gpt.Executor.{Executor, store_each, data_request, take_job, handle_data}
use ma_sinafadavi_gpt.Executor.Intake.{executor-IsValid, take_job-queued}
use ma_sinafadavi_gpt.Executor.Handling.{
  read_job, handle_job, with_node, without_replies, handle_bundle,
}

module _ (B : Backend) (law : IsLawful B) (codec : Codec) where
  handle_bundle-job_submit :
      (b : BundleData) (s : Executor B) (job : Job)
      → b.type ≡ BundleType.job_submit
      → deserialize codec b.payload ≡ ok job
      → handle_bundle B codec b s ≡ take_job B job s
  unfolding handle_bundle handle_job read_job
  handle_bundle-job_submit b s job t e = rw (t, e)

  -- A job that a client serialized into the payload of a JOB_SUBMIT bundle is put behind the pending
  -- jobs as `from_dict` reads it, the data that it brings is stored, and the datastores are asked in one
  -- bundle for the names it requires that are still missing then, or not at all if there are none. No
  -- exception is raised, if the executor's endpoint is not `dtn:none` and the data can be stored.
  pub submitted_job-queued :
      (b : BundleData) (s : Executor B) (job : Job) (storage : Storage B)
      → Wire.IsLawful codec
      → IsSendable job.metadata
      → b.type ≡ BundleType.job_submit
      → serialize codec job ≡ ok b.payload
      → truthy s.node.node_id ≡ true
      → store_each B job.content s.storage ≡ (ok tt, storage)
      → handle_bundle B codec b s ≡ (
        ok (
            if is_empty (find_missing B (required_named_data job.metadata) storage)
            then []
            else data_request B s (find_missing B (required_named_data job.metadata) storage) ∷ []),
        record s { storage = storage; pending_jobs = s.pending_jobs ++ received job.metadata ∷ [] },
      )
  submitted_job-queued b s job storage lawful sendable t packed named stored =
      handle_bundle-job_submit b s (received_job job) t
        (job_round_trip codec job b.payload lawful sendable packed)
      ∙ (take_job-queued B law (received_job job) s storage named stored
          ∙ rw (required_named_data-received job.metadata))

  -- What an executor keeps: the invariant of its storage.
  abbrev pub IsValidExecutor : Executor B → Type 0
  IsValidExecutor s = IsValid B law s.storage

  with_node-IsValid :
      (r : Result (List BundleData) × Node) (s : Executor B)
      → IsValidExecutor s
      → IsValidExecutor (with_node B codec r s).1
  unfolding with_node
  with_node-IsValid (r, node) s h = h

  without_replies-IsValid :
      (r : Result (Unit {0}) × Executor B)
      → IsValidExecutor r.1
      → IsValidExecutor (without_replies B codec r).1
  unfolding without_replies
  without_replies-IsValid (ok _, s) h = h
  without_replies-IsValid (err e, s) h = h

  read_job-IsValid :
      (r : Result Job) (s : Executor B)
      → IsValidExecutor s
      → IsValidExecutor (read_job B codec r s).1
  unfolding read_job
  read_job-IsValid (err e) s h = h
  read_job-IsValid (ok job) s h = (executor-IsValid B law s h).0 job

  if-IsValid :
      (b : Bool) (x y : Result (List BundleData) × Executor B)
      → IsValidExecutor x.1
      → IsValidExecutor y.1
      → IsValidExecutor (if b then x else y).1
  if-IsValid true x y hx hy = hx
  if-IsValid false x y hx hy = hy

  handle_bundle-IsValid :
      (b : BundleData) (s : Executor B)
      → IsValidExecutor s
      → IsValidExecutor (handle_bundle B codec b s).1
  unfolding handle_bundle handle_job
  handle_bundle-IsValid b s h =
      if-IsValid (is_discovery b.type) _ _ (with_node-IsValid (Node.handle_discovery b s.node) s h)
        (if-IsValid (b.type == BundleType.job_submit) _ _
          (read_job-IsValid (deserialize codec b.payload) s h)
          (if-IsValid (b.type == BundleType.ndata_get) _ _
            (without_replies-IsValid (handle_data B b s) ((executor-IsValid B law s h).1 b)) h))

  -- A round of the bundle handler keeps the invariant of the storage, whatever the agent answers to
  -- the fetch, whatever the bundles hold, and whether or not an exception cuts the round short.
  pub executor_round-IsValid :
      (answer : Result Message) (s : Executor B)
      → IsValid B law s.storage
      → IsValid B law (round (handle_bundle B codec) answer s).1.storage
  executor_round-IsValid answer s h =
      round-keeps IsValidExecutor (handle_bundle B codec) handle_bundle-IsValid answer s h
