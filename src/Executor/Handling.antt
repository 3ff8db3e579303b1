-- ===== src/Executor/Handling.antt =====
-- The executor's `_handle_bundle` (dtn/executor.py): discovery, jobs and named data, by the type of
-- the bundle, with the job read from the payload.
pub mod Laws
mod Tests
use ma_sinafadavi_gpt.Base.{Bool, List, [], Result, ok, err, Error, ◌==◌, if◌then◌else◌}
use ma_sinafadavi_gpt.Bundles.{BundleData, is_discovery}
use ma_sinafadavi_gpt.Bundles.BundleType
use ma_sinafadavi_gpt.Jobs.{Job}
use ma_sinafadavi_gpt.Jobs.Reading.{deserialize}
use ma_sinafadavi_gpt.Node
use ma_sinafadavi_gpt.Node.{Node}
use ma_sinafadavi_gpt.Storage.{Backend}
use ma_sinafadavi_gpt.Wire.{Codec}
use ma_sinafadavi_gpt.Executor.{Executor, take_job, handle_data}

module _ (B : Backend) (codec : Codec) where
  read_job : Result Job → Executor B → Result (List BundleData) × Executor B
  read_job (err e) s = (err e, s)
  read_job (ok job) s = take_job B job s

  -- `_handle_job`
  unfoldable pub handle_job : BundleData → Executor B → Result (List BundleData) × Executor B
  unfolding read_job
  handle_job b s = read_job (deserialize codec b.payload) s

  with_node : Result (List BundleData) × Node → Executor B → Result (List BundleData) × Executor B
  with_node (r, node) s = (r, record s { node = node })

  without_replies : Result (Unit {0}) × Executor B → Result (List BundleData) × Executor B
  without_replies (ok _, s) = (ok [], s)
  without_replies (err e, s) = (err e, s)

  -- `_handle_bundle`: the three types exclude each other.
  unfoldable pub handle_bundle : BundleData → Executor B → Result (List BundleData) × Executor B
  unfolding with_node without_replies
  handle_bundle b s =
      if is_discovery b.type
      then with_node (Node.handle_discovery b s.node) s
      else if b.type == BundleType.job_submit
      then handle_job b s
      else if b.type == BundleType.ndata_get
      then without_replies (handle_data B b s)
      else (ok [], s)
