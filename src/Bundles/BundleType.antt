-- ===== src/Bundles/BundleType.antt =====
-- `BundleType` (dtn/messages.py).
use Prim.Native.Nat.{ℕ}

abbrev pub broker_announce : ℕ
broker_announce = 1

abbrev pub broker_request : ℕ
broker_request = 2

abbrev pub broker_ack : ℕ
broker_ack = 3

abbrev pub job_submit : ℕ
job_submit = 11

abbrev pub job_result : ℕ
job_result = 12

abbrev pub job_query : ℕ
job_query = 13

abbrev pub job_list : ℕ
job_list = 14

abbrev pub ndata_put : ℕ
ndata_put = 21

abbrev pub ndata_get : ℕ
ndata_get = 22

abbrev pub ndata_del : ℕ
ndata_del = 23
