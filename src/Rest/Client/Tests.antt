-- ===== src/Rest/Client/Tests.antt =====
-- A client of the REST variant with two jobs (rest/nodes/client.py).
use ma_sinafadavi_gpt.Base.{ℕ, ◌≡◌, refl, Bool, true, false, some, List, [], ◌∷◌, codes, is_empty}
use ma_sinafadavi_gpt.Rest.Delivery.Samples.{finished}
use ma_sinafadavi_gpt.Rest.Client.{
  Execution, Client, finish, receive_all, run_command, Uploads, Submits,
}
use ma_sinafadavi_gpt.Rest.Client.Stopping.{stops_with_last_result}
use ma_sinafadavi_gpt.Rest.Client.Unqueued.{IsUnstarted, unqueued_never_starts}

abbrev client : Client
client = record {
  pending_results = (3, codes "a") ∷ (4, codes "b") ∷ [];
  all_queued = false;
  stopped = false;
  started_jobs = codes "a" ∷ codes "b" ∷ [];
  name_to_uuid = (codes "a", 3) ∷ (codes "b", 4) ∷ [];
  cmds = (codes "c", finished.job_info) ∷ [];
}

-- One result is not awaited, and one cannot be written at first.
abbrev results : List (Bool × ℕ)
results = (true, 9) ∷ (true, 3) ∷ (false, 4) ∷ (true, 4) ∷ []

stops_with_last_result_example :
    let t = receive_all results (finish client) in t.stopped ≡ is_empty t.pending_results
stops_with_last_result_example = stops_with_last_result results client refl

abbrev uploads : Uploads
uploads text path = true

abbrev submits : Submits
submits info id wait_for = some id

abbrev direct : Execution
direct = record { cmd = codes "c"; queue = false; wait = [] }

unqueued_never_starts_example :
    IsUnstarted uploads submits [] client (run_command uploads submits [] direct 5 client).1
unqueued_never_starts_example = unqueued_never_starts uploads submits [] direct 5 client refl
