-- ===== src/Rest/ExecutorBroker/Tests.antt =====
-- A REST broker with concrete executors (rest/nodes/brokers/executorbroker.py).
use ma_sinafadavi_gpt.Base.{
  ◌≡◌, refl, pos, true, false, none, some, [], ◌∷◌, codes, text_eq, member, all, select, drop, take,
  starts_with, err, lez,
}
use ma_sinafadavi_gpt.Base.Exceptions.{http}
use ma_sinafadavi_gpt.Jobs.Uuid.{
  uuid_of, without_dashes, strip_braces, remove_from, bare, hex_value, is_brace, parse_hex,
  scan_hex, uuid_text, dashed, hex,
}
use ma_sinafadavi_gpt.Eid.Number.{clean}
use ma_sinafadavi_gpt.Rest.Model.{Address, Capabilities, JobInfo, name, placed, is_capable}
use ma_sinafadavi_gpt.Rest.Draw.{choice, item_at}
use ma_sinafadavi_gpt.Rest.Names.{zeroconf_service_name, id_from_name, slice_back}
use ma_sinafadavi_gpt.Rest.ExecutorBroker.{
  Executor, QueuedJob, Broker, init, Pings, register_executor, is_stale, capable_executor,
  host_order, pop_all, pop_executor, prune_executor_list, put_executor, try_hosts, remove_host,
  answered, identified, of_id,
}
use ma_sinafadavi_gpt.Rest.ExecutorBroker.Jobs.{
  Accepts, among, on_job_started, attempt, submit_job, job_done, is_ready, put_result,
}
use ma_sinafadavi_gpt.Rest.ExecutorBroker.Jobs.Started.{Took, forgetting}
use ma_sinafadavi_gpt.Rest.ExecutorBroker.Jobs.Events.{
  Step, Reachable, Reachable-attempt, submit_job_refused,
}

abbrev small : Capabilities
small = record {
  memory = pos 1;
  disk = pos 1;
  cpu_load = pos 0;
  cpu_cores = pos 1;
  cpu_freq = pos 1;
  has_battery = false;
  power = pos 0;
}

abbrev here : Address
here = record { host = codes "h"; port = 1 }

abbrev known : Executor
known = record { id = 7; address = here; cur_caps = small; last_update = 5 }

abbrev pings : Pings
pings address = some (zeroconf_service_name (codes "executor") 7)

abbrev info : JobInfo
info = record {
  wasm_bin = name (codes "w");
  wasm_bin_is_named = false;
  stdin = placed [] [];
  stdin_is_named = false;
  job_data = [];
  named_data = [];
  directories = [];
  args = [];
  env = [];
  zip_results = [];
  named_results = [];
  capabilities = small;
  result_addr = here;
  delete = true;
}

-- The broker after the registration of the executor and the report of a job.
abbrev registered : Broker
registered = (register_executor pings (codes "x") (codes "h" ∷ []) known init).1

abbrev busy : Broker
busy = job_done 3 registered

busy-Reachable : Reachable busy
busy-Reachable =
    Reachable.moves
      (Reachable.moves Reachable.starts (Step.registers pings (codes "x") (codes "h" ∷ []) known))
      (Step.reports 3)

abbrev agrees : Accepts
agrees e id _ = true

abbrev job : QueuedJob
job = record { job_id = 4; job_info = info; wait_for = 3 ∷ [] }

abbrev started : Broker
started = (attempt agrees 9 0 job busy).1

job-started : attempt agrees 9 0 job busy ≡ (true, started)
unfolding attempt is_ready all among job_done register_executor host_order member text_eq
    id_from_name uuid_of without_dashes select strip_braces remove_from slice_back drop take
    starts_with clean bare hex_value is_brace parse_hex scan_hex on_job_started put_result
    capable_executor choice is_stale item_at pop_all pop_executor prune_executor_list put_executor
    is_capable lez zeroconf_service_name uuid_text dashed hex try_hosts remove_host answered
    identified of_id
job-started = refl

Reachable-attempt_example :
    (all (λ id. among id busy.completed_jobs) job.wait_for ≡ true)
    × Took agrees 9 job.job_id job.job_info busy
    × (started ≡ on_job_started job.job_id job.job_info (forgetting 9 busy))
Reachable-attempt_example = Reachable-attempt agrees 9 0 job busy started busy-Reachable job-started

submit_job_refused_example :
    submit_job agrees 9 0 (codes "x") 4 info none init ≡ (err (http 503), forgetting 9 init)
unfolding select
submit_job_refused_example =
    submit_job_refused agrees 9 0 (codes "x") 4 info init Reachable.starts refl

small_twice : is_capable small small ≡ true
unfolding is_capable lez
small_twice = refl
