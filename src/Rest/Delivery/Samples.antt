-- ===== src/Rest/Delivery/Samples.antt =====
-- A job that has run, for tests of the REST client and executor.
use ma_sinafadavi_gpt.Base.{pos, true, false, [], codes}
use ma_sinafadavi_gpt.Rest.Model.{name, Capabilities}
use ma_sinafadavi_gpt.Rest.Delivery.{Job}

abbrev nothing : Capabilities
nothing = record {
  memory = pos 0;
  disk = pos 0;
  cpu_load = pos 0;
  cpu_cores = pos 0;
  cpu_freq = pos 0;
  has_battery = false;
  power = pos 0;
}

abbrev pub finished : Job
finished = record {
  id = 1;
  result_path = codes "/e/1.zip";
  job_info = record {
    wasm_bin = name (codes "m");
    wasm_bin_is_named = true;
    stdin = name [];
    stdin_is_named = false;
    job_data = [];
    named_data = [];
    directories = [];
    args = [];
    env = [];
    zip_results = [];
    named_results = [];
    capabilities = nothing;
    result_addr = record { host = codes "c"; port = 8 };
    delete = true;
  };
}
