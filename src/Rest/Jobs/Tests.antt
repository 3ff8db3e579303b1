-- ===== src/Rest/Jobs/Tests.antt =====
-- One job with a standard input, on the client and on an executor (rest/job.py).
use ma_sinafadavi_gpt.Base.{◌≡◌, refl, ◌∷◌, ◌++◌, Text, codes, ok, err}
use ma_sinafadavi_gpt.Base.Exceptions.{attribute_error}
use ma_sinafadavi_gpt.Rest.Delivery.Samples.{finished}
use ma_sinafadavi_gpt.Rest.Model.{placed, JobInfo}
use ma_sinafadavi_gpt.Rest.Jobs.{transform_job_info_broker, Place, internal}
use ma_sinafadavi_gpt.Rest.Jobs.Stdin.{placed_stdin_refused}

abbrev piped : JobInfo
piped = record finished.job_info { stdin = placed (codes "in.txt") (codes "input") }

abbrev place : Place
place = record { code_dir = codes "/e/code"; data_dir = codes "/e/data" }

abbrev join : Text → Text → Text
join a b = a ++ b'/' ∷ b

abbrev same : Text → Text
same path = path

placed_stdin_refused_example :
    (sent : JobInfo) × (transform_job_info_broker 7 piped ≡ ok sent)
    × (internal join same same same place sent ≡ err attribute_error)
placed_stdin_refused_example =
    placed_stdin_refused join same same same 7 place piped (refl, refl) tt
