-- ===== src/Rest/Delivery/Tests.antt =====
-- The delivery of the results of one job (rest/nodes/executor.py).
use ma_sinafadavi_gpt.Base.{
  text_eq, text_eq_refl, ◌≡◌, refl, Bool, true, false, List, [], ◌∷◌, ◌++◌, length, Text, codes, ok,
}
use ma_sinafadavi_gpt.Rest.Delivery.{
  Call, store_data, send_result, store_note, job_done, delete_job, Answers, Delivery,
  store_job_in_datastore,
}
use ma_sinafadavi_gpt.Rest.Delivery.Samples.{finished}
use ma_sinafadavi_gpt.Rest.Delivery.Outcome.{Ended, farewell, store_job_in_datastore-Ended}

-- The client cannot be reached, and no datastore takes more than the text.
abbrev too_big : Answers
too_big calls (store_data n p) = false
too_big calls (send_result i p) = false
too_big calls (store_note n) = true
too_big calls (job_done i) = true
too_big calls (delete_job i) = true

-- Only the result can be opened.
abbrev opens : List Call → Text → Bool
opens calls path = text_eq path finished.result_path

abbrev start : Delivery
start = record { calls = []; to_store_named = (codes "/e/a", codes "a") ∷ [] }

-- The named result cannot be opened. Twenty tries are refused, of the client and of the datastores.
calls_made : length (store_job_in_datastore too_big opens finished start).1.calls ≡ 23
unfolding text_eq store_job_in_datastore ma_sinafadavi_gpt.Base.Actions.next
    ma_sinafadavi_gpt.Rest.Delivery.do_store_in_datastore ma_sinafadavi_gpt.Rest.Delivery.retry
    ma_sinafadavi_gpt.Rest.Delivery.store_named ma_sinafadavi_gpt.Rest.Delivery.store_each
    ma_sinafadavi_gpt.Rest.Delivery.send_or_store ma_sinafadavi_gpt.Rest.Delivery.opening
    ma_sinafadavi_gpt.Rest.Delivery.unless_done ma_sinafadavi_gpt.Rest.Delivery.store_result
    ma_sinafadavi_gpt.Rest.Delivery.store_error ma_sinafadavi_gpt.Rest.Delivery.report
calls_made = refl

store_job_in_datastore-Ended_example :
    let r = store_job_in_datastore too_big opens finished start in
    (r.0 ≡ ok tt)
    × ((calls : List Call) × Ended too_big finished calls
        × (r.1.calls ≡ calls ++ job_done 1 ∷ farewell finished))
store_job_in_datastore-Ended_example =
    store_job_in_datastore-Ended too_big opens finished (λ calls. text_eq_refl finished.result_path)
      start
