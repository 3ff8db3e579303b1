-- ===== src/Executor/Results.antt =====
-- What the executor does with the results of a job (dtn/executor.py).
use ma_sinafadavi_gpt.Base.{
  ◌≡◌, ◌∙◌, refl, sym, true, false, Option, none, some, [], ◌∷◌, ◌++◌, map, append_assoc,
  append-nil, Text, Bytes, is_empty, Result, ok, err, All, arith, if◌then◌else◌,
}
use ma_sinafadavi_gpt.Base.Dict.{Dict}
use ma_sinafadavi_gpt.Eid.{Endpoint, truthy, datastore_address}
use ma_sinafadavi_gpt.Bundles
use ma_sinafadavi_gpt.Bundles.{BundleData, Names, one, bundle, new}
use ma_sinafadavi_gpt.Bundles.BundleType
use ma_sinafadavi_gpt.Messages.{create, new_create}
use ma_sinafadavi_gpt.Jobs.{JobInfo}
use ma_sinafadavi_gpt.Node.{Node}
use ma_sinafadavi_gpt.Node.Agent.{Agent, Logs, send_bundle, ask_agent}
use ma_sinafadavi_gpt.Executor.Intake.{truthy-datastore_address}

-- The bundle with the results of a job, and the one with a named result.
abbrev pub result_bundle : Node → Endpoint → Bytes → BundleData
result_bundle n receiver results = record (bundle BundleType.job_result n.node_id receiver) {
  payload = results;
}

abbrev pub named_bundle : Node → Text × Bytes → BundleData
named_bundle n (name, content) = record (bundle BundleType.ndata_put n.node_id datastore_address) {
  payload = content;
  named_data = one name;
}

module _ {S : Type 0} (agent : Agent S) where
  -- A bundle that may fail to be made is sent; what the agent answers or raises is logged.
  unfoldable pub offer : Result BundleData → S → Result (Unit {0}) × S
  offer (err e) s = (err e, s)
  offer (ok b) s = (ok tt, (send_bundle agent b s).1)

  present : Option Bytes → Bytes
  present none = []
  present (some results) = results

  -- `_send_results`
  unfoldable pub send_results : Node → JobInfo → Option Bytes → S → Result (Unit {0}) × S
  unfolding present offer
  send_results n job results s =
      if is_empty (present results)
      then (ok tt, s)
      else if truthy job.results_receiver
      then offer (new (result_bundle n job.results_receiver (present results))) s
      else (ok tt, s)

  offered : Result (Unit {0}) × S → (S → Result (Unit {0}) × S) → Result (Unit {0}) × S
  offered (err e, s) rest = (err e, s)
  offered (ok _, s) rest = rest s

  -- `_send_named_results`
  unfoldable pub send_named_results : Node → Dict Bytes → S → Result (Unit {0}) × S
  unfolding offered offer
  send_named_results n [] s = (ok tt, s)
  send_named_results n (result ∷ results) s =
      offered (offer (new (named_bundle n result)) s) (send_named_results n results)

  new-named_bundle :
      (n : Node) (result : Text × Bytes)
      → truthy n.node_id ≡ true
      → is_empty result.0 ≡ false
      → new (named_bundle n result) ≡ ok (named_bundle n result)
  unfolding new Bundles.has_names
  new-named_bundle n (name, content) h named =
      rw (h, truthy-datastore_address, named) (ground arith)

  -- Every named result is offered to the agent, in order, in a bundle for the datastores, whatever the
  -- agent answered or raised to the ones before, and nothing is raised, if the executor's endpoint is
  -- not `dtn:none` and no result has the empty name.
  pub named_results_offered :
      (logs : Logs S agent) (n : Node) (results : Dict Bytes) (s : S)
      → truthy n.node_id ≡ true
      → All (λ (r : Text × Bytes). is_empty r.0 ≡ false) results
      → ((send_named_results n results s).0 ≡ ok tt)
        × (logs.log (send_named_results n results s).1
            ≡ logs.log s ++ map (λ r. create (named_bundle n r)) results)
  unfolding send_named_results send_bundle ask_agent new_create
  named_results_offered logs n [] s h named = (refl, sym (append-nil (logs.log s)))
  named_results_offered logs n (r ∷ results) s h (first, named) =
      let m = (agent (create (named_bundle n r)) s).1 in
      let (fine, offers) = named_results_offered logs n results m h named in
      rw (new-named_bundle n r h first) (
        fine,
        offers
            ∙ rw (logs.log-agent (create (named_bundle n r)) s) (
                append_assoc (logs.log s) (create (named_bundle n r) ∷ [])
                  (map (λ x. create (named_bundle n x)) results)),
      )
