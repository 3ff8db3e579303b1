-- ===== src/Rest/DataBroker/Storing.antt =====
-- Where a REST broker puts data (rest/nodes/brokers/databroker.py).
use ma_sinafadavi_gpt.Base.{
  ℕ, pos, lez, ◌≡◌, ◌⊎◌, inl, inr, Bool, false, not, Option-cases, [], select, ok, err, arith,
}
use ma_sinafadavi_gpt.Base.Exceptions.{http}
use ma_sinafadavi_gpt.Rest.DatastoreCache.{Datastore}
use ma_sinafadavi_gpt.Rest.Draw.{choice, IsOne, choice_one, choice-none}
use ma_sinafadavi_gpt.Rest.DataBroker.{Broker, FreeSpace, can_hold, chosen, datastore_for_storage}

-- Either no known datastore reports more free space than the data needs, and the answer has status 503,
-- or a known datastore that does is chosen for the data.
pub datastore_for_storage_lem :
    (free : FreeSpace) (drawn required : ℕ) (b : Broker)
    → ((select (λ d. not (lez (free d) (pos required))) b.datastores ≡ [])
        × ((datastore_for_storage free drawn required b).0 ≡ err (http 503)))
      ⊎ ((d : Datastore) × ((datastore_for_storage free drawn required b).0 ≡ ok d)
          × IsOne d b.datastores
          × (lez (free d) (pos required) ≡ false))
unfolding datastore_for_storage can_hold chosen
datastore_for_storage_lem free drawn required b =
    let larger : Datastore → Bool = λ d. not (lez (free d) (pos required)) in
    elim (Option-cases (choice drawn (select larger b.datastores))) [
      | inl nothing ↦ inl (choice-none drawn (select larger b.datastores) nothing, rw nothing)
      | inr (d, drawn_there) ↦
          let (known, fits) = choice_one drawn larger b.datastores d drawn_there in
          inr (d, rw drawn_there, known, ground arith)
    ]
