-- ===== src/Rest/DataBroker/Tests.antt =====
-- A REST broker with concrete datastores (rest/nodes/brokers/databroker.py).
use ma_sinafadavi_gpt.Base.{
  ◌≡◌, ◌⊎◌, refl, pos, lez, false, not, none, [], ◌∷◌, codes, select, ok, err,
}
use ma_sinafadavi_gpt.Base.Exceptions.{http}
use ma_sinafadavi_gpt.Rest.DatastoreCache
use ma_sinafadavi_gpt.Rest.DatastoreCache.{Datastore}
use ma_sinafadavi_gpt.Rest.Draw.{IsOne}
use ma_sinafadavi_gpt.Rest.DataBroker.{Broker, FreeSpace, Pages, datastore_for_storage}
use ma_sinafadavi_gpt.Rest.DataBroker.Reading.{job_data_location}
use ma_sinafadavi_gpt.Rest.DataBroker.Reading.Location.{listed, first_with, job_data_location_lem}
use ma_sinafadavi_gpt.Rest.DataBroker.Storing.{datastore_for_storage_lem}

abbrev store : Datastore
store = record { id = 1; address = record { host = codes "h"; port = 2 } }

abbrev broker : Broker
broker = record { datastores = store ∷ []; cache = []; pending_results = [] }

abbrev free : FreeSpace
free d = pos 100

abbrev pages : Pages
pages d = (codes "a/b" ∷ []) ∷ (codes "a/c" ∷ []) ∷ []

datastore_for_storage_lem_example :
    ((select (λ d. not (lez (free d) (pos 7))) broker.datastores ≡ [])
      × ((datastore_for_storage free 3 7 broker).0 ≡ err (http 503)))
    ⊎ ((d : Datastore) × ((datastore_for_storage free 3 7 broker).0 ≡ ok d)
        × IsOne d broker.datastores
        × (lez (free d) (pos 7) ≡ false))
datastore_for_storage_lem_example = datastore_for_storage_lem free 3 7 broker

missed : (DatastoreCache.get 9 (codes "a/c") none broker.cache).0 ≡ none
unfolding DatastoreCache.get DatastoreCache.get_cache_place DatastoreCache.searches_of
missed = refl

job_data_location_lem_example :
    (job_data_location 9 pages (codes "a/c") none broker).0
    ≡ first_with (λ d. listed (codes "a/c") (pages d)) broker.datastores
job_data_location_lem_example =
    job_data_location_lem 9 pages (codes "a/c") none broker missed ((refl, (refl, tt)), tt)
