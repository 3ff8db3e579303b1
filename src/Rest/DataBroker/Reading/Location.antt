-- ===== src/Rest/DataBroker/Reading/Location.antt =====
-- Where a REST broker finds data (rest/nodes/brokers/databroker.py).
use ma_sinafadavi_gpt.Base.{
  ℕ, ◌≡◌, refl, inl, inr, Bool, Bool-cases, false, ◌||◌, Option, none, some, List, [], ◌∷◌, Text,
  is_empty, member, All, if◌then◌else◌,
}
use ma_sinafadavi_gpt.Rest.DatastoreCache
use ma_sinafadavi_gpt.Rest.DatastoreCache.{Datastore, Cache}
use ma_sinafadavi_gpt.Rest.DataBroker.{Broker, Pages, visited, visit_pages, visit_all, iter_data}
use ma_sinafadavi_gpt.Rest.DataBroker.Reading.{if_listed, term_of, or_search, job_data_location}

-- Whether one of the pages lists the name.
abbrev pub listed : Text → List (List Text) → Bool
listed name [] = false
listed name (page ∷ pages) = member name page || listed name pages

-- The first datastore that passes a test.
abbrev pub first_with : (Datastore → Bool) → List Datastore → Option Datastore
first_with p [] = none
first_with p (d ∷ ds) = let rest = first_with p ds in if p d then some d else rest

-- The pages stand before the first empty one.
abbrev pub AllFilled : List (List Text) → Type 0
AllFilled = All (λ page. is_empty page ≡ false)

module _ (now : ℕ) (term : Text) (job : Option ℕ) (name : Text) where
  visit_pages_lem :
      (d : Datastore) (pages : List (List Text)) (b : Broker)
      (next : Unit {0} → Broker → Option Datastore × (Unit {0} × Broker)) (r : Option Datastore)
      → AllFilled pages
      → ((c : Broker) → (next tt c).0 ≡ r)
      → (visit_pages (if_listed name) now term job d pages tt b next).0
        ≡ (if listed name pages then some d else r)
  unfolding visit_pages visited member
  visit_pages_lem d [] b next r filled after = after b
  visit_pages_lem d (page ∷ pages) b next r (full, filled) after =
      elim (Bool-cases (member name page)) [
        | inl here ↦ rw (full, here)
        | inr absent ↦
            rw (full, absent)
              (visit_pages_lem d pages
                (record b { cache = DatastoreCache.set now page d term job b.cache }) next r filled
                after)
      ]

  visit_all_lem :
      (pages : Pages) (ds : List Datastore) (b : Broker)
      → All (λ d. AllFilled (pages d)) ds
      → (visit_all (if_listed name) now term job pages ds tt b).0
        ≡ first_with (λ d. listed name (pages d)) ds
  unfolding visit_all
  visit_all_lem pages [] b filled = refl
  visit_all_lem pages (d ∷ ds) b (full, filled) =
      visit_pages_lem d (pages d) b (visit_all (if_listed name) now term job pages ds)
        (first_with (λ e. listed name (pages e)) ds) full (λ c. visit_all_lem pages ds c filled)

searched :
    (now : ℕ) (pages : Pages) (name : Text) (job : Option ℕ) (b : Broker)
    (r : Option Datastore × Cache)
    → r.0 ≡ none
    → All (λ d. AllFilled (pages d)) b.datastores
    → (or_search now pages name job r b).0 ≡ first_with (λ d. listed name (pages d)) b.datastores
unfolding or_search iter_data
searched now pages name job b (some d, cache) missed filled = absurd (cc)
searched now pages name job b (none, cache) missed filled =
    visit_all_lem now (term_of name job) job name pages b.datastores (record b { cache = cache })
      filled

-- Where the cache finds nothing, the data is taken to be at the first of the known datastores, in their
-- order, one of whose pages before its first empty one lists the name, or nowhere if there is none.
pub job_data_location_lem :
    (now : ℕ) (pages : Pages) (name : Text) (job : Option ℕ) (b : Broker)
    → (DatastoreCache.get now name job b.cache).0 ≡ none
    → All (λ d. AllFilled (pages d)) b.datastores
    → (job_data_location now pages name job b).0
      ≡ first_with (λ d. listed name (pages d)) b.datastores
unfolding job_data_location
job_data_location_lem now pages name job b missed filled =
    searched now pages name job b (DatastoreCache.get now name job b.cache) missed filled
