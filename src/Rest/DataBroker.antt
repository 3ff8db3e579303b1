-- ===== src/Rest/DataBroker.antt =====
-- The data side of a REST broker (rest/nodes/brokers/databroker.py): the choice of a datastore for new
-- data, the search for data over the pages of the datastores, and the results that clients wait for. What
-- the nodes answer over HTTP and what `random.choice` draws are parameters.
pub mod Storing
pub mod Reading
mod Tests
use ma_sinafadavi_gpt.Base.{
  ℕ, ℤ, pos, negsuc, lez, Bool, not, ◌&&◌, ◌||◌, Option, none, some, List, [], ◌∷◌, ◌++◌, length,
  Text, Bytes, is_empty, select, Result, ok, err, ◌==◌, if◌then◌else◌,
}
use ma_sinafadavi_gpt.Base.Exceptions.{http}
use ma_sinafadavi_gpt.Rest.Draw.{choice}
use ma_sinafadavi_gpt.Rest.Model.{Address}
use ma_sinafadavi_gpt.Rest.DatastoreCache
use ma_sinafadavi_gpt.Rest.DatastoreCache.{Datastore, Cache}

-- The datastores that were discovered, the cache of their pages, and where results go.
pub record Broker : Type 0 where
  pub datastores : List Datastore
  pub cache : Cache
  pub pending_results : List (ℕ × Address)

-- `free_space()` of a datastore: -1 where it cannot be reached.
abbrev pub FreeSpace : Type 0
FreeSpace = Datastore → ℤ

-- `remove_datastore`
unfoldable pub remove_datastore : ℕ → List Datastore → List Datastore
remove_datastore id [] = []
remove_datastore id (d ∷ ds) =
    let rest = d ∷ remove_datastore id ds in if d.id == id then ds else rest

remove_all : List Datastore → List Datastore → List Datastore
unfolding remove_datastore
remove_all [] ds = ds
remove_all (d ∷ gone) ds = remove_all gone (remove_datastore d.id ds)

-- `free_space == -1`, and `free_space > required_storage`
unfoldable pub is_unreachable : FreeSpace → Datastore → Bool
is_unreachable free d = lez (free d) (negsuc 0) && lez (negsuc 0) (free d)

unfoldable pub can_hold : FreeSpace → ℕ → Datastore → Bool
can_hold free required d = not (lez (free d) (pos required))

chosen : Option Datastore → Result Datastore
chosen none = err (http 503)
chosen (some d) = ok d

-- `datastore_for_storage`
unfoldable pub datastore_for_storage : FreeSpace → ℕ → ℕ → Broker → Result Datastore × Broker
unfolding remove_all chosen
datastore_for_storage free drawn required b = (
  chosen (choice drawn (select (can_hold free required) b.datastores)),
  record b { datastores = remove_all (select (is_unreachable free) b.datastores) b.datastores },
)

-- What a datastore does with data that is put there.
abbrev pub Store : Type 0
Store = Datastore → Text → Bytes → Bool

stored : Store → Text → Bytes → Result Datastore × Broker → Result (Unit {0}) × Broker
stored store name content (err e, b) = (err e, b)
stored store name content (ok d, b) = let done = store d name content in (ok tt, b)

-- `store_data`: what the datastore answers is not looked at.
unfoldable pub store_data :
    FreeSpace → Store → ℕ → Text → Bytes → Broker → Result (Unit {0}) × Broker
unfolding stored
store_data free store drawn name content b =
    stored store name content (datastore_for_storage free drawn (length content) b)

-- The pages that a datastore answers with, in order, before the first empty one.
abbrev pub Pages : Type 0
Pages = Datastore → List (List Text)

-- What is done with a page of a datastore; a value ends the search.
abbrev pub ForPage : Type 0 → Type 0 → Type 0
ForPage A R = List Text → Datastore → A → Option R × A

module _ {A R : Type 0} (for_page : ForPage A R) (now : ℕ) (term : Text) (job : Option ℕ) where
  visited : Option R × A → Broker → (A → Broker → Option R × (A × Broker)) → Option R × (A × Broker)
  visited (some r, a) b rest = (some r, (a, b))
  visited (none, a) b rest = rest a b

  remember : List Text → Datastore → Broker → Broker
  remember page d b =
      if is_empty page
      then b
      else record b { cache = DatastoreCache.set now page d term job b.cache }

  -- The loop over the pages of a datastore: behind the last one comes an empty page, which ends it.
  visit_pages :
      Datastore
      → List (List Text)
      → A
      → Broker
      → (A → Broker → Option R × (A × Broker))
      → Option R × (A × Broker)
  unfolding visited remember
  visit_pages d [] a b next = visited (for_page [] d a) b next
  visit_pages d (page ∷ pages) a b next =
      let more =
        visited (for_page page d a) (remember page d b) (λ x c. visit_pages d pages x c next) in
      let last = visited (for_page page d a) b next in if is_empty page then last else more

  visit_all : Pages → List Datastore → A → Broker → Option R × (A × Broker)
  unfolding visit_pages
  visit_all pages [] a b = (none, (a, b))
  visit_all pages (d ∷ ds) a b = visit_pages d (pages d) a b (visit_all pages ds)

  -- `iter_data`, over the datastores that were known when it was called
  unfoldable pub iter_data : Pages → A → Broker → Option R × (A × Broker)
  unfolding visit_all
  iter_data pages a b = visit_all pages b.datastores a b

-- `get_data_glob`
unfoldable pub get_data_glob : ℕ → Pages → Text → Broker → List Text × Broker
get_data_glob now pages name b =
    let r =
      iter_data {R = Unit {0}} (λ page d found. (none, found ++ page)) now name none pages [] b in
    (r.1.0, r.1.1)
