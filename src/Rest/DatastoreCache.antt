-- ===== src/Rest/DatastoreCache.antt =====
-- The cache of the pages that datastores answered with (rest/nodes/brokers/datastorecache.py). Times are
-- counted as in Rest/ExecutorBroker; a call reads the clock once, though the source reads it for each
-- page.
pub mod Found
pub mod Expired
mod Tests
use ma_sinafadavi_gpt.Base.{
  ℕ, ◌+◌, ◌*◌, ◌^◌, Bool, true, false, not, ◌&&◌, ◌||◌, Option, none, some, List, [], ◌∷◌, ◌++◌,
  Text, text_eq, starts_with, is_empty, member, select, Result, ok, err, ltb, ◌==◌, if◌then◌else◌,
}
use ma_sinafadavi_gpt.Base.Dict
use ma_sinafadavi_gpt.Base.Dict.{Dict}
use ma_sinafadavi_gpt.Base.Exceptions.{not_in_list}
use ma_sinafadavi_gpt.Rest.Model.{Address}

-- A datastore as the broker knows it.
pub record Datastore : Type 0 where
  pub id : ℕ
  pub address : Address

-- A page by its items.
pub record CachePage : Type 0 where
  pub datastore : Datastore
  pub page : List Text
  pub time : ℕ

-- The searches of a job, each with its pages.
abbrev pub Searches : Type 0
Searches = Dict (List CachePage)

abbrev pub Cache : Type 0
Cache = List (Option ℕ × Searches)

texts_eq : List Text → List Text → Bool
texts_eq [] [] = true
texts_eq [] (t ∷ ts) = false
texts_eq (s ∷ ss) [] = false
texts_eq (s ∷ ss) (t ∷ ts) = text_eq s t && texts_eq ss ts

-- `a == b`, field by field
unfoldable pub same_page : CachePage → CachePage → Bool
unfolding texts_eq
same_page a b =
    (a.datastore.id == b.datastore.id)
    && text_eq a.datastore.address.host b.datastore.address.host
    && (a.datastore.address.port == b.datastore.address.port)
    && texts_eq a.page b.page
    && (a.time == b.time)

unfoldable pub page_in : CachePage → List CachePage → Bool
page_in p [] = false
page_in p (q ∷ qs) = same_page q p || page_in p qs

-- 60 s in ticks, and `time.time() - cache_page.time > 60`
abbrev pub lifetime : ℕ
lifetime = 60 * 2 ^ 22

unfoldable pub is_old : ℕ → CachePage → Bool
is_old now p = ltb (p.time + lifetime) now

-- `search in name`
unfoldable pub contains : Text → Text → Bool
contains search [] = is_empty search
contains search (c ∷ s) = starts_with (c ∷ s) search || contains search s

-- The loop over the pages of a search: the old ones that it passes, and the first that lists the name.
unfoldable pub scan : ℕ → Text → List CachePage → List CachePage × Option CachePage
scan now name [] = ([], none)
scan now name (p ∷ ps) =
    let rest = scan now name ps in
    let old = if is_old now p then p ∷ [] else [] in
    if member name p.page then (old, some p) else (old ++ rest.0, rest.1)

-- `[page for page in pages if page not in removed]`
unfoldable pub without : List CachePage → List CachePage → List CachePage
without removed pages = select (λ p. not (page_in p removed)) pages

found_at :
    Text
    → Option CachePage
    → List CachePage
    → Searches
    → Option (CachePage × Text) × Searches
    → Option (CachePage × Text) × Searches
found_at search (some p) pages rest later = (some (p, search), (search, pages) ∷ rest)
found_at search none pages rest later = (later.0, (search, pages) ∷ later.1)

-- The loop of `__get_cache_place`
unfoldable pub find_place : ℕ → Text → Searches → Option (CachePage × Text) × Searches
unfolding found_at
find_place now name [] = (none, [])
find_place now name ((search, pages) ∷ rest) =
    let later = find_place now name rest in
    let r = scan now name pages in
    let here = found_at search r.1 (without r.0 pages) rest later in
    if contains search name then here else (later.0, (search, pages) ∷ later.1)

same_job : Option ℕ → Option ℕ → Bool
same_job none none = true
same_job none (some j) = false
same_job (some i) none = false
same_job (some i) (some j) = i == j

-- `self.cache.get(job_id, None)`
unfoldable pub searches_of : Option ℕ → Cache → Option Searches
unfolding same_job
searches_of job [] = none
searches_of job ((j, d) ∷ cache) =
    let rest = searches_of job cache in if same_job j job then some d else rest

-- `self.cache[job_id] = searches`
unfoldable pub put_searches : Option ℕ → Searches → Cache → Cache
unfolding same_job
put_searches job d [] = (job, d) ∷ []
put_searches job d ((j, c) ∷ cache) =
    let rest = (j, c) ∷ put_searches job d cache in if same_job j job then (j, d) ∷ cache else rest

place_in : ℕ → Text → Option ℕ → Option Searches → Cache → Option (CachePage × Text) × Cache
place_in now name job none cache = (none, cache)
place_in now name job (some d) cache =
    let r = find_place now name d in (r.0, put_searches job r.1 cache)

-- `__get_cache_place`
unfoldable pub get_cache_place : ℕ → Text → Option ℕ → Cache → Option (CachePage × Text) × Cache
unfolding place_in
get_cache_place now name job cache = place_in now name job (searches_of job cache) cache

datastore_of : Option (CachePage × Text) → Option Datastore
datastore_of none = none
datastore_of (some (p, search)) = some p.datastore

-- `get`
unfoldable pub get : ℕ → Text → Option ℕ → Cache → Option Datastore × Cache
unfolding datastore_of
get now name job cache = let r = get_cache_place now name job cache in (datastore_of r.0, r.1)

-- What stands under a key, or nothing yet.
searches_or_none : Option Searches → Searches
searches_or_none none = []
searches_or_none (some d) = d

pages_or_none : Option (List CachePage) → List CachePage
pages_or_none none = []
pages_or_none (some pages) = pages

-- `set`
unfoldable pub set : ℕ → List Text → Datastore → Text → Option ℕ → Cache → Cache
unfolding searches_or_none pages_or_none
set now items datastore search job cache =
    let d = searches_or_none (searches_of job cache) in
    let p : CachePage = record { datastore = datastore; page = items; time = now } in
    put_searches job (Dict.put search (pages_or_none (Dict.lookup search d) ++ p ∷ []) d) cache

push : CachePage → Result (List CachePage) → Result (List CachePage)
push q (ok qs) = ok (q ∷ qs)
push q (err e) = err e

-- `pages.remove(page)`
unfoldable pub remove_page : CachePage → List CachePage → Result (List CachePage)
unfolding push
remove_page p [] = err not_in_list
remove_page p (q ∷ qs) =
    let rest = push q (remove_page p qs) in if same_page q p then ok qs else rest

removed_from :
    Text → Option ℕ → Searches → Cache → Result (List CachePage) → Result (Unit {0}) × Cache
removed_from search job d cache (err e) = (err e, cache)
removed_from search job d cache (ok pages) =
    (ok tt, put_searches job (Dict.put search pages d) cache)

invalidated : Option ℕ → Option (CachePage × Text) × Cache → Result (Unit {0}) × Cache
unfolding removed_from searches_or_none pages_or_none
invalidated job (none, cache) = (ok tt, cache)
invalidated job (some (p, search), cache) =
    let d = searches_or_none (searches_of job cache) in
    removed_from search job d cache (remove_page p (pages_or_none (Dict.lookup search d)))

-- `invalidate`
unfoldable pub invalidate : ℕ → Text → Option ℕ → Cache → Result (Unit {0}) × Cache
unfolding invalidated
invalidate now name job cache = invalidated job (get_cache_place now name job cache)
