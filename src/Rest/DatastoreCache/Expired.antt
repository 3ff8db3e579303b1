-- ===== src/Rest/DatastoreCache/Expired.antt =====
-- Old pages in the cache of a REST broker (rest/nodes/brokers/datastorecache.py).
use ma_sinafadavi_gpt.Base.{
  ℕ, ◌≡◌, ◌∙◌, refl, ap, inl, inr, Bool-cases, true, Option, none, some, List, [], ◌∷◌, ◌++◌, Text,
  text_eq_iff, text_eq_refl, member, select, err, arith, if◌then◌else◌,
}
use ma_sinafadavi_gpt.Base.Dict
use ma_sinafadavi_gpt.Base.Exceptions.{not_in_list}
use ma_sinafadavi_gpt.Rest.DatastoreCache.{
  CachePage, Searches, Cache, texts_eq, same_page, page_in, is_old, contains, scan, without,
  found_at, find_place, same_job, searches_of, put_searches, place_in, get_cache_place, push, get,
  datastore_of, remove_page, searches_or_none, pages_or_none, removed_from, invalidated, invalidate,
}

texts_eq_sound : (ss ts : List Text) → texts_eq ss ts ≡ true → ss ≡ ts
unfolding texts_eq
texts_eq_sound [] [] h = refl
texts_eq_sound [] (t ∷ ts) h = cc
texts_eq_sound (s ∷ ss) [] h = cc
texts_eq_sound (s ∷ ss) (t ∷ ts) h = ground (arith, texts_eq_sound ss ts, text_eq_iff s t)

texts_eq_refl : (ss : List Text) → texts_eq ss ss ≡ true
unfolding texts_eq
texts_eq_refl [] = refl
texts_eq_refl (s ∷ ss) = ground (arith, texts_eq_refl ss, text_eq_refl s)

same_page_refl : (p : CachePage) → same_page p p ≡ true
unfolding same_page
same_page_refl p = ground (arith, text_eq_refl p.datastore.address.host, texts_eq_refl p.page)

same_page_sound : (p q : CachePage) → same_page p q ≡ true → p ≡ q
unfolding same_page
same_page_sound p q h =
    let ids : p.datastore.id ≡ q.datastore.id = ground arith in
    let hosts : p.datastore.address.host ≡ q.datastore.address.host =
      (text_eq_iff p.datastore.address.host q.datastore.address.host).0 (ground arith) in
    let ports : p.datastore.address.port ≡ q.datastore.address.port = ground arith in
    let pages : p.page ≡ q.page = texts_eq_sound p.page q.page (ground arith) in
    let times : p.time ≡ q.time = ground arith in cc

page_in-append :
    (p : CachePage) (ps qs : List CachePage) → page_in p qs ≡ true → page_in p (ps ++ qs) ≡ true
unfolding page_in
page_in-append p [] qs h = h
page_in-append p (r ∷ ps) qs h = ground (arith, page_in-append p ps qs h)

-- A page that is found although it is old is among those that are dropped.
scan-dropped :
    (now : ℕ) (name : Text) (pages : List CachePage) (p : CachePage)
    → (scan now name pages).1 ≡ some p
    → is_old now p ≡ true
    → page_in p (scan now name pages).0 ≡ true
unfolding scan page_in
scan-dropped now name [] p h old = absurd (cc)
scan-dropped now name (q ∷ qs) p h old = elim (Bool-cases (member name q.page)) [
  | inl listed ↦
      let same : q ≡ p = cc (rw listed at h) in
      rw (listed, same, old) (ground (arith, same_page_refl p))
  | inr other ↦ rw other (
      page_in-append p (if is_old now q then q ∷ [] else []) (scan now name qs).0
        (scan-dropped now name qs p (rw other at h) old))
]

-- No page that is left equals one that was dropped.
remove_page-without :
    (p : CachePage) (removed pages : List CachePage)
    → page_in p removed ≡ true
    → remove_page p (without removed pages) ≡ err not_in_list
unfolding remove_page without select push
remove_page-without p removed [] h = refl
remove_page-without p removed (q ∷ qs) h = elim (Bool-cases (page_in q removed)) [
  | inl gone ↦ rw gone (remove_page-without p removed qs h)
  | inr stays ↦ elim (Bool-cases (same_page q p)) [
    | inl same ↦ absurd (cc (same_page_sound q p same))
    | inr differ ↦ rw (stays, differ, remove_page-without p removed qs h)
  ]
]

same_job_refl : (job : Option ℕ) → same_job job job ≡ true
unfolding same_job
same_job_refl none = refl
same_job_refl (some j) = ground arith

searches_of-put_searches :
    (job : Option ℕ) (d : Searches) (cache : Cache)
    → searches_of job (put_searches job d cache) ≡ some d
unfolding searches_of put_searches
searches_of-put_searches job d [] = rw (same_job_refl job)
searches_of-put_searches job d ((j, c) ∷ cache) = elim (Bool-cases (same_job j job)) [
  | inl same ↦ rw (same, same)
  | inr other ↦ rw (other, other) (searches_of-put_searches job d cache)
]

lookup-head :
    (key : Text) (pages : List CachePage) (d : Searches)
    → Dict.lookup key ((key, pages) ∷ d) ≡ some pages
unfolding Dict.lookup
lookup-head key pages d = rw (text_eq_refl key)

find_place-head :
    (now : ℕ) (name key : Text) (pages : List CachePage) (d : Searches) (p : CachePage)
    → contains key name ≡ true
    → (scan now name pages).1 ≡ some p
    → find_place now name ((key, pages) ∷ d)
      ≡ (some (p, key), (key, without (scan now name pages).0 pages) ∷ d)
unfolding find_place found_at
find_place-head now name key pages d p part hit = rw (part, hit)

get_cache_place-known :
    (now : ℕ) (name : Text) (job : Option ℕ) (key : Text) (pages : List CachePage) (d : Searches)
    (cache : Cache) (p : CachePage)
    → searches_of job cache ≡ some ((key, pages) ∷ d)
    → contains key name ≡ true
    → (scan now name pages).1 ≡ some p
    → get_cache_place now name job cache
      ≡ (some (p, key), put_searches job ((key, without (scan now name pages).0 pages) ∷ d) cache)
unfolding get_cache_place place_in
get_cache_place-known now name job key pages d cache p known part hit =
    rw (known, find_place-head now name key pages d p part hit)

invalidated-known :
    (job : Option ℕ) (key : Text) (pages : List CachePage) (d : Searches) (cache : Cache)
    (p : CachePage)
    → searches_of job cache ≡ some ((key, pages) ∷ d)
    → remove_page p pages ≡ err not_in_list
    → (invalidated job (some (p, key), cache)).0 ≡ err not_in_list
unfolding invalidated searches_or_none pages_or_none removed_from
invalidated-known job key pages d cache p known lost = rw (known, lookup-head key pages d, lost)

-- Where the cache has searches for a job, the first of them is part of a name, and the first of its pages
-- that lists the name is older than 60 s, `get` answers with the datastore of that page all the same, and
-- `invalidate` raises `ValueError`, because the page was dropped from its list before it is removed from
-- there.
pub old_page_answered :
    (now : ℕ) (name : Text) (job : Option ℕ) (key : Text) (pages : List CachePage) (d : Searches)
    (cache : Cache) (p : CachePage)
    → searches_of job cache ≡ some ((key, pages) ∷ d)
    → contains key name ≡ true
    → (scan now name pages).1 ≡ some p
    → is_old now p ≡ true
    → ((get now name job cache).0 ≡ some p.datastore)
      × ((invalidate now name job cache).0 ≡ err not_in_list)
unfolding get datastore_of invalidate
old_page_answered now name job key pages d cache p known part hit old =
    let place = get_cache_place-known now name job key pages d cache p known part hit in
    let left : Searches = (key, without (scan now name pages).0 pages) ∷ d in
    (
      ap (λ r. datastore_of r.0) place,
      ap (λ r. (invalidated job r).0) place
          ∙ invalidated-known job key (without (scan now name pages).0 pages) d
              (put_searches job left cache) p (searches_of-put_searches job left cache)
              (remove_page-without p (scan now name pages).0 pages
                (scan-dropped now name pages p hit old)),
    )
