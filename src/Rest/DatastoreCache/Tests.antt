-- ===== src/Rest/DatastoreCache/Tests.antt =====
-- A cache with concrete pages (rest/nodes/brokers/datastorecache.py).
use ma_sinafadavi_gpt.Base.{
  ◌≡◌, refl, true, none, some, [], ◌∷◌, codes, starts_with, member, text_eq, err,
}
use ma_sinafadavi_gpt.Base.Exceptions.{not_in_list}
use ma_sinafadavi_gpt.Rest.DatastoreCache.{
  Datastore, CachePage, Cache, Searches, is_old, contains, scan, searches_of, same_job, get,
  invalidate,
}
use ma_sinafadavi_gpt.Rest.DatastoreCache.Expired.{old_page_answered}

abbrev store : Datastore
store = record { id = 1; address = record { host = codes "h"; port = 2 } }

abbrev listing : CachePage
listing = record { datastore = store; page = codes "a/b" ∷ []; time = 5 }

abbrev searches : Searches
searches = (codes "a", listing ∷ []) ∷ []

abbrev cache : Cache
cache = (none, searches) ∷ []

searches_known : searches_of none cache ≡ some searches
unfolding searches_of same_job
searches_known = refl

part : contains (codes "a") (codes "a/b") ≡ true
unfolding contains starts_with
part = refl

hit : (scan 900000000 (codes "a/b") (listing ∷ [])).1 ≡ some listing
unfolding scan member text_eq
hit = refl

old : is_old 900000000 listing ≡ true
unfolding is_old
old = refl

old_page_answered_example :
    ((get 900000000 (codes "a/b") none cache).0 ≡ some store)
    × ((invalidate 900000000 (codes "a/b") none cache).0 ≡ err not_in_list)
old_page_answered_example =
    old_page_answered 900000000 (codes "a/b") none (codes "a") (listing ∷ []) [] cache listing
      searches_known part hit old
