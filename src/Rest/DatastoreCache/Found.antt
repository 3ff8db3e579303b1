-- ===== src/Rest/DatastoreCache/Found.antt =====
-- What the cache of a REST broker finds (rest/nodes/brokers/datastorecache.py).
use ma_sinafadavi_gpt.Base.{
  ℕ, ◌≡◌, ◌∙◌, ◌⊎◌, ap, inl, inr, Bool-cases, true, Option, Option-cases, none, some, List, [], ◌∷◌,
  Text, member,
}
use ma_sinafadavi_gpt.Rest.DatastoreCache.{
  Datastore, CachePage, Searches, Cache, contains, scan, found_at, find_place, searches_of,
  place_in, get_cache_place, datastore_of, get,
}

-- Some page of a list satisfies a condition.
abbrev pub SomePage : (CachePage → Type 0) → List CachePage → Type 0
SomePage P [] = ⊥
SomePage P (p ∷ ps) = P p ⊎ SomePage P ps

-- Some page of the searches that are part of the name.
abbrev pub SomeFor : Text → (CachePage → Type 0) → Searches → Type 0
SomeFor name P [] = ⊥
SomeFor name P ((search, pages) ∷ d) =
    ((contains search name ≡ true) × SomePage P pages) ⊎ SomeFor name P d

abbrev pub Lists : Text → CachePage → Type 0
Lists name p = member name p.page ≡ true

scan_found :
    (now : ℕ) (name : Text) (pages : List CachePage) (p : CachePage)
    → (scan now name pages).1 ≡ some p
    → SomePage (λ q. (q ≡ p) × Lists name q) pages
unfolding scan
scan_found now name [] p h = absurd (cc)
scan_found now name (q ∷ qs) p h = elim (Bool-cases (member name q.page)) [
  | inl listed ↦ inl (cc (rw listed at h), listed)
  | inr other ↦ inr (scan_found now name qs p (rw other at h))
]

scan-none :
    (now : ℕ) (name : Text) (pages : List CachePage)
    → (scan now name pages).1 ≡ none
    → SomePage (Lists name) pages
    → ⊥
unfolding scan
scan-none now name [] h there = there
scan-none now name (q ∷ qs) h (inl listed) = cc (rw listed at h)
scan-none now name (q ∷ qs) h (inr later) = elim (Bool-cases (member name q.page)) [
  | inl listed ↦ cc (rw listed at h)
  | inr other ↦ scan-none now name qs (rw other at h) later
]

find_place_found :
    (now : ℕ) (name : Text) (d : Searches) (p : CachePage) (search : Text)
    → (find_place now name d).0 ≡ some (p, search)
    → SomeFor name (λ q. (q ≡ p) × Lists name q) d
unfolding find_place found_at
find_place_found now name [] p search h = absurd (cc)
find_place_found now name ((s, pages) ∷ d) p search h = elim (Bool-cases (contains s name)) [
  | inr apart ↦ inr (find_place_found now name d p search (rw apart at h))
  | inl part ↦ elim (Option-cases (scan now name pages).1) [
    | inl nothing ↦ inr (find_place_found now name d p search (rw (part, nothing) at h))
    | inr (q, hit) ↦
        let same : q ≡ p = cc (rw (part, hit) at h) in
        inl (part, scan_found now name pages p (hit ∙ ap some same))
  ]
]

find_place-none :
    (now : ℕ) (name : Text) (d : Searches)
    → (find_place now name d).0 ≡ none
    → SomeFor name (Lists name) d
    → ⊥
unfolding find_place found_at
find_place-none now name [] h there = there
find_place-none now name ((s, pages) ∷ d) h (inl (part, there)) =
    elim (Option-cases (scan now name pages).1) [
      | inl nothing ↦ scan-none now name pages nothing there
      | inr (q, hit) ↦ cc (rw (part, hit) at h)
    ]
find_place-none now name ((s, pages) ∷ d) h (inr later) = elim (Bool-cases (contains s name)) [
  | inr apart ↦ find_place-none now name d (rw apart at h) later
  | inl part ↦ elim (Option-cases (scan now name pages).1) [
    | inl nothing ↦ find_place-none now name d (rw (part, nothing) at h) later
    | inr (q, hit) ↦ cc (rw (part, hit) at h)
  ]
]

SomePage-map :
    (P Q : CachePage → Type 0)
    → ((p : CachePage) → P p → Q p)
    → (ps : List CachePage) → SomePage P ps
    → SomePage Q ps
SomePage-map P Q f [] h = h
SomePage-map P Q f (p ∷ ps) (inl h) = inl (f p h)
SomePage-map P Q f (p ∷ ps) (inr h) = inr (SomePage-map P Q f ps h)

SomeFor-map :
    (name : Text) (P Q : CachePage → Type 0)
    → ((p : CachePage) → P p → Q p)
    → (d : Searches) → SomeFor name P d
    → SomeFor name Q d
SomeFor-map name P Q f [] h = h
SomeFor-map name P Q f ((s, ps) ∷ d) (inl (part, h)) = inl (part, SomePage-map P Q f ps h)
SomeFor-map name P Q f ((s, ps) ∷ d) (inr h) = inr (SomeFor-map name P Q f d h)

-- Either the cache knows no page that lists the name under a search of the job that is part of the name,
-- and nothing is found, or a datastore is found that answered with such a page.
pub get_lem :
    (now : ℕ) (name : Text) (job : Option ℕ) (cache : Cache) (d : Searches)
    → searches_of job cache ≡ some d
    → (((get now name job cache).0 ≡ none) × (SomeFor name (Lists name) d → ⊥))
      ⊎ ((datastore : Datastore) × ((get now name job cache).0 ≡ some datastore)
          × SomeFor name (λ q. (q.datastore ≡ datastore) × Lists name q) d)
unfolding get get_cache_place place_in datastore_of
get_lem now name job cache d known = elim (Option-cases (find_place now name d).0) [
  | inl nothing ↦ inl (rw (known, nothing), find_place-none now name d nothing)
  | inr ((p, search), hit) ↦ inr (
    p.datastore,
    rw (known, hit),
    SomeFor-map name (λ q. (q ≡ p) × Lists name q) (λ q. (q.datastore ≡ p.datastore) × Lists name q)
        (λ q (same, listed). (ap (λ (x : CachePage). x.datastore) same, listed)) d
        (find_place_found now name d p search hit),
  )
]
