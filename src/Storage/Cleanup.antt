-- ===== src/Storage/Cleanup.antt =====
-- `_cleanup`, its callers, and `find_missing` (dtn/storage.py).
use ma_sinafadavi_gpt.Base.{
  ◌≡◌, ◌≢◌, ◌∙◌, refl, ap, inl, inr, Bool, Bool-cases, Option-cases, false, not, ◌&&◌, none, some,
  List, [], ◌∷◌, Text, Bytes, text_eq, text_eq_iff, text_eq_refl, member, select, All, ok, err,
  arith, if◌then◌else◌,
}
use mathlib.Core.Option.{some-injective}
use ma_sinafadavi_gpt.Base.Dict
use ma_sinafadavi_gpt.Base.Exceptions.{name_taken, no_such_name}
use ma_sinafadavi_gpt.Storage.{
  Entry, Backend, IsLawful, Storage, named, store_data, cleanup, find_missing, copy_to_file,
  copy_first, copy_blob,
}
use ma_sinafadavi_gpt.Storage.View.{find, is_none, docs, search-find}
use ma_sinafadavi_gpt.Storage.Store.{store_data-name_taken}
use ma_sinafadavi_gpt.Storage.Invariant.{HasBlob}

find-select-not :
    (k j : Text) (es : List Entry)
    → find j (select (λ e. not (text_eq e.name k)) es) ≡ (if text_eq k j then none else find j es)
unfolding find select
find-select-not k j [] = ground arith
find-select-not k j (e ∷ es) =
    ground
      (arith, find-select-not k j es, text_eq_iff e.name k, text_eq_iff e.name j, text_eq_iff k j)

select-not_absent :
    (k : Text) (es : List Entry) → find k es ≡ none → select (λ e. not (text_eq e.name k)) es ≡ es
unfolding find select
select-not_absent k [] h = refl
select-not_absent k (e ∷ es) h = ground (arith, select-not_absent k es)

module _ (B : Backend) (law : IsLawful B) where
  -- After `_cleanup` the names that it was given have no document, and every other name has the
  -- document that it had.
  pub cleanup_lem :
      (names : List Text) (j : Text) (s : Storage B)
      → find j (docs B law (cleanup B names s))
        ≡ (if member j names then none else find j (docs B law s))
  unfolding cleanup member
  cleanup_lem [] j s = refl
  cleanup_lem (k ∷ names) j s =
      cleanup_lem names j (record s { db = B.remove s.db (named B k) })
      ∙ rw (law.documents-remove s.db (named B k), find-select-not k j (docs B law s))
          (ground arith)

  -- `_cleanup` of names that no document has changes no document.
  cleanup_absent :
      (names : List Text) (s : Storage B)
      → All (λ k. find k (docs B law s) ≡ none) names
      → docs B law (cleanup B names s) ≡ docs B law s
  unfolding cleanup
  cleanup_absent [] s h = refl
  cleanup_absent (k ∷ names) s (hk, h) =
      let same = law.documents-remove s.db (named B k) ∙ select-not_absent k (docs B law s) hk in
      cleanup_absent names (record s { db = B.remove s.db (named B k) }) (rw same h) ∙ same

  copy_first_lost :
      (es : List Entry) (name : Text) (s : Storage B) (e : Entry)
      → find name es ≡ some e
      → Dict.lookup e.filename s.blobs ≡ none
      → copy_first B (select (named B name) es) name s
        ≡ (err (no_such_name name), cleanup B (e.filename ∷ []) s)
  unfolding copy_first find select
  copy_first_lost [] name s e h lost = cc
  copy_first_lost (d ∷ es) name s e h lost = elim (Bool-cases (text_eq d.name name)) [
    | inl same ↦ rw same (lost_here (some-injective d e (rw same at h)))
    | inr differ ↦ rw differ (copy_first_lost es name s e (rw differ at h) lost)
  ]
    where
      lost_here :
          d ≡ e
          → copy_blob B (Dict.lookup d.filename s.blobs) name d.filename s
            ≡ (err (no_such_name name), cleanup B (e.filename ∷ []) s)
      lost_here p = rw (p, lost)

  copy_to_file_lost :
      (name : Text) (s : Storage B) (e : Entry)
      → find name (docs B law s) ≡ some e
      → Dict.lookup e.filename s.blobs ≡ none
      → copy_to_file B name s ≡ (err (no_such_name name), cleanup B (e.filename ∷ []) s)
  unfolding copy_to_file
  copy_to_file_lost name s e there lost =
      rw law.search-documents (copy_first_lost (docs B law s) name s e there lost)

  still_taken :
      (name : Text) (s : Storage B) (e : Entry)
      → find name (docs B law s) ≡ some e
      → find e.filename (docs B law s) ≡ none
      → find name (docs B law (cleanup B (e.filename ∷ []) s)) ≢ none
  still_taken name s e there unnamed h =
      cc (there, h, ap (find name) (cleanup_absent (e.filename ∷ []) s (unnamed, tt)))

  -- A name whose blob is lost: a read fails with `NoSuchNameError`, and, where no document has the
  -- blob's file name as its name, a write of that name afterwards is still refused as taken.
  pub lost_name_stays_taken :
      (name : Text) (content : Bytes) (s : Storage B) (e : Entry)
      → find name (docs B law s) ≡ some e
      → Dict.lookup e.filename s.blobs ≡ none
      → find e.filename (docs B law s) ≡ none
      → ((copy_to_file B name s).0 ≡ err (no_such_name name))
        × ((store_data B name content (copy_to_file B name s).1).0 ≡ err (name_taken name))
  lost_name_stays_taken name content s e there lost unnamed =
      let read = copy_to_file_lost name s e there lost in
      let refused =
        (store_data-name_taken B law name content (cleanup B (e.filename ∷ []) s)).1
          (still_taken name s e there unnamed) in
      (rw read, rw (read, refused))

  select-nil :
      (p : Text → Bool) (names : List Text) → select p names ≡ [] → All (λ n. p n ≡ false) names
  unfolding select
  select-nil p [] h = tt
  select-nil p (n ∷ names) h = ground (arith, select-nil p names)

  -- What `find_missing` keeps.
  pub find_missing-select :
      (names : List Text) (s : Storage B)
      → find_missing B names s ≡ select (λ n. is_none (find n (docs B law s))) names
  unfolding find_missing select
  find_missing-select [] s = refl
  find_missing-select (n ∷ names) s = rw (search-find B law n s, find_missing-select names s)

  member-select_absent :
      (names : List Text) (j : Text) (s : Storage B)
      → member j (select (λ n. is_none (find n (docs B law s))) names)
        ≡ member j names && is_none (find j (docs B law s))
  unfolding member select
  member-select_absent [] j s = refl
  member-select_absent (n ∷ names) j s = elim (Bool-cases (text_eq n j)) [
    | inl same ↦
        rw ((text_eq_iff n j).0 same)
          (ground (arith, member-select_absent names j s, text_eq_refl j))
    | inr differ ↦ rw differ (ground (arith, member-select_absent names j s))
  ]

  -- The names that `find_missing` reports are those, of the given ones, that no document has.
  pub find_missing_iff :
      (names : List Text) (j : Text) (s : Storage B)
      → member j (find_missing B names s) ≡ member j names && is_none (find j (docs B law s))
  find_missing_iff names j s = rw find_missing-select (member-select_absent names j s)

  found_blob :
      (es : List Entry) (name : Text) (s : Storage B)
      → All (HasBlob B law s) es
      → find name es ≢ none
      → (content : Bytes) × (copy_first B (select (named B name) es) name s ≡ (ok content, s))
  unfolding copy_first find select
  found_blob [] name s h there = absurd (there refl)
  found_blob (e ∷ es) name s (he, h) there = elim (Bool-cases (text_eq e.name name)) [
    | inl same ↦ elim (Option-cases (Dict.lookup e.filename s.blobs)) [
      | inl lost ↦ absurd (he lost)
      | inr (content, kept) ↦ (content, rw (same, kept))
    ]
    | inr differ ↦ rw differ (found_blob es name s h (rw differ at there))
  ]

  copy_first-kept :
      (es : List Entry) (name : Text) (s : Storage B)
      → All (HasBlob B law s) es
      → (copy_first B (select (named B name) es) name s).1 ≡ s
  unfolding copy_first select
  copy_first-kept [] name s h = refl
  copy_first-kept (e ∷ es) name s (he, h) = elim (Bool-cases (text_eq e.name name)) [
    | inl same ↦ elim (Option-cases (Dict.lookup e.filename s.blobs)) [
      | inl lost ↦ absurd (he lost)
      | inr (content, there) ↦ rw (same, there)
    ]
    | inr differ ↦ rw differ (copy_first-kept es name s h)
  ]

  -- Copying to a file leaves a store with all its blobs as it is.
  pub copy_to_file-kept :
      (name : Text) (s : Storage B)
      → All (HasBlob B law s) (docs B law s)
      → (copy_to_file B name s).1 ≡ s
  unfolding copy_to_file
  copy_to_file-kept name s complete =
      rw law.search-documents (copy_first-kept (docs B law s) name s complete)

  -- Every name can be copied to a file, and copying leaves the store as it is.
  abbrev pub AllReadable : List Text → Storage B → Type 0
  AllReadable names s = All (λ n. (content : Bytes) × (copy_to_file B n s ≡ (ok content, s))) names

  all_readable :
      (names : List Text) (s : Storage B)
      → All (HasBlob B law s) (docs B law s)
      → All (λ n. is_none (find n (docs B law s)) ≡ false) names
      → AllReadable names s
  unfolding copy_to_file
  all_readable [] s complete h = tt
  all_readable (n ∷ names) s complete (hn, h) = (
    rw law.search-documents (found_blob (docs B law s) n s complete (λ e. cc (rw e at hn))),
    all_readable names s complete h,
  )

  -- If `find_missing` reports none of the names and every document has its blob, each of the names
  -- can be copied to a file, and copying leaves the store as it is.
  pub find_missing-nil :
      (names : List Text) (s : Storage B)
      → All (HasBlob B law s) (docs B law s)
      → find_missing B names s ≡ []
      → AllReadable names s
  find_missing-nil names s complete h = all_readable names s complete (
      select-nil (λ n. is_none (find n (docs B law s))) names
        (rw (find_missing-select names s) at h))
