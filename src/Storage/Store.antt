-- ===== src/Storage/Store.antt =====
-- `store_data` (dtn/storage.py) against the view: insertion, refusal, deduplication, invariants.
use ma_sinafadavi_gpt.Base.{
  ◌≡◌, ◌≢◌, ◌↔◌, ◌⊎◌, ◌∙◌, refl, sym, ap, inl, inr, Bool, Option-cases, not, Option, none, some,
  List, [], ◌∷◌, ◌++◌, Text, Bytes, text_eq, text_eq_iff, text_eq_refl, is_empty, Result, ok, err,
  arith, if◌then◌else◌,
}
use ma_sinafadavi_gpt.Base.Dict
use ma_sinafadavi_gpt.Base.Dict.{Dict, lookup-put}
use ma_sinafadavi_gpt.Base.Exceptions.{name_taken}
use ma_sinafadavi_gpt.Storage.{
  Entry, Backend, IsLawful, Storage, store_data, store_unless, add_new, copy_to_file,
}
use ma_sinafadavi_gpt.Storage.View.{
  find, either, is_none, find-append, docs, view, blob_of, answer, copy_to_file-view, search-find,
}

module _ (B : Backend) (law : IsLawful B) where
  abbrev taken : Text → Storage B → Bool
  taken name s = not (is_none (find name (docs B law s)))

  -- Every blob has the hash of its content for its name.
  pub record IsHashed (s : Storage B) : Type 0 where
    pub hashed :
        (f : Text) (content : Bytes) → Dict.lookup f s.blobs ≡ some content → B.sha1 content ≡ f

  -- No blob has the hash of this data and other content.
  abbrev pub NoCollision : Bytes → Storage B → Type 0
  NoCollision content s =
      (f : Text) (old : Bytes)
      → Dict.lookup f s.blobs ≡ some old
      → B.sha1 old ≡ B.sha1 content
      → old ≡ content

  store_unless-list :
      (es : List Entry) (name : Text) (content : Bytes) (s : Storage B)
      → store_unless B es name content s
        ≡ (if is_empty es then (ok tt, add_new B name content s) else (err (name_taken name), s))
  unfolding store_unless
  store_unless-list [] name content s = refl
  store_unless-list (e ∷ es) name content s = refl

  -- A name that a document has is refused and nothing changes; any other is added.
  pub store_data_lem :
      (name : Text) (content : Bytes) (s : Storage B)
      → store_data B name content s ≡ (
          if is_none (find name (docs B law s))
          then (ok tt, add_new B name content s)
          else (err (name_taken name), s))
  unfolding store_data
  store_data_lem name content s = rw (store_unless-list, search-find B law name s)

  pub docs-add_new :
      (name : Text) (content : Bytes) (s : Storage B)
      → docs B law (add_new B name content s)
        ≡ docs B law s ++ record { name = name; filename = B.sha1 content } ∷ []
  unfolding add_new
  docs-add_new name content s = elim (Option-cases (Dict.lookup (B.sha1 content) s.blobs)) [
    | inl e ↦ rw e (law.documents-insert s.db (record { name = name; filename = B.sha1 content }))
    | inr (old, e) ↦
        rw e (law.documents-insert s.db (record { name = name; filename = B.sha1 content }))
  ]

  -- Where there was a blob, it stays; else the data is written.
  pub lookup-add_new :
      (f name : Text) (content : Bytes) (s : Storage B)
      → Dict.lookup f (add_new B name content s).blobs
        ≡ either (Dict.lookup f s.blobs) (if text_eq (B.sha1 content) f then some content else none)
  unfolding add_new
  lookup-add_new f name content s = elim (Option-cases (Dict.lookup (B.sha1 content) s.blobs)) [
    | inl e ↦ rw e (
        ground
          (arith, lookup-put (B.sha1 content) f content s.blobs, text_eq_iff (B.sha1 content) f))
    | inr (old, e) ↦ rw e (ground (arith, text_eq_iff (B.sha1 content) f))
  ]

  lookup_new :
      (name : Text) (content : Bytes) (s : Storage B)
      → IsHashed s
      → NoCollision content s
      → Dict.lookup (B.sha1 content) (add_new B name content s).blobs ≡ some content
  lookup_new name content s hashed fresh =
      rw lookup-add_new (elim (Option-cases (Dict.lookup (B.sha1 content) s.blobs)) [
        | inl e ↦ rw (e, text_eq_refl (B.sha1 content))
        | inr (old, e) ↦
            rw e (ap some (fresh (B.sha1 content) old e (hashed.hashed (B.sha1 content) old e)))
      ])

  -- The two outcomes of a write.
  pub store_data-cases :
      (name : Text) (content : Bytes) (s : Storage B)
      → ((find name (docs B law s) ≡ none)
          × (store_data B name content s ≡ (ok tt, add_new B name content s)))
        ⊎ ((find name (docs B law s) ≢ none)
            × (store_data B name content s ≡ (err (name_taken name), s)))
  store_data-cases name content s = elim (Option-cases (find name (docs B law s))) [
    | inl e ↦ inl (e, store_data_lem name content s ∙ rw e)
    | inr (old, e) ↦ inr (cc, store_data_lem name content s ∙ rw e)
  ]

  pub accepted :
      (name : Text) (content : Bytes) (s : Storage B)
      → (store_data B name content s).0 ≡ ok tt
      → (find name (docs B law s) ≡ none)
        × (store_data B name content s ≡ (ok tt, add_new B name content s))
  accepted name content s h = elim (store_data-cases name content s) [
    | inl both ↦ both
    | inr (there, e) ↦ absurd (cc (rw e at h))
  ]

  view-add_new :
      (name : Text) (content : Bytes) (s : Storage B)
      → find name (docs B law s) ≡ none
      → IsHashed s
      → NoCollision content s
      → view B law (add_new B name content s) name ≡ some content
  unfolding view blob_of
  view-add_new name content s absent hashed fresh =
      rw (docs-add_new name content s, find-append, absent, text_eq_refl name)
        (lookup_new name content s hashed fresh)

  blob_of-add_new :
      (o : Option Entry) (name : Text) (content : Bytes) (s : Storage B) {d : Bytes}
      → blob_of o s.blobs ≡ some d
      → (o ≢ none) × (blob_of o (add_new B name content s).blobs ≡ some d)
  unfolding blob_of
  blob_of-add_new none name content s h = absurd (cc)
  blob_of-add_new (some e) name content s h = (cc, rw (lookup-add_new, h))

  view-add_new_kept :
      (j name : Text) (content : Bytes) (s : Storage B) {d : Bytes}
      → view B law s j ≡ some d
      → view B law (add_new B name content s) j ≡ some d
  unfolding view
  view-add_new_kept j name content s h =
      let (there, kept) = blob_of-add_new (find j (docs B law s)) name content s h in
      rw (docs-add_new name content s, find-append)
        (elim (Option-cases (find j (docs B law s))) [
          | inl e ↦ absurd (there e)
          | inr (old, e) ↦ rw e (rw e at kept)
        ])

  -- An accepted write is what a read of its name returns afterwards, if every blob has its hash for
  -- its name and no blob has the hash of this data and other content.
  pub copy_to_file-store_data :
      (name : Text) (content : Bytes) (s : Storage B)
      → IsHashed s
      → NoCollision content s
      → (store_data B name content s).0 ≡ ok tt
      → (copy_to_file B name (store_data B name content s).1).0 ≡ ok content
  copy_to_file-store_data name content s hashed fresh done =
      let (absent, e) = accepted name content s done in
      rw (copy_to_file-view B law, e, view-add_new name content s absent hashed fresh)

  readable :
      (j : Text) (s : Storage B) {d : Bytes}
      → (copy_to_file B j s).0 ≡ ok d
      → view B law s j ≡ some d
  readable j s {d} h = answer_ok j (view B law s j) (rw (copy_to_file-view B law j s) at h)
    where
      answer_ok : (j : Text) (o : Option Bytes) → answer j o ≡ ok d → o ≡ some d
      answer_ok j none e = cc
      answer_ok j (some c) e = ground arith

  -- A write, accepted or refused, does not change what a read of a name returns whose data could be
  -- read before.
  pub copy_to_file-store_data_kept :
      (j name : Text) (content d : Bytes) (s : Storage B)
      → (copy_to_file B j s).0 ≡ ok d
      → (copy_to_file B j (store_data B name content s).1).0 ≡ ok d
  copy_to_file-store_data_kept j name content d s h = elim (store_data-cases name content s) [
    | inl (absent, e) ↦
        rw (e, copy_to_file-view B law, view-add_new_kept j name content s (readable j s h))
    | inr (there, e) ↦ rw e h
  ]

  -- A write is refused, with the name in the error and the store unchanged, exactly when a document
  -- has the name.
  pub store_data-name_taken :
      (name : Text) (content : Bytes) (s : Storage B)
      → (store_data B name content s ≡ (err (name_taken name), s))
        ↔ (find name (docs B law s) ≢ none)
  store_data-name_taken name content s = elim (store_data-cases name content s) [
    | inl (absent, e) ↦ (
      λ h. absurd (cc (ap (λ (r : Result (Unit {0}) × Storage B). r.0) (sym e ∙ h))),
      λ h. absurd (h absent),
    )
    | inr (there, e) ↦ (λ h. there, λ h. e)
  ]
