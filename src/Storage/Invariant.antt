-- ===== src/Storage/Invariant.antt =====
-- The invariant of the store (dtn/storage.py), and what keeps it: every write, and every reader.
use ma_sinafadavi_gpt.Base.{
  ◌≡◌, ◌≢◌, ◌∙◌, refl, inl, inr, Option-cases, none, List, [], ◌∷◌, ◌++◌, Text, Bytes, text_eq_iff,
  text_eq_refl, All, All-append, arith,
}
use ma_sinafadavi_gpt.Base.Dict
use ma_sinafadavi_gpt.Base.Dict.{Dict, lookup-put, lookup-remove}
use ma_sinafadavi_gpt.Storage.{Entry, Backend, IsLawful, Storage, init, store_data, add_new}
use ma_sinafadavi_gpt.Storage.View.{find, find-append, docs}
use ma_sinafadavi_gpt.Storage.Store.{IsHashed, store_data-cases, docs-add_new, lookup-add_new}

-- No two documents have one name.
abbrev pub Distinct : List Entry → Type 0
Distinct [] = Unit
Distinct (e ∷ es) = (find e.name es ≡ none) × Distinct es

Distinct-append :
    (es : List Entry) (e : Entry) → Distinct es → find e.name es ≡ none → Distinct (es ++ e ∷ [])
unfolding find
Distinct-append [] e h absent = (refl, tt)
Distinct-append (d ∷ es) e (hd, h) absent = ground (
  arith,
  find-append d.name es e,
  Distinct-append es e h,
  text_eq_iff d.name e.name,
  text_eq_iff e.name d.name,
)

module _ (B : Backend) (law : IsLawful B) where
  abbrev pub HasBlob : Storage B → Entry → Type 0
  HasBlob s e = Dict.lookup e.filename s.blobs ≢ none

  pub record IsValid (s : Storage B) : Type 0 where
    pub hashed : IsHashed B law s
    pub complete : All (HasBlob s) (docs B law s)
    pub distinct : Distinct (docs B law s)

  pub init-IsValid : IsValid (init B)
  unfolding Dict.lookup
  init-IsValid = record {
    hashed = record { hashed = λ f content h. cc };
    complete = rw law.documents-empty tt;
    distinct = rw law.documents-empty tt;
  }

  add_new-IsHashed :
      (name : Text) (content : Bytes) (s : Storage B)
      → IsHashed B law s
      → IsHashed B law (add_new B name content s)
  add_new-IsHashed name content s h = record {
    hashed = λ f d e. elim (Option-cases (Dict.lookup f s.blobs)) [
      | inl absent ↦ ground (
        arith,
        text_eq_iff (B.sha1 content) f,
        rw (lookup-add_new B law f name content s, absent) at e,
      )
      | inr (old, there) ↦
          h.hashed f d (there ∙ (rw (lookup-add_new B law f name content s, there) at e))
    ];
  }

  HasBlob-add_new :
      (name : Text) (content : Bytes) (s : Storage B) (es : List Entry)
      → All (HasBlob s) es
      → All (HasBlob (add_new B name content s)) es
  HasBlob-add_new name content s [] h = tt
  HasBlob-add_new name content s (e ∷ es) (he, h) = (
    rw (lookup-add_new B law e.filename name content s) (ground arith),
    HasBlob-add_new name content s es h,
  )

  add_new_complete :
      (name : Text) (content : Bytes) (s : Storage B)
      → All (HasBlob s) (docs B law s)
      → All (HasBlob (add_new B name content s)) (docs B law (add_new B name content s))
  add_new_complete name content s h = rw (docs-add_new B law name content s) (
      All-append (HasBlob (add_new B name content s)) (docs B law s)
        (record { name = name; filename = B.sha1 content } ∷ [])
        (HasBlob-add_new name content s (docs B law s) h)
        (
          rw (lookup-add_new B law (B.sha1 content) name content s)
              (ground (arith, text_eq_refl (B.sha1 content))),
          tt,
        ))

  add_new-Distinct :
      (name : Text) (content : Bytes) (s : Storage B)
      → find name (docs B law s) ≡ none
      → Distinct (docs B law s)
      → Distinct (docs B law (add_new B name content s))
  add_new-Distinct name content s absent h =
      rw (docs-add_new B law name content s) (
        Distinct-append (docs B law s) (record { name = name; filename = B.sha1 content }) h absent)

  -- A write keeps the invariant: every blob has its hash for its name, every document has its blob,
  -- and no two documents have one name.
  pub store_data-IsValid :
      (name : Text) (content : Bytes) (s : Storage B)
      → IsValid s
      → IsValid (store_data B name content s).1
  store_data-IsValid name content s h = elim (store_data-cases B law name content s) [
    | inl (absent, e) ↦ rw e (record {
      hashed = add_new-IsHashed name content s h.hashed;
      complete = add_new_complete name content s h.complete;
      distinct = add_new-Distinct name content s absent h.distinct;
    })
    | inr (there, e) ↦ rw e h
  ]
