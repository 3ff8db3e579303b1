-- ===== src/Storage/Load.antt =====
-- Reading from the store (dtn/storage.py): `load_data` by prefix, `find_missing`, and the entries
-- whose blobs are lost.
use ma_sinafadavi_gpt.Base.{
  ◌≡◌, ◌⊎◌, ◌↔◌, refl, ap, inl, inr, Bool-cases, Option-cases, true, Option, some, List, [], ◌∷◌,
  Text, Bytes, text_eq, text_eq_iff, starts_with, select, arith,
}
use ma_sinafadavi_gpt.Base.Dict
use ma_sinafadavi_gpt.Base.Dict.{Dict}
use ma_sinafadavi_gpt.Storage.{Entry, Backend, IsLawful, Storage, prefixed, load_data, read_all}
use ma_sinafadavi_gpt.Storage.View.{find, docs, view, blob_of}
use ma_sinafadavi_gpt.Storage.Invariant.{Distinct}

-- The pair is an item of the list.
abbrev pub Holds : Text → Bytes → List (Text × Bytes) → Type 0
Holds name content [] = ⊥
Holds name content ((j, d) ∷ items) = ((j ≡ name) × (d ≡ content)) ⊎ Holds name content items

-- What a lookup among some documents gives.
abbrev view_in : List Entry → Dict Bytes → Text → Option Bytes
view_in es blobs name = blob_of (find name es) blobs

module _ (B : Backend) (law : IsLawful B) where
  -- What `load_data` reads among some documents.
  abbrev found : Text → Dict Bytes → List Entry → List (Text × Bytes)
  found prefix blobs es = read_all B blobs (select (prefixed B prefix) es)

  -- The first document contributes its own data, or nothing.
  found-cons :
      (blobs : Dict Bytes) (prefix : Text) (e : Entry) (es : List Entry) (name : Text)
      (content : Bytes)
      → Holds name content (found prefix blobs (e ∷ es)) ↔ (
          ((starts_with e.name prefix ≡ true)
            × (e.name ≡ name)
            × (Dict.lookup e.filename blobs ≡ some content))
          ⊎ Holds name content (found prefix blobs es))
  unfolding read_all select
  found-cons blobs prefix e es name content = elim (Bool-cases (starts_with e.name prefix)) [
    | inl pass ↦ elim (Option-cases (Dict.lookup e.filename blobs)) [
      | inl lost ↦
          rw (pass, lost) (λ h. inr h, λ h. elim h [ inl (_, _, x) ↦ absurd (cc) | inr k ↦ k ])
      | inr (d, there) ↦
          rw (pass, there)
            (
              λ h. elim h [ inl (a, b) ↦ inl (refl, a, ap some b) | inr k ↦ inr k ],
              λ h. elim h [ inl (_, a, b) ↦ inl (a, cc) | inr k ↦ inr k ],
            )
    ]
    | inr fail ↦ rw fail (λ h. inr h, λ h. elim h [ inl (x, _, _) ↦ absurd (cc) | inr k ↦ k ])
  ]

  found_sound :
      (blobs : Dict Bytes) (prefix : Text) (es : List Entry) (name : Text) (content : Bytes)
      → Distinct es
      → Holds name content (found prefix blobs es)
      → (starts_with name prefix ≡ true) × (view_in es blobs name ≡ some content)
  unfolding find blob_of
  found_sound blobs prefix [] name content d h = absurd (unfold select read_all in h)
  found_sound blobs prefix (e ∷ es) name content (fresh, d) h =
      elim ((found-cons blobs prefix e es name content).0 h) [
        | inl (pass, same, there) ↦ ground (arith, text_eq_iff e.name name)
        | inr k ↦
            let (pass, there) = found_sound blobs prefix es name content d k in
            ground (arith, text_eq_iff e.name name)
      ]

  found_complete :
      (blobs : Dict Bytes) (prefix : Text) (es : List Entry) (name : Text) (content : Bytes)
      → starts_with name prefix ≡ true
      → view_in es blobs name ≡ some content
      → Holds name content (found prefix blobs es)
  unfolding find blob_of
  found_complete blobs prefix [] name content pass there = absurd (cc)
  found_complete blobs prefix (e ∷ es) name content pass there =
      (found-cons blobs prefix e es name content).1 (elim (Bool-cases (text_eq e.name name)) [
        | inl same ↦ inl (
          ground (arith, text_eq_iff e.name name),
          (text_eq_iff e.name name).0 same,
          rw same at there,
        )
        | inr differ ↦ inr (found_complete blobs prefix es name content pass (rw differ at there))
      ])

  -- Where no two documents have one name, `load_data` returns a name with some data exactly when the
  -- name begins with the prefix and the data is what the view has there.
  pub load_data_iff :
      (prefix name : Text) (content : Bytes) (s : Storage B)
      → Distinct (docs B law s)
      → Holds name content (load_data B prefix s).0
        ↔ ((starts_with name prefix ≡ true) × (view B law s name ≡ some content))
  unfolding load_data view
  load_data_iff prefix name content s d = rw law.search-documents (
    found_sound s.blobs prefix (docs B law s) name content d,
    λ (pass, there). found_complete s.blobs prefix (docs B law s) name content pass there,
  )
