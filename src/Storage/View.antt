-- ===== src/Storage/View.antt =====
-- The abstract view of the store (dtn/storage.py): a partial function from names to data. The
-- operations are related to it here, in terms of the documents that the database holds.
use ma_sinafadavi_gpt.Base.{
  ◌≡◌, ◌≢◌, refl, Bool, true, false, Option, none, some, List, [], ◌∷◌, ◌++◌, Text, Bytes, text_eq,
  select, is_empty, Result, ok, err, arith, if◌then◌else◌,
}
use ma_sinafadavi_gpt.Base.Dict
use ma_sinafadavi_gpt.Base.Dict.{Dict}
use ma_sinafadavi_gpt.Base.Exceptions.{no_such_name}
use ma_sinafadavi_gpt.Storage.{Entry, Backend, IsLawful, Storage, named, copy_to_file, copy_first}

-- The document of a name: the first one.
unfoldable pub find : Text → List Entry → Option Entry
find name [] = none
find name (e ∷ es) = let rest = find name es in if text_eq e.name name then some e else rest

abbrev pub either {ℓ} : {A : Type ℓ} → Option A → Option A → Option A
either none b = b
either (some a) b = some a

abbrev pub is_none {ℓ} : {A : Type ℓ} → Option A → Bool
is_none none = true
is_none (some a) = false

pub find-append :
    (name : Text) (es : List Entry) (e : Entry)
    → find name (es ++ e ∷ [])
      ≡ either (find name es) (if text_eq e.name name then some e else none)
unfolding find
find-append name [] e = refl
find-append name (d ∷ es) e = ground (arith, find-append name es e)

unfoldable pub blob_of : Option Entry → Dict Bytes → Option Bytes
blob_of none blobs = none
blob_of (some e) blobs = Dict.lookup e.filename blobs

-- What a read of the name returns, if anything.
abbrev pub answer : Text → Option Bytes → Result Bytes
answer name none = err (no_such_name name)
answer name (some content) = ok content

module _ (B : Backend) (law : IsLawful B) where
  abbrev pub docs : Storage B → List Entry
  docs s = law.documents s.db

  unfoldable pub view : Storage B → Text → Option Bytes
  unfolding blob_of
  view s name = blob_of (find name (docs s)) s.blobs

  -- A document has the name.
  abbrev pub IsTaken : Text → Storage B → Type 0
  IsTaken name s = find name (docs s) ≢ none

  copy_first-select :
      (es : List Entry) (name : Text) (s : Storage B)
      → (copy_first B (select (named B name) es) name s).0
        ≡ answer name (blob_of (find name es) s.blobs)
  unfolding copy_first select find blob_of
  copy_first-select [] name s = refl
  copy_first-select (e ∷ es) name s = ground (arith, copy_first-select es name s)

  -- Copying a name to a file gives what the view has there, or `NoSuchNameError`.
  pub copy_to_file-view :
      (name : Text) (s : Storage B) → (copy_to_file B name s).0 ≡ answer name (view s name)
  unfolding copy_to_file view
  copy_to_file-view name s = rw law.search-documents (copy_first-select (docs s) name s)

  is_empty-select :
      (name : Text) (es : List Entry) → is_empty (select (named B name) es) ≡ is_none (find name es)
  unfolding select find
  is_empty-select name [] = refl
  is_empty-select name (e ∷ es) = ground (arith, is_empty-select name es)

  -- Whether the search for a name finds nothing.
  pub search-find :
      (name : Text) (s : Storage B)
      → is_empty (B.search s.db (named B name)) ≡ is_none (find name (docs s))
  search-find name s = rw law.search-documents (is_empty-select name (docs s))
