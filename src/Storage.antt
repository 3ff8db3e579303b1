-- ===== src/Storage.antt =====
-- The named data store (dtn/storage.py). The database package is a parameter, and so is the hash;
-- the directory of blobs is a dictionary of files. The proofs are in the modules below this one.
pub mod View
pub mod Store
pub mod Invariant
pub mod Load
pub mod Cleanup
pub mod Memory
mod Tests
use ma_sinafadavi_gpt.Base.{
  ◌≡◌, Bool, true, false, not, Option, none, some, List, [], ◌∷◌, ◌++◌, Text, Bytes, codes, text_eq,
  starts_with, is_empty, select, Result, ok, err, if◌then◌else◌,
}
use ma_sinafadavi_gpt.Base.Dict
use ma_sinafadavi_gpt.Base.Dict.{Dict}
use ma_sinafadavi_gpt.Base.Exceptions.{name_taken, no_such_name}

-- A document of the database.
pub record Entry : Type 0 where
  pub name : Text
  pub filename : Text

-- What `Storage` calls and the repository does not hold: `asynctinydb` and `hashlib.sha1`.
pub record Backend : Type 1 where
  pub Db : Type 0
  pub empty : Db
  pub insert : Db → Entry → Db
  pub search : Db → (Entry → Bool) → List Entry
  pub remove : Db → (Entry → Bool) → Db
  pub sha1 : Bytes → Text

-- The database holds a list of documents: an insertion appends one, a search returns those that
-- pass the test, in their order, and a removal keeps those that fail it.
pub record IsLawful (B : Backend) : Type 0 where
  pub documents : B.Db → List Entry
  pub documents-empty : documents B.empty ≡ []
  pub documents-insert : (d : B.Db) (e : Entry) → documents (B.insert d e) ≡ documents d ++ e ∷ []
  pub search-documents : (d : B.Db) (p : Entry → Bool) → B.search d p ≡ select p (documents d)
  pub documents-remove :
      (d : B.Db) (p : Entry → Bool)
      → documents (B.remove d p) ≡ select (λ e. not (p e)) (documents d)

module _ (B : Backend) where
  pub record Storage : Type 0 where
    pub db : B.Db
    pub blobs : Dict Bytes

  -- `Storage.__init__` on an empty directory
  abbrev pub init : Storage
  init = record { db = B.empty; blobs = [] }

  -- `db_data.name == name`
  abbrev pub named : Text → Entry → Bool
  named name e = text_eq e.name name

  -- `db_data.name.test(prefix_finder)`
  abbrev pub prefixed : Text → Entry → Bool
  prefixed name e = starts_with e.name name

  -- What stands in `store_data` behind the search for the name.
  add : Option Bytes → Text → Bytes → Storage → Storage
  add (some old) name content s = record s {
    db = B.insert s.db (record { name = name; filename = B.sha1 content });
  }
  add none name content s = record {
    db = B.insert s.db (record { name = name; filename = B.sha1 content });
    blobs = Dict.put (B.sha1 content) content s.blobs;
  }

  unfoldable pub add_new : Text → Bytes → Storage → Storage
  unfolding add
  add_new name content s = add (Dict.lookup (B.sha1 content) s.blobs) name content s

  store_unless : List Entry → Text → Bytes → Storage → Result (Unit {0}) × Storage
  unfolding add_new
  store_unless (e ∷ es) name content s = (err (name_taken name), s)
  store_unless [] name content s = (ok tt, add_new name content s)

  -- `store_data`
  unfoldable pub store_data : Text → Bytes → Storage → Result (Unit {0}) × Storage
  unfolding store_unless
  store_data name content s = store_unless (B.search s.db (named name)) name content s

  -- `_cleanup`
  unfoldable pub cleanup : List Text → Storage → Storage
  cleanup [] s = s
  cleanup (name ∷ names) s = cleanup names (record s { db = B.remove s.db (named name) })

  read_one : Option Bytes → Text → List (Text × Bytes) → List (Text × Bytes)
  read_one (some content) name rest = (name, content) ∷ rest
  read_one none name rest = rest

  -- The loop of `load_data`: what was read, and below the file names that were not found.
  read_all : Dict Bytes → List Entry → List (Text × Bytes)
  unfolding read_one
  read_all blobs [] = []
  read_all blobs (e ∷ es) = read_one (Dict.lookup e.filename blobs) e.name (read_all blobs es)

  lose_one : Option Bytes → Text → List Text → List Text
  lose_one (some content) filename rest = rest
  lose_one none filename rest = filename ∷ rest

  disappeared : Dict Bytes → List Entry → List Text
  unfolding lose_one
  disappeared blobs [] = []
  disappeared blobs (e ∷ es) =
      lose_one (Dict.lookup e.filename blobs) e.filename (disappeared blobs es)

  -- `load_data`; without lost files the loop of `_cleanup` makes no round.
  unfoldable pub load_data : Text → Storage → List (Text × Bytes) × Storage
  unfolding read_all disappeared
  load_data name s =
      let entries = B.search s.db (prefixed name) in
      (read_all s.blobs entries, cleanup (disappeared s.blobs entries) s)

  is_missing : Storage → Text → Bool
  is_missing s name = is_empty (B.search s.db (named name))

  -- `find_missing`
  unfoldable pub find_missing : List Text → Storage → List Text
  unfolding is_missing
  find_missing names s = select (is_missing s) names

  copy_blob : Option Bytes → Text → Text → Storage → Result Bytes × Storage
  copy_blob (some content) name filename s = (ok content, s)
  copy_blob none name filename s = (err (no_such_name name), cleanup (filename ∷ []) s)

  copy_first : List Entry → Text → Storage → Result Bytes × Storage
  unfolding copy_blob
  copy_first [] name s = (err (no_such_name name), s)
  copy_first (e ∷ es) name s = copy_blob (Dict.lookup e.filename s.blobs) name e.filename s

  -- `copy_to_file`; the result is what the destination holds afterwards.
  unfoldable pub copy_to_file : Text → Storage → Result Bytes × Storage
  unfolding copy_first
  copy_to_file name s = copy_first (B.search s.db (named name)) name s
