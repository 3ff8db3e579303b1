-- ===== src/Rest/Datastore/Names.antt =====
-- The names that a REST datastore answers for (rest/nodes/datastore.py).
use ma_sinafadavi_gpt.Base.{
  ℕ, ◌≡◌, ◌∙◌, refl, ap, inl, inr, Bool, Bool-cases, true, false, Option, none, some, List, [], ◌∷◌,
  Text, text_eq, text_eq_refl, ◌||◌, is_empty, member, select, Result, ok, err, arith, ltb,
  if◌then◌else◌,
}
use ma_sinafadavi_gpt.Base.Dict
use ma_sinafadavi_gpt.Base.Dict.{Dict}
use ma_sinafadavi_gpt.Base.Exceptions.{http}
use ma_sinafadavi_gpt.Jobs.Required.{member-select}
use ma_sinafadavi_gpt.Rest.Breakout.{prevent_breakout}
use ma_sinafadavi_gpt.Rest.Datastore.Upload.{FileStatus, created, error, interrupted}
use ma_sinafadavi_gpt.Rest.Datastore.{
  Datastore, with_file, reported, Stores, at_path, store_data, path_of, get_data, RemovesDirs,
  deleted, found_or_404, after_delete, delete_one, delete_data, names_of, delete_each, is_job_data,
  delete_job_data,
}

-- Where the directory of a stored file is not removed, for instance because it holds another file, a
-- deletion is answered with status 404, although the datastore does not answer for the name any more.
pub delete_data_refused :
    (removes : RemovesDirs) (name path file : Text) (s : Datastore)
    → Dict.lookup name s.stored_data ≡ some path
    → Dict.lookup name s.data_files ≡ some file
    → removes path ≡ false
    → ((delete_data removes name s).0 ≡ err (http 404))
      × (Dict.lookup name (delete_data removes name s).1.stored_data ≡ none)
unfolding delete_data delete_one deleted found_or_404
delete_data_refused removes name path file s there filed kept = (
  rw (there, filed, kept) (ground arith),
  Dict.lookup-remove name name s.stored_data ∙ rw (text_eq_refl name),
)

lookup_absent :
    (name : Text) (d : Dict Text) → member name (names_of d) ≡ false → Dict.lookup name d ≡ none
unfolding names_of member Dict.lookup
lookup_absent name [] h = refl
lookup_absent name ((n, path) ∷ d) h = ground (arith, lookup_absent name d)

-- Every name that is stored has a `File`. A deletion that falls between the two parts of `store_data` ends
-- in a state where it has not.
abbrev pub IsFiled : Datastore → Type 0
IsFiled s =
    (name : Text) → Dict.lookup name s.data_files ≡ none → Dict.lookup name s.stored_data ≡ none

deleted-ok :
    (removes : RemovesDirs) (path file : Option Text)
    → (file ≡ none → path ≡ none)
    → (found : Bool) × (deleted removes path file ≡ ok found)
unfolding deleted
deleted-ok removes none file h = (false, refl)
deleted-ok removes (some path) none h = absurd (cc (h refl))
deleted-ok removes (some path) (some file) h = elim (Bool-cases (is_empty path)) [
  | inl nowhere ↦ (false, rw nowhere refl)
  | inr there ↦ (removes path, rw there refl)
]

delete_one-IsFiled :
    (removes : RemovesDirs) (name : Text) (s : Datastore)
    → IsFiled s
    → IsFiled (delete_one removes name s).1
unfolding delete_one
delete_one-IsFiled removes name s h n gone =
    Dict.lookup-remove name n s.stored_data ∙ elim (Bool-cases (text_eq name n)) [
      | inl same ↦ rw same refl
      | inr other ↦ rw other (h n (rw (Dict.lookup-remove name n s.data_files, other) at gone))
    ]

after_delete-ok :
    (P : Result (Unit {0}) × Datastore → Type 0) (r : Result Bool × Datastore)
    (rest : Datastore → Result (Unit {0}) × Datastore) (found : Bool)
    → r.0 ≡ ok found
    → P (rest r.1)
    → P (after_delete r rest)
unfolding after_delete
after_delete-ok P (res, s) rest found h p = rw h p

-- What a deletion of names leaves, and that it raises nothing.
abbrev IsDeleted : List Text → Text → Datastore → Result (Unit {0}) × Datastore → Type 0
IsDeleted names name s r =
    (r.0 ≡ ok tt)
    × (Dict.lookup name r.1.stored_data
        ≡ (if member name names then none else Dict.lookup name s.stored_data))

gone_too :
    (removes : RemovesDirs) (n name : Text) (later : Bool) (s : Datastore)
    → (if later then none else Dict.lookup name (delete_one removes n s).1.stored_data)
      ≡ (if text_eq n name || later then none else Dict.lookup name s.stored_data)
unfolding delete_one
gone_too removes n name later s = rw (Dict.lookup-remove n name s.stored_data) (ground arith)

deleted_first :
    (removes : RemovesDirs) (name : Text) (s : Datastore) (found : Bool)
    → deleted removes (Dict.lookup name s.stored_data) (Dict.lookup name s.data_files) ≡ ok found
    → (delete_one removes name s).0 ≡ ok found
unfolding delete_one
deleted_first removes name s found h = h

delete_each-IsDeleted :
    (removes : RemovesDirs) (names : List Text) (name : Text) (s : Datastore)
    → IsFiled s
    → IsDeleted names name s (delete_each removes names s)
unfolding delete_each member
delete_each-IsDeleted removes [] name s h = (refl, refl)
delete_each-IsDeleted removes (n ∷ names) name s h =
    let (found, fine) =
      deleted-ok removes (Dict.lookup n s.stored_data) (Dict.lookup n s.data_files) (h n) in
    let (passed, left) =
      delete_each-IsDeleted removes names name (delete_one removes n s).1
        (delete_one-IsFiled removes n s h) in
    after_delete-ok (IsDeleted (n ∷ names) name s) (delete_one removes n s)
      (delete_each removes names) found (deleted_first removes n s found fine)
      (passed, left ∙ gone_too removes n name (member name names) s)

-- Where every stored name has a `File`, deleting the data of a job raises nothing and takes away exactly the
-- names that begin with its identifier and do not end in `/result`, whatever the file system answers;
-- every other name stays stored under its path.
pub delete_job_data_lem :
    (removes : RemovesDirs) (job name : Text) (s : Datastore)
    → IsFiled s
    → ((delete_job_data removes job s).0 ≡ ok tt)
      × (Dict.lookup name (delete_job_data removes job s).1.stored_data
          ≡ (if is_job_data job name then none else Dict.lookup name s.stored_data))
unfolding delete_job_data
delete_job_data_lem removes job name s h =
    let (passed, left) =
      delete_each-IsDeleted removes (select (is_job_data job) (names_of s.stored_data)) name s h in
    (
      passed,
      left
          ∙ ground (
            arith,
            member-select (is_job_data job) name (names_of s.stored_data),
            lookup_absent name s.stored_data,
          ),
    )

with_file-some :
    (name path : Text) (o : Option Text) (s : Datastore)
    → Dict.lookup name s.data_files ≡ o
    → (file : Text) × (Dict.lookup name (with_file name path o s).data_files ≡ some file)
unfolding with_file
with_file-some name path none s e =
    (path, Dict.lookup-put name name path s.data_files ∙ rw (text_eq_refl name))
with_file-some name path (some old) s e = (old, e)

reported-true :
    (status : FileStatus) (name path : Text) (s t : Datastore)
    → reported status name path s ≡ (ok true, t)
    → t ≡ record s { stored_data = Dict.put name path s.stored_data }
unfolding reported
reported-true created name path s t h = cc
reported-true interrupted name path s t h = absurd (cc)
reported-true error name path s t h = absurd (cc)

answered_for :
    (name path file : Text) (s : Datastore)
    → Dict.lookup name s.data_files ≡ some file
    → get_data name (record s { stored_data = Dict.put name path s.stored_data }) ≡ ok file
unfolding get_data path_of
answered_for name path file s e =
    rw (Dict.lookup-put name name path s.stored_data, text_eq_refl name, e)

at_path-get_data :
    (stores : Stores) (root : Text → Text) (name : Text) (r : Result Text) (s t : Datastore)
    → at_path stores root name r s ≡ (ok true, t)
    → (file : Text) × (get_data name t ≡ ok file)
unfolding at_path
at_path-get_data stores root name (err e) s t h = absurd (cc)
at_path-get_data stores root name (ok inner) s t h =
    let path = root inner in
    let filed = with_file name path (Dict.lookup name s.data_files) s in
    let (file, there) = with_file-some name path (Dict.lookup name s.data_files) s refl in
    let same = reported-true (stores path) name path filed t h in
    (file, ap (get_data name) same ∙ answered_for name path file filed there)

-- Data that was stored is answered for under its name: `get_data` has a file for it.
pub store_data-get_data :
    (expanduser expandvars root : Text → Text) (stores : Stores) (free size : ℕ) (name : Text)
    (s t : Datastore)
    → store_data expanduser expandvars root stores free size name s ≡ (ok true, t)
    → (file : Text) × (get_data name t ≡ ok file)
unfolding store_data
store_data-get_data expanduser expandvars root stores free size name s t h =
    elim (Bool-cases (ltb free size)) [
      | inl large ↦ absurd (cc (rw large at h))
      | inr fits ↦
          at_path-get_data stores root name (prevent_breakout expanduser expandvars name) s t
            (rw fits at h)
    ]
