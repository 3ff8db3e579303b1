-- ===== src/Rest/Datastore.antt =====
-- The REST datastore (rest/nodes/datastore.py): the files that it stores by name. The file system is a
-- parameter where a handler asks it: the free space, how `File.store` ends, whether a file is removed and
-- whether its directory is. The uploads of one file are in Rest/Datastore/Upload.
pub mod Upload
pub mod Names
mod Tests
use ma_sinafadavi_gpt.Base.{
  ℕ, Bool, true, false, not, ◌&&◌, ◌||◌, Option, none, some, List, [], ◌∷◌, Text, codes,
  starts_with, is_empty, select, Result, ok, err, ltb, if◌then◌else◌,
}
use ma_sinafadavi_gpt.Base.Dict
use ma_sinafadavi_gpt.Base.Dict.{Dict}
use ma_sinafadavi_gpt.Base.Exceptions.{http, attribute_error}
use ma_sinafadavi_gpt.Rest.Breakout.{prevent_breakout}
use ma_sinafadavi_gpt.Rest.Datastore.Upload.{FileStatus, created, error, interrupted}

-- The names that have a `File`, with its path, and the names that are stored, with theirs.
pub record Datastore : Type 0 where
  pub data_files : Dict Text
  pub stored_data : Dict Text

abbrev pub init : Datastore
init = record { data_files = []; stored_data = [] }

-- `self.data_files.get(name, None)`, and a new `File` where there is none
unfoldable pub with_file : Text → Text → Option Text → Datastore → Datastore
with_file name path none s = record s { data_files = Dict.put name path s.data_files }
with_file name path (some old) s = s

reported : FileStatus → Text → Text → Datastore → Result Bool × Datastore
reported created name path s =
    (ok true, record s { stored_data = Dict.put name path s.stored_data })
reported interrupted name path s = (ok false, s)
reported error name path s = (err (http 500), s)

-- How `file.store` ends, by the path.
abbrev pub Stores : Type 0
Stores = Text → FileStatus

at_path : Stores → (Text → Text) → Text → Result Text → Datastore → Result Bool × Datastore
unfolding with_file reported
at_path stores root name (err e) s = (err e, s)
at_path stores root name (ok inner) s =
    reported (stores (root inner)) name (root inner)
      (with_file name (root inner) (Dict.lookup name s.data_files) s)

-- `store_data`; `root` is `os.path.join(self.root_dir, …)`.
unfoldable pub store_data :
    (Text → Text)
    → (Text → Text)
    → (Text → Text)
    → Stores
    → ℕ
    → ℕ
    → Text
    → Datastore
    → Result Bool × Datastore
unfolding at_path
store_data expanduser expandvars root stores free size name s =
    if ltb free size
    then (err (http 500), s)
    else at_path stores root name (prevent_breakout expanduser expandvars name) s

path_of : Option Text → Option Text → Result Text
path_of none file = err (http 404)
path_of (some path) none = err (http 404)
path_of (some path) (some file) = ok file

-- `get_data`: the path whose content is sent.
unfoldable pub get_data : Text → Datastore → Result Text
unfolding path_of
get_data name s = path_of (Dict.lookup name s.stored_data) (Dict.lookup name s.data_files)

-- Whether `os.removedirs` of the directory of a path succeeds.
abbrev pub RemovesDirs : Type 0
RemovesDirs = Text → Bool

-- Behind the two `pop`s, by what they gave: a path without a `File` has no `delete`.
deleted : RemovesDirs → Option Text → Option Text → Result Bool
deleted removes none file = ok false
deleted removes (some path) none = if is_empty path then ok false else err attribute_error
deleted removes (some path) (some file) = if is_empty path then ok false else ok (removes path)

-- `_delete_data`: whether the file itself was removed is not looked at.
unfoldable pub delete_one : RemovesDirs → Text → Datastore → Result Bool × Datastore
unfolding deleted
delete_one removes name s = (
  deleted removes (Dict.lookup name s.stored_data) (Dict.lookup name s.data_files),
  record {
    data_files = Dict.remove name s.data_files;
    stored_data = Dict.remove name s.stored_data;
  },
)

found_or_404 : Result Bool → Result (Unit {0})
found_or_404 (err e) = err e
found_or_404 (ok true) = ok tt
found_or_404 (ok false) = err (http 404)

-- `delete_data`
unfoldable pub delete_data : RemovesDirs → Text → Datastore → Result (Unit {0}) × Datastore
unfolding found_or_404
delete_data removes name s = let r = delete_one removes name s in (found_or_404 r.0, r.1)

unfoldable pub names_of : Dict Text → List Text
names_of [] = []
names_of ((name, path) ∷ d) = name ∷ names_of d

-- `s.endswith(suffix)`
unfoldable pub ends_with : Text → Text → Bool
ends_with [] suffix = starts_with [] suffix && starts_with suffix []
ends_with (c ∷ s) suffix =
    (starts_with (c ∷ s) suffix && starts_with suffix (c ∷ s)) || ends_with s suffix

after_delete :
    Result Bool × Datastore
    → (Datastore → Result (Unit {0}) × Datastore)
    → Result (Unit {0}) × Datastore
after_delete (err e, s) rest = (err e, s)
after_delete (ok found, s) rest = rest s

-- The loop of `delete_job_data`: an exception ends it.
delete_each : RemovesDirs → List Text → Datastore → Result (Unit {0}) × Datastore
unfolding after_delete
delete_each removes [] s = (ok tt, s)
delete_each removes (name ∷ names) s =
    after_delete (delete_one removes name s) (delete_each removes names)

-- The data of a job, without its result.
unfoldable pub is_job_data : Text → Text → Bool
is_job_data job name = starts_with name job && not (ends_with name (codes "/result"))

-- `delete_job_data`; `job` is the text of the identifier.
unfoldable pub delete_job_data : RemovesDirs → Text → Datastore → Result (Unit {0}) × Datastore
unfolding delete_each
delete_job_data removes job s =
    delete_each removes (select (is_job_data job) (names_of s.stored_data)) s

-- `data_list`, and the items that `paginate_data` cuts into pages
unfoldable pub data_list : Datastore → List Text
data_list s = names_of s.stored_data

unfoldable pub listing : Text → Text → Datastore → List Text
listing name job s = select (λ n. starts_with n job && starts_with n name) (names_of s.stored_data)
