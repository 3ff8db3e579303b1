-- ===== src/Executor/Directory.antt =====
-- The directory of a job (dtn/executor.py): the places that `_prepare_wasi_environment` makes and
-- writes, with its checks, and the files that `_collect_results` and `_collect_named_results` read.
-- The file system and the `zipfile` module are parameters.
pub mod Inside
pub mod Collect
pub mod Stored
pub mod Memory
mod Tests
use ma_sinafadavi_gpt.Base.{
  Bool, true, false, not, ◌&&◌, ◌||◌, Option, none, some, List, [], ◌∷◌, ◌++◌, Text, Bytes, codes,
  text_eq, is_empty, select, split, Result, ok, err, Error, guard, ◌==◌, if◌then◌else◌,
}
use ma_sinafadavi_gpt.Base.Actions.{Action, bound, next, pure, reading, each, ◌>>=◌, ◌>>◌}
use ma_sinafadavi_gpt.Base.Dict
use ma_sinafadavi_gpt.Base.Dict.{Dict}
use ma_sinafadavi_gpt.Base.Exceptions.{escapes, type_error}
use ma_sinafadavi_gpt.Eid.{truthy}
use ma_sinafadavi_gpt.Jobs.{JobInfo, is_set}
use ma_sinafadavi_gpt.Storage.{Backend, Storage, copy_to_file}

-- An absolute `Path`, by the names on the way from the root.
abbrev pub Location : Type 0
Location = List Text

-- `s.lstrip("/")`
unfoldable pub strip_slashes : Text → Text
strip_slashes [] = []
strip_slashes (c ∷ s) = let rest = strip_slashes s in if c == b'/' then rest else c ∷ s

-- What `pathlib` keeps of the names between slashes.
is_kept : Text → Bool
is_kept name = not (is_empty name || text_eq name (codes "."))

-- `place / text`, where the text does not start with a slash
unfoldable pub join : Location → Text → Location
unfolding is_kept
join place text = place ++ select is_kept (split b'/' text)

-- `place.is_relative_to(other)`
unfoldable pub is_relative_to : Location → Location → Bool
is_relative_to place [] = true
is_relative_to [] (n ∷ other) = false
is_relative_to (m ∷ place) (n ∷ other) = text_eq m n && is_relative_to place other

-- `place.parent`
unfoldable pub parent : Location → Location
parent [] = []
parent (n ∷ []) = []
parent (n ∷ m ∷ place) = n ∷ parent (m ∷ place)

-- `place.relative_to(other)`
unfoldable pub relative_to : Location → Location → Result Location
relative_to place [] = ok place
relative_to [] (n ∷ other) = err type_error
relative_to (m ∷ place) (n ∷ other) =
    let rest = relative_to place other in if text_eq m n then rest else err type_error

-- The file system: `resolve`, `mkdir(parents=True, exist_ok=True)`, the writing and the reading of a
-- file, the tests, `rglob("*")`, and `rmtree` without its errors.
pub record Disk (S : Type 0) : Type 0 where
  pub resolve : Location → S → Result Location
  pub mkdir : Location → S → Result (Unit {0}) × S
  pub write : Location → Bytes → S → Result (Unit {0}) × S
  pub read : Location → S → Result Bytes
  pub exists : Location → S → Bool
  pub is_file : Location → S → Bool
  pub is_dir : Location → S → Bool
  pub rglob : Location → S → List Location
  pub rmtree : Location → S → S

module _ {S : Type 0} (D : Disk S) where
  -- `(data_dir / text.lstrip("/")).resolve()`
  unfoldable pub target : Location → Text → S → Result Location
  target data_dir text s = D.resolve (join data_dir (strip_slashes text)) s

  checked : Location → Text → Result Location → Result Location
  checked data_dir text (err e) = err e
  checked data_dir text (ok place) =
      if is_relative_to place data_dir then ok place else err (escapes text)

  -- … and the check behind it.
  unfoldable pub locate : Location → Text → S → Result Location
  unfolding checked
  locate data_dir text s = checked data_dir text (target data_dir text s)

module _ {S : Type 0} (D : Disk S) (B : Backend) where
  -- The files of the job, and the named data.
  abbrev pub Disks : Type 0
  Disks = S × Storage B

  unfoldable pub on_disk : (S → Result (Unit {0}) × S) → Action Disks (Unit {0})
  on_disk call (s, storage) = let r = call s in (r.0, (r.1, storage))

  write_content : Location → Result Bytes × Storage B → S → Result (Unit {0}) × Disks
  unfolding on_disk
  write_content place (err e, storage) s = (err e, (s, storage))
  write_content place (ok content, storage) s = on_disk (D.write place content) (s, storage)

  -- `self._storage.copy_to_file(name, place)`
  unfoldable pub copy_in : Text → Location → Action Disks (Unit {0})
  unfolding write_content
  copy_in name place (s, storage) = write_content place (copy_to_file B name storage) s

  -- A directory of `job.dirs`.
  unfoldable pub make_dir : Location → Text → Action Disks (Unit {0})
  unfolding on_disk next
  make_dir data_dir text =
      reading (λ d. locate D data_dir text d.0) >>= λ place. on_disk (D.mkdir place)

  -- The directory that the file for a standard stream stands in.
  unfoldable pub make_parent : Location → Text → Action Disks (Unit {0})
  unfolding on_disk next
  make_parent data_dir text =
      reading (λ d. locate D data_dir text d.0) >>= λ place. on_disk (D.mkdir (parent place))

  -- An entry of `job.data`.
  unfoldable pub put_file : Location → Text × Text → Action Disks (Unit {0})
  unfolding on_disk next copy_in
  put_file data_dir (text, name) = do
    place ← reading (λ d. locate D data_dir text d.0)
    on_disk (D.mkdir (parent place))
    copy_in name place

  unfoldable pub if_set : {A : Type 0} → Option Text → A → (Text → Action Disks A) → Action Disks A
  if_set none default then_do = pure default
  if_set (some t) default then_do = if is_empty t then pure default else then_do t

  -- What `_prepare_wasi_environment` does in the data directory.
  unfoldable pub fill : JobInfo → Location → Action Disks (Unit {0})
  unfolding next each make_dir make_parent put_file if_set
  fill job data_dir = do
    each (make_dir data_dir) job.dirs
    each (put_file data_dir) job.inputs
    if_set job.stdout_file tt (make_parent data_dir)
    if_set job.stderr_file tt (make_parent data_dir)

  resolved : Location → Action Disks Location
  resolved place = reading (λ d. D.resolve place d.0)

  stdin_place : Location → Text → Action Disks (Option Location)
  unfolding next copy_in resolved
  stdin_place base_dir name = do
    place ← resolved (base_dir ++ codes "stdin.bin" ∷ [])
    copy_in name place
    pure (some place)

  -- `_prepare_wasi_environment`
  unfoldable pub prepare : JobInfo → Location → Action Disks (Location × Option Location × Location)
  unfolding next on_disk copy_in resolved if_set stdin_place fill
  prepare job base_dir = do
    on_disk (D.mkdir base_dir)
    wasm_place ← resolved (base_dir ++ codes "module.wasm" ∷ [])
    copy_in job.wasm_module wasm_place
    stdin ← if_set job.stdin_file none (stdin_place base_dir)
    data_dir ← resolved (base_dir ++ codes "data" ∷ [])
    on_disk (D.mkdir data_dir)
    fill job data_dir
    pure (wasm_place, stdin, data_dir)
