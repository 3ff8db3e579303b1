-- ===== src/Executor/Directory/Collect.antt =====
-- What an executor collects when a job has run (dtn/executor.py): `_collect_results` and
-- `_collect_named_results`. The data directory is read as it is when the collection starts; the
-- archive of the results is written when all its files are read, and what is left of it where a
-- reading raises, which is removed with the job's directory, is not modelled.
pub mod Sound
use ma_sinafadavi_gpt.Base.{
  ◌≡◌, ◌⊎◌, inl, inr, Bool, Bool-cases, true, ◌&&◌, Option, none, some, List, [], ◌∷◌, ◌++◌, Text,
  Bytes, codes, text_eq_iff, Result, bind_ok, ok, arith, if◌then◌else◌,
}
use ma_sinafadavi_gpt.Base.{◌>>=◌}
use ma_sinafadavi_gpt.Base.Actions.{Action, next, pure, reading}
use ma_sinafadavi_gpt.Base.Dict
use ma_sinafadavi_gpt.Base.Dict.{Dict}
use ma_sinafadavi_gpt.Eid.{truthy}
use ma_sinafadavi_gpt.Jobs.{JobInfo}
use ma_sinafadavi_gpt.Executor.Directory.{
  Location, is_relative_to, parent, relative_to, Disk, target,
}

-- What `zipfile` makes of the names and the contents of the files.
abbrev pub Zip : Type 0
Zip = List (Location × Bytes) → Bytes

module _ {S : Type 0} (D : Disk S) where
  -- A file under a name relative to a directory.
  file_entry : Location → S → Location → Result (List (Location × Bytes))
  file_entry root s place = do
    name ← relative_to place root
    content ← D.read place s
    ok ((name, content) ∷ [])

  -- The files of `rglob`; the name is made of each place that it lists.
  pub tree_entries : Location → S → List Location → Result (List (Location × Bytes))
  tree_entries root s [] = ok []
  tree_entries root s (p ∷ ps) = do
    name ← relative_to p root
    here ← (if D.is_file p s then file_entry root s p else ok [])
    rest ← tree_entries root s ps
    ok (here ++ rest)

  -- The tests of both loops: inside the data directory, and there.
  unfoldable pub usable : Location → S → Location → Bool
  usable data_dir s place = is_relative_to place data_dir && D.exists place s

  place_entries : Location → S → Location → Result (List (Location × Bytes))
  unfolding file_entry tree_entries
  place_entries data_dir s place =
      if D.is_file place s
      then file_entry data_dir s place
      else if D.is_dir place s
      then tree_entries data_dir s (D.rglob place s)
      else ok []

  -- The loop of `_collect_results`
  unfoldable pub gather : Location → S → List Text → Result (List (Location × Bytes))
  unfolding usable place_entries
  gather data_dir s [] = ok []
  gather data_dir s (text ∷ ts) = do
    place ← target D data_dir text s
    here ← (if usable data_dir s place then place_entries data_dir s place else ok [])
    rest ← gather data_dir s ts
    ok (here ++ rest)

  -- What a named result holds: a file, or an archive of a directory under its own name.
  named_content : Zip → S → Location → Result (Option Bytes)
  unfolding tree_entries
  named_content zip s place =
      if D.is_file place s
      then (do content ← D.read place s; ok (some content))
      else if D.is_dir place s
      then (do entries ← tree_entries (parent place) s (D.rglob place s); ok (some (zip entries)))
      else ok none

  put_some : Text → Option Bytes → Dict Bytes → Dict Bytes
  put_some name none results = results
  put_some name (some content) results = Dict.put name content results

  -- The loop of `_collect_named_results`
  unfoldable pub gather_named : Zip → Location → S → Dict Text → Dict Bytes → Result (Dict Bytes)
  unfolding usable named_content put_some file_entry
  gather_named zip data_dir s [] results = ok results
  gather_named zip data_dir s ((text, name) ∷ entries) results = do
    place ← target D data_dir text s
    content ← (if usable data_dir s place then named_content zip s place else ok none)
    gather_named zip data_dir s entries (put_some name content results)

  archived : Zip → Location → Location → List Text → Action S (Option Bytes)
  unfolding next gather
  archived zip data_dir zip_place texts = next (D.write zip_place []) λ _.
      next (reading (λ s. gather data_dir s texts)) λ entries.
        next (D.write zip_place (zip entries))
          λ _. next (reading (λ s. D.read zip_place s)) λ content. pure (some content)

  -- `_collect_results`
  unfoldable pub collect_results : Zip → JobInfo → Location → Action S (Option Bytes)
  unfolding next archived
  collect_results zip job base_dir =
      if truthy job.results_receiver
      then (next (reading (λ s. D.resolve (base_dir ++ codes "data" ∷ []) s)) λ data_dir.
          next (reading (λ s. D.resolve (base_dir ++ codes "results.zip" ∷ []) s))
            λ zip_place. archived zip data_dir zip_place job.results)
      else pure none

  -- `_collect_named_results`
  unfoldable pub collect_named_results : Zip → JobInfo → Location → S → Result (Dict Bytes)
  unfolding gather_named
  collect_named_results zip job base_dir s = do
    data_dir ← D.resolve (base_dir ++ codes "data" ∷ []) s
    gather_named zip data_dir s job.named_results []
