-- ===== src/Executor/Directory/Stored.antt =====
-- The preparation of a job's directory leaves the named data alone (dtn/executor.py).
use ma_sinafadavi_gpt.Base.{
  ◌≡◌, subst, sym, Option, none, some, [], ◌∷◌, ◌++◌, Text, Bytes, codes, Result, ok, err, All,
}
use ma_sinafadavi_gpt.Base.Actions.{Action, next, reading, each, Keeps, next-Keeps, each-Keeps}
use ma_sinafadavi_gpt.Jobs.{JobInfo}
use ma_sinafadavi_gpt.Storage.{Backend, IsLawful, Storage, copy_to_file}
use ma_sinafadavi_gpt.Storage.View.{docs}
use ma_sinafadavi_gpt.Storage.Invariant.{HasBlob}
use ma_sinafadavi_gpt.Storage.Cleanup.{copy_to_file-kept}
use ma_sinafadavi_gpt.Executor.Directory.{
  Location, parent, Disk, locate, Disks, on_disk, write_content, copy_in, make_dir, make_parent,
  put_file, if_set, fill, resolved, stdin_place, prepare,
}

module _ {S : Type 0} (D : Disk S) (B : Backend) (law : IsLawful B) (storage : Storage B)
    (complete : All (HasBlob B law storage) (docs B law storage)) where
  -- The named data are those that were there.
  abbrev pub SameStorage : Disks D B → Type 0
  SameStorage d = d.1 ≡ storage

  pub on_disk-Same : (call : S → Result (Unit {0}) × S) → Keeps SameStorage (on_disk D B call)
  unfolding on_disk
  on_disk-Same call (s, m) h = h

  write_content-same :
      (l : Location) (r : Result Bytes × Storage B) (s : S)
      → r.1 ≡ storage
      → SameStorage (write_content D B l r s).1
  unfolding write_content on_disk
  write_content-same l (err e, m) s h = h
  write_content-same l (ok content, m) s h = h

  copy_in-Same : (name : Text) (l : Location) → Keeps SameStorage (copy_in D B name l)
  unfolding copy_in
  copy_in-Same name l (s, m) h = write_content-same l (copy_to_file B name m) s (
      subst (λ n. (copy_to_file B name n).1 ≡ storage) (sym h)
        (copy_to_file-kept B law name storage complete))

  make_dir-Same :
      (data_dir : Location) (text : Text) → Keeps SameStorage (make_dir D B data_dir text)
  unfolding make_dir
  make_dir-Same data_dir text =
      next-Keeps SameStorage (reading (λ d. locate D data_dir text d.0))
        (λ l. on_disk D B (D.mkdir l)) (λ d h. h) (λ l. on_disk-Same (D.mkdir l))

  make_parent-Same :
      (data_dir : Location) (text : Text) → Keeps SameStorage (make_parent D B data_dir text)
  unfolding make_parent
  make_parent-Same data_dir text =
      next-Keeps SameStorage (reading (λ d. locate D data_dir text d.0))
        (λ l. on_disk D B (D.mkdir (parent l))) (λ d h. h) (λ l. on_disk-Same (D.mkdir (parent l)))

  put_file-Same :
      (data_dir : Location) (entry : Text × Text) → Keeps SameStorage (put_file D B data_dir entry)
  unfolding put_file
  put_file-Same data_dir (text, name) =
      next-Keeps SameStorage (reading (λ d. locate D data_dir text d.0))
        (λ l. next (on_disk D B (D.mkdir (parent l))) (λ _. copy_in D B name l)) (λ d h. h)
        (λ l.
          next-Keeps SameStorage (on_disk D B (D.mkdir (parent l))) (λ _. copy_in D B name l)
            (on_disk-Same (D.mkdir (parent l))) (λ _. copy_in-Same name l))

  if_set-Same :
      {A : Type 0} (t : Option Text) (default : A) (then_do : Text → Action (Disks D B) A)
      → ((text : Text) → Keeps SameStorage (then_do text))
      → Keeps SameStorage (if_set D B t default then_do)
  unfolding if_set
  if_set-Same none default then_do k d h = h
  if_set-Same (some []) default then_do k d h = h
  if_set-Same (some (c ∷ t)) default then_do k d h = k (c ∷ t) d h

  fill-Same : (job : JobInfo) (data_dir : Location) → Keeps SameStorage (fill D B job data_dir)
  unfolding fill
  fill-Same job data_dir =
      next-Keeps SameStorage (each (make_dir D B data_dir) job.dirs) _
        (each-Keeps SameStorage (make_dir D B data_dir) (make_dir-Same data_dir) job.dirs)
        (λ _.
          next-Keeps SameStorage (each (put_file D B data_dir) job.inputs) _
            (each-Keeps SameStorage (put_file D B data_dir) (put_file-Same data_dir) job.inputs)
            (λ _.
              next-Keeps SameStorage (if_set D B job.stdout_file tt (make_parent D B data_dir)) _
                (if_set-Same job.stdout_file tt (make_parent D B data_dir)
                  (make_parent-Same data_dir))
                (λ _.
                  if_set-Same job.stderr_file tt (make_parent D B data_dir)
                    (make_parent-Same data_dir))))

  resolved-Same : (l : Location) → Keeps SameStorage (resolved D B l)
  unfolding resolved
  resolved-Same l d h = h

  stdin_place-Same :
      (base_dir : Location) (name : Text) → Keeps SameStorage (stdin_place D B base_dir name)
  unfolding stdin_place
  stdin_place-Same base_dir name =
      next-Keeps SameStorage (resolved D B (base_dir ++ codes "stdin.bin" ∷ [])) _
        (resolved-Same (base_dir ++ codes "stdin.bin" ∷ []))
        (λ l. next-Keeps SameStorage (copy_in D B name l) _ (copy_in-Same name l) (λ _ d h. h))

  -- The preparation of a job leaves the storage as it is, if every document has its blob.
  pub prepare-Same :
      (job : JobInfo) (base_dir : Location) → Keeps SameStorage (prepare D B job base_dir)
  unfolding prepare
  prepare-Same job base_dir =
      next-Keeps SameStorage (on_disk D B (D.mkdir base_dir)) _ (on_disk-Same (D.mkdir base_dir))
        (λ _.
          next-Keeps SameStorage (resolved D B (base_dir ++ codes "module.wasm" ∷ [])) _
            (resolved-Same (base_dir ++ codes "module.wasm" ∷ []))
            (λ l.
              next-Keeps SameStorage (copy_in D B job.wasm_module l) _
                (copy_in-Same job.wasm_module l)
                (λ _.
                  next-Keeps SameStorage (if_set D B job.stdin_file none (stdin_place D B base_dir))
                    _
                    (if_set-Same job.stdin_file none (stdin_place D B base_dir)
                      (stdin_place-Same base_dir))
                    (λ stdin.
                      next-Keeps SameStorage (resolved D B (base_dir ++ codes "data" ∷ [])) _
                        (resolved-Same (base_dir ++ codes "data" ∷ []))
                        (λ data_dir.
                          next-Keeps SameStorage (on_disk D B (D.mkdir data_dir)) _
                            (on_disk-Same (D.mkdir data_dir))
                            (λ _.
                              next-Keeps SameStorage (fill D B job data_dir) _
                                (fill-Same job data_dir) (λ _ d h. h)))))))
