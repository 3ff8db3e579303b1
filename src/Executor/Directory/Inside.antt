-- ===== src/Executor/Directory/Inside.antt =====
-- A job stays inside its data directory (dtn/executor.py): where `fill` makes directories and writes
-- files, whatever the paths in the job and the links on the disk.
use ma_sinafadavi_gpt.Base.{
  ◌≡◌, ◌⊎◌, refl, inl, inr, Bool-cases, true, Option, none, some, List, [], ◌∷◌, ◌++◌, Text, Bytes,
  text_eq_iff, Result, ok, err, All, All-append, arith,
}
use ma_sinafadavi_gpt.Base.Actions.{
  Action, reading, each, Keeps, next-Keeps, each-Keeps, reading-Keeps, next,
}
use ma_sinafadavi_gpt.Jobs.{JobInfo}
use ma_sinafadavi_gpt.Storage.{Backend, Storage, copy_to_file}
use ma_sinafadavi_gpt.Executor.Directory.{
  Location, is_relative_to, parent, Disk, target, checked, locate, Disks, on_disk, write_content,
  copy_in, make_dir, make_parent, put_file, if_set, fill,
}

-- A place below the directory, or the directory's parent, which is there already.
abbrev pub IsInside : Location → Location → Type 0
IsInside data_dir place = (is_relative_to place data_dir ≡ true) ⊎ (place ≡ parent data_dir)

-- The parent of a place below a directory is below it too, unless the place is the directory.
parent-IsInside :
    (place data_dir : Location)
    → is_relative_to place data_dir ≡ true
    → IsInside data_dir (parent place)
unfolding is_relative_to parent
parent-IsInside [] [] h = inl refl
parent-IsInside (m ∷ place) [] h = inl refl
parent-IsInside [] (n ∷ data_dir) h = absurd (cc)
parent-IsInside (m ∷ []) (n ∷ []) h = inr refl
parent-IsInside (m ∷ []) (n ∷ k ∷ data_dir) h = absurd (ground arith)
parent-IsInside (m ∷ l ∷ place) (n ∷ []) h = inl (ground arith)
parent-IsInside (m ∷ l ∷ place) (n ∷ k ∷ data_dir) h =
    elim (parent-IsInside (l ∷ place) (k ∷ data_dir) (ground arith)) [
      | inl below ↦ inl (ground arith)
      | inr same ↦ let first : m ≡ n = (text_eq_iff m n).0 (ground arith) in inr cc
    ]

-- A log of the places where directories are made and files written.
pub record Log {S : Type 0} (D : Disk S) : Type 0 where
  pub places : S → List Location
  pub places-mkdir : (l : Location) (s : S) → places (D.mkdir l s).1 ≡ places s ++ l ∷ []
  pub places-write :
      (l : Location) (content : Bytes) (s : S) → places (D.write l content s).1 ≡ places s ++ l ∷ []

module _ {S : Type 0} (D : Disk S) (B : Backend) (log : Log D) (data_dir : Location) where
  -- So far only places inside were made or written.
  abbrev pub StaysInside : Disks D B → Type 0
  StaysInside d = All (IsInside data_dir) (log.places d.0)

  one_more :
      (l : Location) (ls : List Location)
      → IsInside data_dir l
      → All (IsInside data_dir) ls
      → All (IsInside data_dir) (ls ++ l ∷ [])
  one_more l ls h hs = All-append (IsInside data_dir) ls (l ∷ []) hs (h, tt)

  mkdir-Keeps : (l : Location) → IsInside data_dir l → Keeps StaysInside (on_disk D B (D.mkdir l))
  unfolding on_disk
  mkdir-Keeps l inside (s, storage) h =
      rw (log.places-mkdir l s) (one_more l (log.places s) inside h)

  write_content-inside :
      (l : Location) (r : Result Bytes × Storage B) (s : S)
      → IsInside data_dir l
      → All (IsInside data_dir) (log.places s)
      → StaysInside (write_content D B l r s).1
  unfolding write_content on_disk
  write_content-inside l (err e, storage) s inside h = h
  write_content-inside l (ok content, storage) s inside h =
      rw (log.places-write l content s) (one_more l (log.places s) inside h)

  copy_in-Keeps :
      (name : Text) (l : Location) → IsInside data_dir l → Keeps StaysInside (copy_in D B name l)
  unfolding copy_in
  copy_in-Keeps name l inside (s, storage) h =
      write_content-inside l (copy_to_file B name storage) s inside h

  checked_below :
      (text : Text) (r : Result Location) (l : Location)
      → checked D data_dir text r ≡ ok l
      → is_relative_to l data_dir ≡ true
  unfolding checked
  checked_below text (err e) l h = cc
  checked_below text (ok place) l h = elim (Bool-cases (is_relative_to place data_dir)) [
    | inl below ↦ let same : place ≡ l = cc (rw below at h) in rw (← same) below
    | inr outside ↦ cc (rw outside at h)
  ]

  -- Behind the check of a path, the place that it names is below the data directory.
  located-Keeps :
      (text : Text) (rest : Location → Action (Disks D B) (Unit {0}))
      → ((l : Location) → is_relative_to l data_dir ≡ true → Keeps StaysInside (rest l))
      → Keeps StaysInside (next (reading (λ d. locate D data_dir text d.0)) rest)
  unfolding locate
  located-Keeps text rest k =
      reading-Keeps StaysInside (λ d. locate D data_dir text d.0) rest
        (λ d l e h. k l (checked_below text (target D data_dir text d.0) l e) d h)

  make_dir-Keeps : (text : Text) → Keeps StaysInside (make_dir D B data_dir text)
  unfolding make_dir
  make_dir-Keeps text =
      located-Keeps text (λ l. on_disk D B (D.mkdir l)) (λ l below. mkdir-Keeps l (inl below))

  make_parent-Keeps : (text : Text) → Keeps StaysInside (make_parent D B data_dir text)
  unfolding make_parent
  make_parent-Keeps text =
      located-Keeps text (λ l. on_disk D B (D.mkdir (parent l)))
        (λ l below. mkdir-Keeps (parent l) (parent-IsInside l data_dir below))

  put_file-Keeps : (entry : Text × Text) → Keeps StaysInside (put_file D B data_dir entry)
  unfolding put_file
  put_file-Keeps (text, name) =
      located-Keeps text (λ l. next (on_disk D B (D.mkdir (parent l))) (λ _. copy_in D B name l))
        (λ l below.
          next-Keeps StaysInside (on_disk D B (D.mkdir (parent l))) (λ _. copy_in D B name l)
            (mkdir-Keeps (parent l) (parent-IsInside l data_dir below))
            (λ _. copy_in-Keeps name l (inl below)))

  if_set-Keeps : (t : Option Text) → Keeps StaysInside (if_set D B t tt (make_parent D B data_dir))
  unfolding if_set
  if_set-Keeps none d h = h
  if_set-Keeps (some []) d h = h
  if_set-Keeps (some (c ∷ t)) d h = make_parent-Keeps (c ∷ t) d h

  -- Every directory that is made and every file that is written for the paths of a job is below the data
  -- directory, or is the parent of the data directory, whatever the paths hold, wherever links on the
  -- disk lead, and whether or not an exception cuts the preparation short.
  pub fill-IsInside :
      (job : JobInfo) (d : Disks D B)
      → All (IsInside data_dir) (log.places d.0)
      → All (IsInside data_dir) (log.places (fill D B job data_dir d).1.0)
  unfolding fill
  fill-IsInside job =
      let out = if_set-Keeps job.stdout_file in
      let error = if_set-Keeps job.stderr_file in
      next-Keeps StaysInside (each (make_dir D B data_dir) job.dirs) _
        (each-Keeps StaysInside (make_dir D B data_dir) make_dir-Keeps job.dirs)
        (λ _.
          next-Keeps StaysInside (each (put_file D B data_dir) job.inputs) _
            (each-Keeps StaysInside (put_file D B data_dir) put_file-Keeps job.inputs)
            (λ _.
              next-Keeps StaysInside (if_set D B job.stdout_file tt (make_parent D B data_dir)) _
                out (λ _. error)))
