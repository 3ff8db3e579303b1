-- ===== src/Executor/Directory/Collect/Sound.antt =====
-- What stands in the named results that an executor collects (dtn/executor.py).
use ma_sinafadavi_gpt.Base.{
  ◌≡◌, ◌⊎◌, inl, inr, Bool-cases, true, Option, none, some, List, [], ◌∷◌, ◌++◌, Text, Bytes, codes,
  text_eq_iff, bind_ok, ok, arith, if◌then◌else◌,
}
use ma_sinafadavi_gpt.Base.Dict
use ma_sinafadavi_gpt.Base.Dict.{Dict}
use ma_sinafadavi_gpt.Jobs.{JobInfo}
use ma_sinafadavi_gpt.Executor.Directory.{Location, is_relative_to, parent, Disk, target}
use ma_sinafadavi_gpt.Executor.Directory.Collect.{
  Zip, usable, tree_entries, named_content, put_some, gather_named, collect_named_results,
}

-- Some entry of a list has a property.
abbrev pub Some {ℓ} : {A : Type ℓ} → (A → Type 0) → List A → Type 0
Some P [] = ⊥
Some P (x ∷ xs) = P x ⊎ Some P xs

module _ {S : Type 0} (D : Disk S) (zip : Zip) (data_dir : Location) (s : S) where
  -- What stands at a place: a file with the content, or a directory whose archive the content is.
  abbrev pub Holds : Bytes → Location → Type 0
  Holds content place =
      ((D.is_file place s ≡ true) × (D.read place s ≡ ok content))
      ⊎ ((D.is_dir place s ≡ true)
          × (entries : List (Location × Bytes)) × (tree_entries D (parent place) s (D.rglob place s)
              ≡ ok entries)
          × (content ≡ zip entries))

  -- The entry is for the name, its path leads to a place inside the data directory that is there, and
  -- the content is that of the place.
  abbrev pub Gives : Text → Bytes → Text × Text → Type 0
  Gives name content (text, n) =
      (n ≡ name)
      × (place : Location) × (target D data_dir text s ≡ ok place)
      × (is_relative_to place data_dir ≡ true)
      × (D.exists place s ≡ true)
      × Holds content place

  named_content-Holds :
      (place : Location) {content : Bytes}
      → named_content D zip s place ≡ ok (some content)
      → Holds content place
  unfolding named_content
  named_content-Holds place h = elim (Bool-cases (D.is_file place s)) [
    | inl file ↦ let (c, read, same) = bind_ok (D.read place s) _ (rw file at h) in inl (file, cc)
    | inr no_file ↦ elim (Bool-cases (D.is_dir place s)) [
      | inl dir ↦
          let (entries, listed, same) =
            bind_ok (tree_entries D (parent place) s (D.rglob place s)) _
              (rw (no_file, dir) at h) in
          inr (dir, entries, listed, cc)
      | inr no_dir ↦ absurd (cc (rw (no_file, no_dir) at h))
    ]
  ]

  lookup-put_some :
      (name n : Text) (o : Option Bytes) (results : Dict Bytes) {content : Bytes}
      → Dict.lookup name (put_some D n o results) ≡ some content
      → (Dict.lookup name results ≡ some content) ⊎ ((n ≡ name) × (o ≡ some content))
  unfolding put_some
  lookup-put_some name n none results h = inl h
  lookup-put_some name n (some c) results h =
      ground (arith, Dict.lookup-put n name c results, text_eq_iff n name)

  usable_content :
      (place : Location) (o : Option Bytes) {content : Bytes}
      → (if usable D data_dir s place then named_content D zip s place else ok none) ≡ ok o
      → o ≡ some content
      → (is_relative_to place data_dir ≡ true) × (D.exists place s ≡ true) × Holds content place
  unfolding usable
  usable_content place o h e = elim (Bool-cases (usable D data_dir s place)) [
    | inl fits ↦ (ground arith, ground arith, named_content-Holds place (cc (rw fits at h)))
    | inr not_there ↦ absurd (cc (rw not_there at h))
  ]

  Gives-here :
      (name n text : Text) (place : Location) (o : Option Bytes) {content : Bytes}
      → target D data_dir text s ≡ ok place
      → (if usable D data_dir s place then named_content D zip s place else ok none) ≡ ok o
      → (n ≡ name) × (o ≡ some content)
      → Gives name content (text, n)
  Gives-here name n text place o found h (same, e) =
      let (below, there, holds) = usable_content place o h e in
      (same, place, found, below, there, holds)

  gather_named_sound :
      (name : Text) (entries : Dict Text) (before r : Dict Bytes) {content : Bytes}
      → gather_named D zip data_dir s entries before ≡ ok r
      → Dict.lookup name r ≡ some content
      → (Dict.lookup name before ≡ some content) ⊎ Some (Gives name content) entries
  unfolding gather_named
  gather_named_sound name [] before r h e = inl cc
  gather_named_sound name ((text, n) ∷ entries) before r h e =
      let (place, found, h1) = bind_ok (target D data_dir text s) _ h in
      let (o, holds, h2) =
        bind_ok (if usable D data_dir s place then named_content D zip s place else ok none) _ h1 in
      elim (gather_named_sound name entries (put_some D n o before) r h2 e) [
        | inr later ↦ inr (inr later)
        | inl here ↦ elim (lookup-put_some name n o before here) [
          | inl old ↦ inl old
          | inr new ↦ inr (inl (Gives-here name n text place o found holds new))
        ]
      ]

module _ {S : Type 0} (D : Disk S) (zip : Zip) where
  -- Each named result that is collected holds what stands at the place of a path that the job gives
  -- that name: the place is the data directory or below it, wherever links lead, and was there. A file
  -- is taken as it is, a directory as an archive.
  pub collect_named_results_sound :
      (job : JobInfo) (base_dir : Location) (s : S) (r : Dict Bytes) (name : Text) (content : Bytes)
      → collect_named_results D zip job base_dir s ≡ ok r
      → Dict.lookup name r ≡ some content
      → (data_dir : Location) × (D.resolve (base_dir ++ codes "data" ∷ []) s ≡ ok data_dir)
        × Some (Gives D zip data_dir s name content) job.named_results
  unfolding collect_named_results Dict.lookup
  collect_named_results_sound job base_dir s r name content h e =
      let (data_dir, found, h1) = bind_ok (D.resolve (base_dir ++ codes "data" ∷ []) s) _ h in
      elim (gather_named_sound D zip data_dir s name job.named_results [] r h1 e) [
        | inl none_yet ↦ absurd (cc)
        | inr asked ↦ (data_dir, found, asked)
      ]
