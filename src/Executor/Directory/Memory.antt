-- ===== src/Executor/Directory/Memory.antt =====
-- A disk in memory without links, which shows that what the theorems assume of a disk can be met.
use ma_sinafadavi_gpt.Base.{
  ◌≡◌, refl, inl, inr, Bool, Bool-cases, true, false, not, ◌&&◌, ◌||◌, Option, none, some, List, [],
  ◌∷◌, ◌++◌, Bytes, codes, text_eq, select, Result, ok, err, if◌then◌else◌,
}
use ma_sinafadavi_gpt.Base.Exceptions.{file_not_found}
use ma_sinafadavi_gpt.Executor.Directory.{Location, is_relative_to, parent, Disk}
use ma_sinafadavi_gpt.Executor.Directory.Inside.{Log}

-- What was made and written, in order, and the contents of the files.
pub record Memory : Type 0 where
  pub places : List Location
  pub files : List (Location × Bytes)

-- The names `..` that a place holds are followed, from the root on.
walk : Location → Location → Location
walk done [] = done
walk done (n ∷ rest) =
    let up = walk (parent done) rest in
    let down = walk (done ++ n ∷ []) rest in if text_eq n (codes "..") then up else down

same_place : Location → Location → Bool
same_place a b = is_relative_to a b && is_relative_to b a

any_below : Location → List Location → Bool
any_below place [] = false
any_below place (l ∷ ls) = is_relative_to l place || any_below place ls

content_at : Location → List (Location × Bytes) → Option Bytes
unfolding same_place
content_at place [] = none
content_at place ((l, content) ∷ files) =
    let older = content_at place files in if same_place l place then some content else older

is_there : Option Bytes → Bool
is_there none = false
is_there (some content) = true

found : Option Bytes → Result Bytes
found none = err file_not_found
found (some content) = ok content

unfoldable pub memory : Disk Memory
unfolding walk any_below content_at is_there found same_place
memory = record {
  resolve = λ place s. ok (walk [] place);
  mkdir = λ place s. (ok tt, record s { places = s.places ++ place ∷ [] });
  write = λ place content s.
      (ok tt, record { places = s.places ++ place ∷ []; files = (place, content) ∷ s.files });
  read = λ place s. found (content_at place s.files);
  exists = λ place s. any_below place s.places;
  is_file = λ place s. is_there (content_at place s.files);
  is_dir = λ place s. any_below place s.places && not (is_there (content_at place s.files));
  rglob = λ place s. select (λ l. is_relative_to l place && not (is_relative_to place l)) s.places;
  rmtree = λ place s. record s { places = select (λ l. not (is_relative_to l place)) s.places };
}

unfoldable pub memory-Log : Log memory
unfolding memory
memory-Log = record {
  places = λ s. s.places;
  places-mkdir = λ l s. refl;
  places-write = λ l content s. refl;
}

any_below-select :
    (place : Location) (ls : List Location)
    → any_below place (select (λ l. not (is_relative_to l place)) ls) ≡ false
unfolding any_below select
any_below-select place [] = refl
any_below-select place (l ∷ ls) = elim (Bool-cases (is_relative_to l place)) [
  | inl below ↦ rw below (any_below-select place ls)
  | inr beside ↦ rw (beside, beside) (any_below-select place ls)
]

pub exists-rmtree :
    (place : Location) (s : Memory) → memory.exists place (memory.rmtree place s) ≡ false
unfolding memory
exists-rmtree place s = any_below-select place s.places
