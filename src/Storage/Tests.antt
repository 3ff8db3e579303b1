-- ===== src/Storage/Tests.antt =====
-- Runs of the code of dtn/storage.py, and the theorems on it at a store in memory.
use ma_sinafadavi_gpt.Base.{
  ◌≡◌, ◌↔◌, refl, true, none, some, [], ◌∷◌, Text, codes, text_eq, select, starts_with, ok, err,
}
use ma_sinafadavi_gpt.Base.Dict
use ma_sinafadavi_gpt.Base.Exceptions.{name_taken, no_such_name}
use ma_sinafadavi_gpt.Storage.{Storage, init, store_data, load_data, find_missing, copy_to_file}
use ma_sinafadavi_gpt.Storage.View.{find, view}
use ma_sinafadavi_gpt.Storage.Memory.{in_memory, in_memory-IsLawful}
use ma_sinafadavi_gpt.Storage.Store.{copy_to_file-store_data}
use ma_sinafadavi_gpt.Storage.Invariant.{IsValid, store_data-IsValid, init-IsValid}
use ma_sinafadavi_gpt.Storage.Load.{Holds, load_data_iff}
use ma_sinafadavi_gpt.Storage.Cleanup.{lost_name_stays_taken}

abbrev a : Text
a = codes "a"

abbrev one_entry : Storage in_memory
one_entry = record {
  db = record { name = codes "a"; filename = codes "x" } ∷ [];
  blobs = (codes "x", codes "x") ∷ [];
}

one_entry_run : store_data in_memory (codes "a") (codes "x") (init in_memory) ≡ (ok tt, one_entry)
unfolding store_data select Dict.lookup Dict.put
one_entry_run = refl

one_entry-IsValid : IsValid in_memory in_memory-IsLawful one_entry
unfolding store_data select Dict.lookup Dict.put
one_entry-IsValid =
    store_data-IsValid in_memory in_memory-IsLawful (codes "a") (codes "x") (init in_memory)
      (init-IsValid in_memory in_memory-IsLawful)

second_accepted : (store_data in_memory (codes "b") (codes "x") one_entry).0 ≡ ok tt
unfolding store_data select Dict.lookup Dict.put text_eq
second_accepted = refl

-- The second name shares the blob of the first.
copy_to_file-store_data_example :
    (copy_to_file in_memory
      (codes "b")
      (store_data in_memory (codes "b") (codes "x") one_entry).1).0
    ≡ ok (codes "x")
copy_to_file-store_data_example =
    copy_to_file-store_data in_memory in_memory-IsLawful (codes "b") (codes "x") one_entry
      one_entry-IsValid.hashed (λ f old there same. same) second_accepted

first_readable : (copy_to_file in_memory (codes "a") one_entry).0 ≡ ok (codes "x")
unfolding copy_to_file select Dict.lookup text_eq
first_readable = refl

load_data_iff_example : Holds (codes "a") (codes "x") (load_data in_memory [] one_entry).0 ↔ (
    (starts_with (codes "a") [] ≡ true)
    × (view in_memory in_memory-IsLawful one_entry (codes "a") ≡ some (codes "x")))
load_data_iff_example =
    load_data_iff in_memory in_memory-IsLawful [] (codes "a") (codes "x") one_entry
      one_entry-IsValid.distinct

none_missing : find_missing in_memory (codes "a" ∷ []) one_entry ≡ []
unfolding find_missing select text_eq
none_missing = refl

-- The same store after its blob file was deleted.
abbrev lost : Storage in_memory
lost = record one_entry { blobs = [] }

lost_found : find (codes "a") lost.db ≡ some (record { name = codes "a"; filename = codes "x" })
unfolding find text_eq
lost_found = refl

lost_blob : Dict.lookup (codes "x") lost.blobs ≡ none
unfolding Dict.lookup
lost_blob = refl

lost_unnamed : find (codes "x") lost.db ≡ none
unfolding find text_eq
lost_unnamed = refl

lost_name_stays_taken_example :
    ((copy_to_file in_memory (codes "a") lost).0 ≡ err (no_such_name (codes "a")))
    × ((store_data in_memory (codes "a") (codes "y") (copy_to_file in_memory (codes "a") lost).1).0
        ≡ err (name_taken (codes "a")))
lost_name_stays_taken_example =
    lost_name_stays_taken in_memory in_memory-IsLawful (codes "a") (codes "y") lost
      (record { name = codes "a"; filename = codes "x" }) lost_found lost_blob lost_unnamed
