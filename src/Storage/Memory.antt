-- ===== src/Storage/Memory.antt =====
-- A database that is a list of documents, with data as its own hash: the laws of `asynctinydb` and
-- of `sha1` that the theorems on dtn/storage.py assume can be met.
use ma_sinafadavi_gpt.Base.{refl, not, List, [], ◌∷◌, ◌++◌, select}
use ma_sinafadavi_gpt.Storage.{Entry, Backend, IsLawful}

abbrev pub in_memory : Backend
in_memory = record {
  Db = List Entry;
  empty = [];
  insert = λ d e. d ++ e ∷ [];
  search = λ d p. select p d;
  remove = λ d p. select (λ e. not (p e)) d;
  sha1 = λ content. content;
}

abbrev pub in_memory-IsLawful : IsLawful in_memory
in_memory-IsLawful = record {
  documents = λ d. d;
  documents-empty = refl;
  documents-insert = λ d e. refl;
  search-documents = λ d p. refl;
  documents-remove = λ d p. refl;
}
