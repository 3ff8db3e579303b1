-- ===== src/Datastore/Tests.antt =====
-- Runs of the datastore (dtn/datastore.py) over a store in memory.
use ma_sinafadavi_gpt.Base.{
  ◌≡◌, refl, true, false, List, [], ◌∷◌, Text, Bytes, codes, text_eq, is_empty, select, starts_with,
  All, ℕ, if◌then◌else◌, ok,
}
use ma_sinafadavi_gpt.Base.Dict
use ma_sinafadavi_gpt.Eid.{eid, truthy}
use ma_sinafadavi_gpt.Bundles.{BundleData, Names, one, many, bundle}
use ma_sinafadavi_gpt.Bundles.BundleType
use ma_sinafadavi_gpt.Bundles.NodeType
use ma_sinafadavi_gpt.Node.{unassociated}
use ma_sinafadavi_gpt.Storage.{add_new, load_data, cleanup}
use ma_sinafadavi_gpt.Storage.View.{find}
use ma_sinafadavi_gpt.Storage.Memory.{in_memory, in_memory-IsLawful}
use ma_sinafadavi_gpt.Datastore.{Datastore, put_reply, with_storage, taken_message, handle_data}
use ma_sinafadavi_gpt.Datastore.Put.{CanAnswer, free, put_one, put_failure_sticks}

-- A datastore that holds `x` under the name `a`.
abbrev shop : Datastore in_memory
shop = record {
  node = unassociated (eid (codes "dtn://s/")) NodeType.datastore;
  storage = record {
    db = record { name = codes "a"; filename = codes "x" } ∷ [];
    blobs = (codes "x", codes "x") ∷ [];
  };
}

abbrev asked : ℕ → Names → BundleData
asked type names = record (bundle type (eid (codes "dtn://c/")) (eid (codes "dtn://s/"))) {
  payload = codes "y";
  named_data = names;
}

CanAnswer-put : (type : ℕ) (names : Names) → CanAnswer in_memory (asked type names) shop
unfolding truthy text_eq
CanAnswer-put type names = record { from = refl; to = refl }

put_one_example : handle_data in_memory (asked BundleType.ndata_put (one (codes "b"))) shop ≡ (
    if free in_memory in_memory-IsLawful (codes "b") shop.storage
    then (
      ok (
          put_reply in_memory shop
            (asked BundleType.ndata_put (one (codes "b")))
            (codes "b")
            (true, [])
          ∷ []),
      with_storage in_memory shop (add_new in_memory (codes "b") (codes "y") shop.storage),
    )
    else (
      ok (
          put_reply in_memory shop
            (asked BundleType.ndata_put (one (codes "b")))
            (codes "b")
            (false, taken_message (codes "b"))
          ∷ []),
      shop,
    ))
put_one_example =
    put_one in_memory in_memory-IsLawful (asked BundleType.ndata_put (one (codes "b"))) (codes "b")
      shop (CanAnswer-put BundleType.ndata_put (one (codes "b"))) refl refl refl

abbrev two : List Text
two = codes "a" ∷ codes "b" ∷ []

first_taken : free in_memory in_memory-IsLawful (codes "a") shop.storage ≡ false
unfolding find text_eq
first_taken = refl

second_free : free in_memory in_memory-IsLawful (codes "b") shop.storage ≡ true
unfolding find text_eq
second_free = refl

put_failure_sticks_example : handle_data in_memory (asked BundleType.ndata_put (many two)) shop ≡ (
  ok (
      put_reply in_memory shop
        (asked BundleType.ndata_put (many two))
        (codes "a")
        (false, taken_message (codes "a"))
      ∷ put_reply in_memory shop
          (asked BundleType.ndata_put (many two))
          (codes "b")
          (false, taken_message (codes "a"))
      ∷ []),
  with_storage in_memory shop (add_new in_memory (codes "b") (codes "y") shop.storage),
)
put_failure_sticks_example =
    put_failure_sticks in_memory in_memory-IsLawful (asked BundleType.ndata_put (many two))
      (codes "a") (codes "b") shop (CanAnswer-put BundleType.ndata_put (many two)) refl refl refl
      refl first_taken second_free

shop_loads :
    load_data in_memory (codes "a") shop.storage ≡ ((codes "a", codes "x") ∷ [], shop.storage)
unfolding load_data select starts_with text_eq Dict.lookup cleanup
shop_loads = refl

loads_named :
    All
      (λ (item : Text × Bytes). is_empty item.0 ≡ false)
      (load_data in_memory (codes "a") shop.storage).0
loads_named = rw shop_loads (refl, tt)
