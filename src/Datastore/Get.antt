-- ===== src/Datastore/Get.antt =====
-- What a datastore does with a GET (dtn/datastore.py).
use ma_sinafadavi_gpt.Base.{
  ◌≡◌, ◌∙◌, ap, false, List, [], ◌∷◌, ◌++◌, map, append_assoc, append-nil, Text, Bytes, is_empty,
  Result, ok, arith, All,
}
use ma_sinafadavi_gpt.Bundles
use ma_sinafadavi_gpt.Bundles.{BundleData, Names, one, new}
use ma_sinafadavi_gpt.Bundles.BundleType
use ma_sinafadavi_gpt.Storage.{Backend, load_data}
use ma_sinafadavi_gpt.Datastore.{
  Datastore, names_of, get_reply, with_storage, respond, get_one, get_all, handle_data,
}
use ma_sinafadavi_gpt.Datastore.Put.{CanAnswer}

module _ (B : Backend) where
  -- No item has the empty name.
  abbrev pub AllNamed : List (Text × Bytes) → Type 0
  AllNamed items = All (λ (item : Text × Bytes). is_empty item.0 ≡ false) items

  new-get_reply :
      (b : BundleData) (s : Datastore B) (item : Text × Bytes)
      → CanAnswer B b s
      → is_empty item.0 ≡ false
      → new (get_reply B s b item) ≡ ok (get_reply B s b item)
  unfolding new Bundles.has_names
  new-get_reply b s (name, content) h named = rw (h.from, h.to, named) (ground arith)

  -- The loop over what was loaded for one name.
  get_one-map :
      (b : BundleData) (items : List (Text × Bytes)) (bundles : List BundleData) (s : Datastore B)
      (rest : List BundleData → Datastore B → Result (List BundleData) × Datastore B)
      → CanAnswer B b s
      → AllNamed items
      → get_one B b items bundles s rest ≡ rest (bundles ++ map (get_reply B s b) items) s
  unfolding get_one respond
  get_one-map b [] bundles s rest h named = rw (append-nil bundles)
  get_one-map b (item ∷ items) bundles s rest h (first, named) = rw (
    new-get_reply b s item h first,
    get_one-map b items (bundles ++ get_reply B s b item ∷ []) s rest h named,
    append_assoc,
  )

  -- A GET is the loop over the names.
  get-handle_data :
      (b : BundleData) (names : Names) (s : Datastore B)
      → b.type ≡ BundleType.ndata_get
      → b.named_data ≡ names
      → handle_data B b s ≡ get_all B b (names_of names) [] s
  unfolding handle_data
  get-handle_data b names s type e = ground (arith) ∙ ap (λ n. get_all B b (names_of n) [] s) e

  -- A GET of one name, by a sender that can be answered, is answered by one response for each item
  -- that the storage loads for the name, in their order and with its data, if no item has the empty
  -- name; the storage afterwards is the one that loading leaves.
  pub get_answered :
      (b : BundleData) (name : Text) (s : Datastore B)
      → CanAnswer B b s
      → AllNamed (load_data B name s.storage).0
      → b.type ≡ BundleType.ndata_get
      → b.named_data ≡ one name
      → handle_data B b s ≡ (
        ok (map (get_reply B s b) (load_data B name s.storage).0),
        with_storage B s (load_data B name s.storage).1,
      )
  unfolding names_of get_all
  get_answered b name s h named type names =
      let s' = with_storage B s (load_data B name s.storage).1 in
      get-handle_data b (one name) s type names
      ∙ get_one-map b (load_data B name s.storage).0 [] s' (get_all B b [])
          (record { from = h.from; to = h.to }) named
