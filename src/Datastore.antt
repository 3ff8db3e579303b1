-- ===== src/Datastore.antt =====
-- The datastore (dtn/datastore.py): its answers to discovery bundles and to requests for named data.
-- The proofs are in the modules below this one.
pub mod Put
pub mod Get
mod Tests
use ma_sinafadavi_gpt.Base.{
  ℕ, ◌≡◌, Bool, true, false, Option, none, some, List, [], ◌∷◌, ◌++◌, Text, Bytes, codes, Result,
  ok, err, Error, ◌==◌, if◌then◌else◌,
}
use ma_sinafadavi_gpt.Base.Exceptions.{name_taken}
use ma_sinafadavi_gpt.Eid.{Endpoint}
use ma_sinafadavi_gpt.Bundles
use ma_sinafadavi_gpt.Bundles.{
  BundleData, Names, nameless, one, many, bundle, is_discovery, is_named,
}
use ma_sinafadavi_gpt.Bundles.BundleType
use ma_sinafadavi_gpt.Node
use ma_sinafadavi_gpt.Node.{Node}
use ma_sinafadavi_gpt.Storage.{Backend, Storage, store_data, load_data}

-- `[named_data] if isinstance(named_data, str) else named_data`
unfoldable pub names_of : Names → List Text
names_of nameless = []
names_of (one t) = t ∷ []
names_of (many ts) = ts

-- `str(NameTakenError(name))`
abbrev pub taken_message : Text → Text
taken_message name = codes "name " ++ (name ++ codes " already taken")

-- What the `try` around `store_data` leaves in `success` and `error`.
unfoldable pub outcome : Result (Unit {0}) → Bool × Text → Result (Bool × Text)
outcome (ok _) status = ok status
outcome (err (name_taken name)) status = ok (false, taken_message name)
outcome (err e) status = err e

module _ (B : Backend) where
  pub record Datastore : Type 0 where
    pub node : Node
    pub storage : Storage B

  -- The response to the writing of a name.
  abbrev pub put_reply : Datastore → BundleData → Text → Bool × Text → BundleData
  put_reply s b name (success, error) =
      record (bundle BundleType.ndata_put s.node.node_id b.source) {
        named_data = one name;
        success = success;
        error = error;
      }

  -- The response with the data of a name.
  abbrev pub get_reply : Datastore → BundleData → Text × Bytes → BundleData
  get_reply s b (name, content) = record (bundle BundleType.ndata_get s.node.node_id b.source) {
    payload = content;
    named_data = one name;
  }

  abbrev pub with_storage : Datastore → Storage B → Datastore
  with_storage s storage = record s { storage = storage }

  -- Appends a response that could be made, and goes on.
  unfoldable pub respond :
      Result BundleData
      → List BundleData
      → Datastore
      → (List BundleData → Result (List BundleData) × Datastore)
      → Result (List BundleData) × Datastore
  respond (err e) bundles s rest = (err e, s)
  respond (ok b) bundles s rest = rest (bundles ++ b ∷ [])

  -- What stands behind the `try` in the loop of a PUT.
  unfoldable pub put_checked :
      BundleData
      → Text
      → List BundleData
      → Result (Bool × Text)
      → Datastore
      → (Bool × Text → List BundleData → Datastore → Result (List BundleData) × Datastore)
      → Result (List BundleData) × Datastore
  put_checked b name bundles (err e) s rest = (err e, s)
  put_checked b name bundles (ok status) s rest =
      respond (Bundles.new (put_reply s b name status)) bundles s (λ more. rest status more s)

  -- The loop over the names of a PUT; `success` and `error` are set before the loop only.
  unfoldable pub put_all :
      BundleData
      → List Text
      → Bool × Text
      → List BundleData
      → Datastore
      → Result (List BundleData) × Datastore
  put_all b [] status bundles s = (ok bundles, s)
  put_all b (name ∷ names) status bundles s =
      let r = store_data B name b.payload s.storage in
      put_checked b name bundles (outcome r.0 status) (with_storage s r.1) (put_all b names)

  -- The inner loop of a GET, over what was loaded for a name.
  unfoldable pub get_one :
      BundleData
      → List (Text × Bytes)
      → List BundleData
      → Datastore
      → (List BundleData → Datastore → Result (List BundleData) × Datastore)
      → Result (List BundleData) × Datastore
  get_one b [] bundles s rest = rest bundles s
  get_one b (item ∷ items) bundles s rest =
      respond (Bundles.new (get_reply s b item)) bundles s (λ more. get_one b items more s rest)

  -- The loop over the names of a GET.
  unfoldable pub get_all :
      BundleData → List Text → List BundleData → Datastore → Result (List BundleData) × Datastore
  get_all b [] bundles s = (ok bundles, s)
  get_all b (name ∷ names) bundles s =
      let r = load_data B name s.storage in
      get_one b r.0 bundles (with_storage s r.1) (get_all b names)

  -- `_handle_data`. Without names it returns no bundles, as the loops do.
  unfoldable pub handle_data : BundleData → Datastore → Result (List BundleData) × Datastore
  handle_data b s =
      if b.type == BundleType.ndata_put
      then put_all b (names_of b.named_data) (true, []) [] s
      else if b.type == BundleType.ndata_get
      then get_all b (names_of b.named_data) [] s
      else (ok [], s)

  with_node : Result (List BundleData) × Node → Datastore → Result (List BundleData) × Datastore
  with_node (r, node) s = (r, record s { node = node })

  -- `_handle_bundle`
  unfoldable pub handle_bundle : BundleData → Datastore → Result (List BundleData) × Datastore
  unfolding with_node
  handle_bundle b s =
      if is_discovery b.type
      then with_node (Node.handle_discovery b s.node) s
      else if is_named b.type
      then handle_data b s
      else (ok [], s)
