-- ===== src/Client/Exchange.antt =====
-- A client's commands together with the programs that answer them (dtn/client.py, dtn/datastore.py).
use ma_sinafadavi_gpt.Base.{
  ◌≡◌, ◌∙◌, refl, true, false, some, List, [], ◌∷◌, map, Text, Bytes, is_empty, Result, ok, arith,
  if◌then◌else◌,
}
use ma_sinafadavi_gpt.Eid.{Endpoint, truthy}
use ma_sinafadavi_gpt.Bundles
use ma_sinafadavi_gpt.Bundles.{BundleData, one, bundle, new}
use ma_sinafadavi_gpt.Bundles.BundleType
use ma_sinafadavi_gpt.Messages.{Message, fetch_reply}
use ma_sinafadavi_gpt.Node.{Node, new_bundles}
use ma_sinafadavi_gpt.Storage.{Backend, IsLawful, add_new, load_data}
use ma_sinafadavi_gpt.Datastore
use ma_sinafadavi_gpt.Datastore.Get.{AllNamed, get_answered}
use ma_sinafadavi_gpt.Datastore.{Datastore, get_reply, put_reply, with_storage, taken_message}
use ma_sinafadavi_gpt.Datastore.Put.{free, put_one}
use ma_sinafadavi_gpt.Client.{first_of, wait_reply, put_bundle, get_bundle}

-- What a fetch brings.
abbrev pub brought : List BundleData → Result Message
brought bundles = ok (fetch_reply true [] bundles)

abbrev pub put_request : Node → Endpoint → Text → Bytes → BundleData
put_request n datastore name content = record (bundle BundleType.ndata_put n.node_id datastore) {
  payload = content;
  named_data = one name;
}

new-put_request :
    (n : Node) (datastore : Endpoint) (name : Text) (content : Bytes)
    → truthy n.node_id ≡ true
    → truthy datastore ≡ true
    → is_empty name ≡ false
    → put_bundle n datastore name content ≡ ok (put_request n datastore name content)
unfolding put_bundle new Bundles.has_names
new-put_request n datastore name content hn hd named = rw (hn, hd, named)

module _ (B : Backend) (law : IsLawful B) where
  -- What a datastore answers to a client's PUT.
  abbrev pub put_answer : Node → Datastore B → Text → Bytes → BundleData
  put_answer n s name content =
      put_reply B s (put_request n s.node.node_id name content) name
        (if free B law name s.storage then (true, []) else (false, taken_message name))

  handle-put_request :
      (n : Node) (s : Datastore B) (name : Text) (content : Bytes)
      → truthy n.node_id ≡ true
      → truthy s.node.node_id ≡ true
      → is_empty name ≡ false
      → Datastore.handle_bundle B (put_request n s.node.node_id name content) s ≡ (
        ok (put_answer n s name content ∷ []),
        (if free B law name s.storage
            then with_storage B s (add_new B name content s.storage)
            else s),
      )
  unfolding Datastore.handle_bundle
  handle-put_request n s name content hn hs named =
      put_one B law (put_request n s.node.node_id name content) name s
        (record { from = hs; to = hn }) named refl refl
      ∙ ground arith

  -- The PUT of a client, from the bundle that it sends to the reply that it waits for: if neither
  -- endpoint is `dtn:none` and the name is not empty, the bundle can be made, the datastore answers it
  -- with one bundle, the client's wait ends with that bundle, and it reports success exactly where the
  -- name was free; the data is added then, and else the datastore stays as it was.
  pub put_exchange :
      (n : Node) (s : Datastore B) (name : Text) (content : Bytes)
      → truthy n.node_id ≡ true
      → truthy s.node.node_id ≡ true
      → is_empty name ≡ false
      → (request reply : BundleData) × (s' : Datastore B) × (put_bundle n s.node.node_id name
            content
          ≡ ok request)
        × (Datastore.handle_bundle B request s ≡ (ok (reply ∷ []), s'))
        × (wait_reply BundleType.ndata_put (brought (reply ∷ []) ∷ []) ≡ ok (some reply))
        × (reply.success ≡ free B law name s.storage)
        × (s'.storage
            ≡ (if free B law name s.storage then add_new B name content s.storage else s.storage))
  unfolding wait_reply first_of new_bundles
  put_exchange n s name content hn hs named = (
    put_request n s.node.node_id name content,
    put_answer n s name content,
    _,
    new-put_request n s.node.node_id name content hn hs named,
    handle-put_request n s name content hn hs named,
    refl,
    ground arith,
    ground arith,
  )

  abbrev pub get_request : Node → Endpoint → Text → BundleData
  get_request n datastore name = record (bundle BundleType.ndata_get n.node_id datastore) {
    named_data = one name;
  }

  new-get_request :
      (n : Node) (datastore : Endpoint) (name : Text)
      → truthy n.node_id ≡ true
      → truthy datastore ≡ true
      → is_empty name ≡ false
      → get_bundle n datastore name ≡ ok (get_request n datastore name)
  unfolding get_bundle new Bundles.has_names
  new-get_request n datastore name hn hd named = rw (hn, hd, named)

  handle-get_request :
      (n : Node) (s : Datastore B) (name : Text)
      → truthy n.node_id ≡ true
      → truthy s.node.node_id ≡ true
      → AllNamed B (load_data B name s.storage).0
      → Datastore.handle_bundle B (get_request n s.node.node_id name) s ≡ (
        ok (map (get_reply B s (get_request n s.node.node_id name)) (load_data B name s.storage).0),
        with_storage B s (load_data B name s.storage).1,
      )
  unfolding Datastore.handle_bundle
  handle-get_request n s name hn hs named =
      get_answered B (get_request n s.node.node_id name) name s (record { from = hs; to = hn })
        named refl refl

  -- The GET of a client, from the bundle that it sends to the reply that it waits for: if neither
  -- endpoint is `dtn:none`, the name is not empty, and the datastore loads some items for the name,
  -- none of them with the empty name, the bundle can be made, the datastore raises nothing, and
  -- the client's wait ends with the response for the first item that is loaded.
  pub get_exchange :
      (n : Node) (s : Datastore B) (name first : Text) (content : Bytes)
      (items : List (Text × Bytes))
      → truthy n.node_id ≡ true
      → truthy s.node.node_id ≡ true
      → is_empty name ≡ false
      → (load_data B name s.storage).0 ≡ (first, content) ∷ items
      → AllNamed B ((first, content) ∷ items)
      → (request : BundleData) × (replies : List BundleData) × (s' : Datastore B) × (get_bundle n
            s.node.node_id name
          ≡ ok request)
        × (Datastore.handle_bundle B request s ≡ (ok replies, s'))
        × (wait_reply BundleType.ndata_get (brought replies ∷ [])
            ≡ ok (some (get_reply B s request (first, content))))
  unfolding wait_reply first_of new_bundles
  get_exchange n s name first content items hn hs some_name loaded named = (
    get_request n s.node.node_id name,
    map (get_reply B s (get_request n s.node.node_id name)) (load_data B name s.storage).0,
    _,
    new-get_request n s.node.node_id name hn hs some_name,
    handle-get_request n s name hn hs (rw loaded named),
    rw loaded refl,
  )
