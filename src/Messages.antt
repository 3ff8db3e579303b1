-- ===== src/Messages.antt =====
-- Messages between a node and its DTN agent (dtn/messages.py): the five classes with the checks of
-- their `__post_init__`, their dictionary forms, `serialize` and `deserialize`. The proofs are in
-- the module below this one.
pub mod RoundTrip
mod Tests
use ma_sinafadavi_gpt.Base.{
  ℕ, ◌≡◌, Bool, true, false, not, ◌&&◌, ◌||◌, Option, none, some, List, [], ◌∷◌, Text, Bytes, codes,
  is_empty, Result, ok, err, Error, ◌>>=◌, ◌>>◌, guard, ◌==◌, if◌then◌else◌,
}
use ma_sinafadavi_gpt.Base.Exceptions.{
  wrong_type, reply_without_error, reply_with_error, none_endpoint, unknown_message, key_error,
  type_error, ill_typed,
}
use ma_sinafadavi_gpt.Eid.{Endpoint, eid, plain, text_of, truthy}
use ma_sinafadavi_gpt.Wire.{
  Value, Values, Fields, bool, int, str, arr, obj, nil, cons, end, field, get, has, only_keys, need,
  as_nat, as_bool, as_text, as_obj, Codec,
}
use ma_sinafadavi_gpt.Bundles
use ma_sinafadavi_gpt.Bundles.{BundleData}

-- `MessageType`
abbrev pub reply_type : ℕ
reply_type = 1

abbrev pub register_type : ℕ
register_type = 2

abbrev pub fetch_type : ℕ
fetch_type = 3

abbrev pub fetch_reply_type : ℕ
fetch_reply_type = 4

abbrev pub create_type : ℕ
create_type = 5

-- A message that passed its checks, which leave one type number for each class.
pub data Message : Type 0 where
  reply : Bool → Text → Message
  register : Endpoint → Message
  fetch : Endpoint → ℕ → Message
  fetch_reply : Bool → Text → List BundleData → Message
  create : BundleData → Message

-- `Reply(type, success, error)`
unfoldable pub new_reply : ℕ → Bool → Text → Result Message
new_reply type success error = do
  guard (type == reply_type) wrong_type
  guard (success || not (is_empty error)) reply_without_error
  guard (not success || is_empty error) reply_with_error
  ok (reply success error)

-- `Register(type, endpoint_id)`
unfoldable pub new_register : ℕ → Endpoint → Result Message
new_register type endpoint = do
  guard (type == register_type) wrong_type
  guard (truthy endpoint) none_endpoint
  ok (register endpoint)

-- `Fetch(type, endpoint_id, node_type)`
unfoldable pub new_fetch : ℕ → Endpoint → ℕ → Result Message
new_fetch type endpoint node_type = do
  guard (type == fetch_type) wrong_type
  guard (truthy endpoint) none_endpoint
  ok (fetch endpoint node_type)

-- `FetchReply(type, success, error, bundles)`: its `__post_init__` replaces that of `Reply`.
unfoldable pub new_fetch_reply : ℕ → Bool → Text → List BundleData → Result Message
new_fetch_reply type success error bundles = do
  guard (type == fetch_reply_type) wrong_type
  ok (fetch_reply success error bundles)

-- `BundleCreate(type, bundle)`
unfoldable pub new_create : ℕ → BundleData → Result Message
new_create type bundle = do guard (type == create_type) wrong_type; ok (create bundle)

-- `[bundle.dictify() for bundle in bundles]`
dictify_all : List BundleData → Values
dictify_all [] = nil
dictify_all (b ∷ bs) = cons (obj (Bundles.dictify b)) (dictify_all bs)

-- `message.dictify()`
unfoldable pub dictify : Message → Fields
unfolding dictify_all
dictify (reply success error) =
    field (codes "type") (int reply_type)
      (field (codes "success") (bool success) (field (codes "error") (str error) end))
dictify (register endpoint) =
    field (codes "type") (int register_type)
      (field (codes "endpoint_id") (str (text_of endpoint)) end)
dictify (fetch endpoint node_type) = field (codes "type") (int fetch_type) (
    field (codes "endpoint_id") (str (text_of endpoint))
      (field (codes "node_type") (int node_type) end))
dictify (fetch_reply success error bundles) = field (codes "type") (int fetch_reply_type) (
    field (codes "success") (bool success)
      (field (codes "error") (str error) (field (codes "bundles") (arr (dictify_all bundles)) end)))
dictify (create bundle) =
    field (codes "type") (int create_type)
      (field (codes "bundle") (obj (Bundles.dictify bundle)) end)

-- `[BundleData.from_dict(d) for d in dicts]`
bundles_from : Values → Result (List BundleData)
bundles_from nil = ok []
bundles_from (cons v vs) = do
  d ← as_obj v
  b ← Bundles.from_dict d
  bs ← bundles_from vs
  ok (b ∷ bs)

as_arr : Value → Result Values
as_arr (arr vs) = ok vs
as_arr _ = err ill_typed

abbrev arg : Text → Fields → Result Value
arg name d = need type_error (get name d)

-- `Reply.from_dict`
reply_from : Fields → Result Message
unfolding new_reply
reply_from d = do
  guard (only_keys (codes "type" ∷ codes "success" ∷ codes "error" ∷ []) d) type_error
  type ← arg (codes "type") d
  type' ← as_nat type
  success ← arg (codes "success") d
  success' ← as_bool success
  error ← arg (codes "error") d
  error' ← as_text error
  new_reply type' success' error'

-- `Register.from_dict`: the endpoint stays the `str` that it is in the dictionary.
register_from : Fields → Result Message
unfolding new_register
register_from d = do
  guard (only_keys (codes "type" ∷ codes "endpoint_id" ∷ []) d) type_error
  type ← arg (codes "type") d
  type' ← as_nat type
  endpoint ← arg (codes "endpoint_id") d
  endpoint' ← as_text endpoint
  new_register type' (plain endpoint')

-- `Fetch.from_dict`
fetch_from : Fields → Result Message
unfolding new_fetch
fetch_from d = do
  guard (only_keys (codes "type" ∷ codes "endpoint_id" ∷ codes "node_type" ∷ []) d) type_error
  type ← arg (codes "type") d
  type' ← as_nat type
  endpoint ← arg (codes "endpoint_id") d
  endpoint' ← as_text endpoint
  node_type ← arg (codes "node_type") d
  node_type' ← as_nat node_type
  new_fetch type' (plain endpoint') node_type'

-- `FetchReply.from_dict`, which reads `data["bundles"]` first
fetch_reply_from : Fields → Result Message
unfolding new_fetch_reply bundles_from as_arr
fetch_reply_from d = do
  bundles ← need key_error (get (codes "bundles") d)
  values ← as_arr bundles
  bundles' ← bundles_from values
  guard (only_keys (codes "type" ∷ codes "success" ∷ codes "error" ∷ codes "bundles" ∷ []) d)
      type_error
  type ← arg (codes "type") d
  type' ← as_nat type
  success ← arg (codes "success") d
  success' ← as_bool success
  error ← arg (codes "error") d
  error' ← as_text error
  new_fetch_reply type' success' error' bundles'

-- `BundleCreate.from_dict`
create_from : Fields → Result Message
unfolding new_create
create_from d = do
  bundle ← need key_error (get (codes "bundle") d)
  fields ← as_obj bundle
  bundle' ← Bundles.from_dict fields
  guard (only_keys (codes "type" ∷ codes "bundle" ∷ []) d) type_error
  type ← arg (codes "type") d
  type' ← as_nat type
  new_create type' bundle'

-- The entry of `MESSAGE_CONSTRUCTORS` for a type number.
construct : ℕ → Fields → Result Message
unfolding reply_from register_from fetch_from fetch_reply_from create_from
construct type d =
    if type == reply_type
    then reply_from d
    else if type == register_type
    then register_from d
    else if type == fetch_type
    then fetch_from d
    else if type == fetch_reply_type
    then fetch_reply_from d
    else if type == create_type
    then create_from d
    else err unknown_message

-- `deserialize`, once the bytes are unpacked
unfoldable pub from_value : Value → Result Message
unfolding construct
from_value v = do
  d ← as_obj v
  type ← need key_error (get (codes "type") d)
  type' ← as_nat type
  construct type' d

module _ (codec : Codec) where
  -- `serialize`
  unfoldable pub serialize : Message → Result Bytes
  serialize message = codec.packb (obj (dictify message))

  -- `deserialize`
  unfoldable pub deserialize : Bytes → Result Message
  deserialize serialized = do v ← codec.unpackb serialized; from_value v
