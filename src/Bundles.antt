-- ===== src/Bundles.antt =====
-- Bundles (dtn/messages.py): the numbers of node, message and bundle types, `BundleData`, its checks
-- in `__post_init__`, and its two dictionary forms. The proofs are in the modules below this one.
pub mod NodeType
pub mod BundleType
pub mod RoundTrip
use ma_sinafadavi_gpt.Base.{
  ℕ, ◌≡◌, Bool, true, false, not, ◌&&◌, ◌||◌, Option, none, some, List, [], ◌∷◌, Text, Bytes, codes,
  is_empty, Result, ok, err, Error, ◌>>=◌, ◌>>◌, guard, ltb, leb, ◌==◌, if◌then◌else◌,
}
use ma_sinafadavi_gpt.Base.Exceptions.{
  no_source, no_destination, failure_without_error, success_with_error, bad_node_type, no_submitter,
  no_named_data, key_error, type_error, ill_typed,
}
use ma_sinafadavi_gpt.Eid.{Endpoint, eid, plain, text_of, truthy, normalize}
use ma_sinafadavi_gpt.Wire.{
  Value, Values, Fields, null, bool, int, str, bin, arr, obj, end, get, put_if, only_keys, one_of,
  texts, as_texts, need, as_nat, as_bool, as_text, as_bytes, as_obj,
}
use NodeType
use BundleType

-- `named_data: str | list[str] | None`
pub data Names : Type 0 where
  nameless : Names
  one : Text → Names
  many : List Text → Names

pub record BundleData : Type 0 where
  pub type : ℕ
  pub source : Endpoint
  pub destination : Endpoint
  pub payload : Bytes
  pub success : Bool
  pub error : Text
  pub node_type : ℕ
  pub submitter : Option Endpoint
  pub named_data : Names

-- The fields that have defaults, at their defaults.
abbrev pub bundle : ℕ → Endpoint → Endpoint → BundleData
bundle type source destination = record {
  type = type;
  source = source;
  destination = destination;
  payload = [];
  success = true;
  error = [];
  node_type = 0;
  submitter = none;
  named_data = nameless;
}

-- `a <= type <= b`
abbrev pub between : ℕ → ℕ → ℕ → Bool
between a b type = leb a type && leb type b

abbrev pub is_discovery : ℕ → Bool
is_discovery = between BundleType.broker_announce BundleType.broker_ack

abbrev pub is_named : ℕ → Bool
is_named = between BundleType.ndata_put BundleType.ndata_del

abbrev pub is_query : ℕ → Bool
is_query type = type == BundleType.job_query || type == BundleType.job_list

unfoldable pub has_names : Names → Bool
has_names nameless = false
has_names (one t) = not (is_empty t)
has_names (many ts) = not (is_empty ts)

unfoldable pub has_submitter : Option Endpoint → Bool
has_submitter none = false
has_submitter (some e) = truthy e

unless : Bool → Bool → Error → Result (Unit {0})
unless false ok? e = ok tt
unless true ok? e = guard ok? e

-- `BundleData.__post_init__`
unfoldable pub post_init : BundleData → Result (Unit {0})
unfolding unless
post_init b = do
  guard (truthy b.source) no_source
  guard (truthy b.destination) no_destination
  guard (b.success || not (is_empty b.error)) failure_without_error
  guard (not b.success || is_empty b.error) success_with_error
  unless (is_discovery b.type) (between NodeType.broker NodeType.client b.node_type) bad_node_type
  unless (is_query b.type) (has_submitter b.submitter) no_submitter
  unless (is_named b.type) (has_names b.named_data) no_named_data

-- `BundleData(…)`
unfoldable pub new : BundleData → Result BundleData
unfolding post_init
new b = do post_init b; ok b

value_of_names : Names → Value
value_of_names nameless = null
value_of_names (one t) = str t
value_of_names (many ts) = arr (texts ts)

value_of_submitter : Option Endpoint → Value
unfolding text_of
value_of_submitter none = null
value_of_submitter (some e) = str (text_of e)

-- `BundleData.dictify`: what is false is left out, but `success` is always there.
unfoldable pub dictify : BundleData → Fields
unfolding has_names has_submitter value_of_names value_of_submitter
dictify b = put_if (not (b.type == 0)) (codes "type") (int b.type) (
    put_if (truthy b.source) (codes "source") (str (text_of b.source)) (
      put_if (truthy b.destination) (codes "destination") (str (text_of b.destination)) (
        put_if (not (is_empty b.payload)) (codes "payload") (bin b.payload) (
          put_if b.success (codes "success") (bool true) (
            put_if (not (is_empty b.error)) (codes "error") (str b.error) (
              put_if (not (b.node_type == 0)) (codes "node_type") (int b.node_type) (
                put_if (has_submitter b.submitter) (codes "submitter")
                  (value_of_submitter b.submitter)
                  (put_if (has_names b.named_data) (codes "named_data")
                    (value_of_names b.named_data)
                    (put_if (not b.success) (codes "success") (bool false) end)))))))))

abbrev pub field_names : List Text
field_names =
    codes "type"
    ∷ codes "source"
    ∷ codes "destination"
    ∷ codes "payload"
    ∷ codes "success"
    ∷ codes "error"
    ∷ codes "node_type"
    ∷ codes "submitter"
    ∷ codes "named_data"
    ∷ []

-- A field that may be missing.
optional {ℓ} : {A : Type ℓ} → (Value → Result A) → A → Option Value → Result A
optional read default none = ok default
optional read default (some v) = read v

-- `EID(value)`
as_eid : Value → Result Endpoint
unfolding as_text
as_eid v = do t ← as_text v; e ← normalize t; ok (eid e)

as_names : Value → Result Names
as_names null = ok nameless
as_names (str t) = ok (one t)
as_names (arr vs) = do ts ← as_texts vs; ok (many ts)
as_names _ = err ill_typed

-- An entry that is there holds an endpoint: `EID` is called on it.
as_submitter : Value → Result (Option Endpoint)
unfolding as_eid
as_submitter v = do e ← as_eid v; ok (some e)

-- `BundleData.from_dict`
unfoldable pub from_dict : Fields → Result BundleData
unfolding optional as_eid as_names as_submitter new
from_dict d = do
  source ← need key_error (get (codes "source") d)
  source' ← as_eid source
  destination ← need key_error (get (codes "destination") d)
  destination' ← as_eid destination
  submitter ← optional as_submitter none (get (codes "submitter") d)
  guard (only_keys field_names d) type_error
  type ← need type_error (get (codes "type") d)
  type' ← as_nat type
  payload ← optional as_bytes [] (get (codes "payload") d)
  success ← optional as_bool true (get (codes "success") d)
  error ← optional as_text [] (get (codes "error") d)
  node_type ← optional as_nat 0 (get (codes "node_type") d)
  named_data ← optional as_names nameless (get (codes "named_data") d)
  new (record {
    type = type';
    source = source';
    destination = destination';
    payload = payload;
    success = success;
    error = error;
    node_type = node_type;
    submitter = submitter;
    named_data = named_data;
  })
