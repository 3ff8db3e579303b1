-- ===== src/Messages/RoundTrip.antt =====
-- `deserialize` undoes `serialize` (dtn/messages.py).
use ma_sinafadavi_gpt.Base.{
  ◌≡◌, refl, true, false, not, ◌||◌, List, [], ◌∷◌, Bytes, All, text_eq, is_empty, ok, err,
}
use ma_sinafadavi_gpt.Base.Exceptions.{none_endpoint}
use ma_sinafadavi_gpt.Eid.{eid, plain, text_of, truthy, dtn_none}
use ma_sinafadavi_gpt.Wire.{
  obj, get, only_keys, one_of, need, as_nat, as_bool, as_text, as_obj, Codec, IsLawful,
}
use ma_sinafadavi_gpt.Bundles.{BundleData}
use ma_sinafadavi_gpt.Bundles.RoundTrip.{IsSendable, from_dict-dictify}
use ma_sinafadavi_gpt.Messages.{
  Message, reply, register, fetch, fetch_reply, create, dictify, dictify_all, bundles_from,
  new_register, register_type, from_value, serialize, deserialize,
}

-- The checks that a message passed when it was made, and bundles that can be sent.
abbrev pub IsMade : Message → Type 0
IsMade (reply success error) =
    (success || not (is_empty error) ≡ true) × (not success || is_empty error ≡ true)
IsMade (register endpoint) = is_empty (text_of endpoint) ≡ false
IsMade (fetch endpoint node_type) = is_empty (text_of endpoint) ≡ false
IsMade (fetch_reply success error bundles) = All IsSendable bundles
IsMade (create bundle) = IsSendable bundle

-- What comes out at the other end: the endpoint of a registration or a fetch is a plain text.
abbrev pub received : Message → Message
received (register endpoint) = register (plain (text_of endpoint))
received (fetch endpoint node_type) = fetch (plain (text_of endpoint)) node_type
received m = m

bundles_from-dictify_all :
    (bs : List BundleData) → All IsSendable bs → bundles_from (dictify_all bs) ≡ ok bs
unfolding bundles_from dictify_all as_obj
bundles_from-dictify_all [] h = refl
bundles_from-dictify_all (b ∷ bs) (hb, hbs) =
    rw (from_dict-dictify b hb, bundles_from-dictify_all bs hbs)

from_value-dictify : (m : Message) → IsMade m → from_value (obj (dictify m)) ≡ ok (received m)
unfolding from_value dictify get text_eq need only_keys one_of as_nat as_bool as_text as_obj truthy
from_value-dictify (reply success error) (h, k) = rw (h, k)
from_value-dictify (register endpoint) h = rw h
from_value-dictify (fetch endpoint node_type) h = rw h
from_value-dictify (fetch_reply success error bundles) h = rw (bundles_from-dictify_all bundles h)
from_value-dictify (create bundle) h = rw (from_dict-dictify bundle h)

-- A message that passed its checks is read back from the bytes that `serialize` returned, except that an
-- endpoint in a registration or a fetch comes back as a plain text, if each bundle in it passed the checks
-- of `__post_init__`, has a type other than 0, endpoints that are instances of `EID` in their one
-- spelling, no submitter or one that is not `dtn:none`, and named data that is neither an empty text nor an
-- empty list.
pub deserialize-serialize :
    (codec : Codec) (m : Message) (b : Bytes)
    → IsLawful codec
    → IsMade m
    → serialize codec m ≡ ok b
    → deserialize codec b ≡ ok (received m)
unfolding serialize deserialize
deserialize-serialize codec m b law h e =
    rw (law.unpackb-packb (obj (dictify m)) b e) (from_value-dictify m h)

-- The registration of `dtn:none`, which `Register(…)` refuses, is accepted from a dictionary.
register_none_accepted :
    (new_register register_type (eid dtn_none) ≡ err none_endpoint)
    × (from_value (obj (dictify (register (eid dtn_none)))) ≡ ok (register (plain dtn_none)))
unfolding new_register truthy text_of text_eq
register_none_accepted =
    (refl, from_value-dictify (register (eid dtn_none)) (unfold text_of in refl))
