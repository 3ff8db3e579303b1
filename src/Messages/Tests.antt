-- ===== src/Messages/Tests.antt =====
-- A bundle and a message on their way through the codec (dtn/messages.py).
use ma_sinafadavi_gpt.Base.{
  ◌≡◌, refl, Bytes, codes, text_eq, strip_prefix, split, before, after, starts_with, ok,
}
use ma_sinafadavi_gpt.Eid.{eid, normalize, truthy, is_node, node_char, is_ascii}
use ma_sinafadavi_gpt.Wire.{obj}
use ma_sinafadavi_gpt.Wire.Plain.{encode, plain_codec, plain_codec-IsLawful}
use ma_sinafadavi_gpt.Bundles
use ma_sinafadavi_gpt.Bundles.{BundleData, bundle, from_dict, post_init}
use ma_sinafadavi_gpt.Bundles.BundleType
use ma_sinafadavi_gpt.Bundles.NodeType
use ma_sinafadavi_gpt.Bundles.RoundTrip.{IsSendable, from_dict-dictify}
use ma_sinafadavi_gpt.Messages
use ma_sinafadavi_gpt.Messages.{Message, create, serialize, deserialize}
use ma_sinafadavi_gpt.Messages.RoundTrip.{deserialize-serialize}

abbrev asking : BundleData
asking =
    record (bundle BundleType.broker_request (eid (codes "dtn://e/")) (eid (codes "dtn://b/"))) {
      node_type = NodeType.executor;
    }

sender_canonical : normalize (codes "dtn://e/") ≡ ok (codes "dtn://e/")
unfolding normalize is_node node_char is_ascii strip_prefix split before after starts_with text_eq
sender_canonical = refl

receiver_canonical : normalize (codes "dtn://b/") ≡ ok (codes "dtn://b/")
unfolding normalize is_node node_char is_ascii strip_prefix split before after starts_with text_eq
receiver_canonical = refl

asking-IsSendable : IsSendable asking
unfolding post_init truthy text_eq
asking-IsSendable = record {
  valid = refl;
  typed = λ e. absurd (cc);
  from = sender_canonical;
  to = receiver_canonical;
  submitted = tt;
  kept = tt;
}

from_dict-dictify_example : from_dict (Bundles.dictify asking) ≡ ok asking
from_dict-dictify_example = from_dict-dictify asking asking-IsSendable

abbrev asking_bytes : Bytes
asking_bytes = encode (obj (Messages.dictify (create asking)))

asking_written : serialize plain_codec (create asking) ≡ ok asking_bytes
unfolding serialize plain_codec
asking_written = refl

deserialize-serialize_example : deserialize plain_codec asking_bytes ≡ ok (create asking)
deserialize-serialize_example =
    deserialize-serialize plain_codec (create asking) asking_bytes plain_codec-IsLawful
      asking-IsSendable asking_written
