-- ===== src/Bundles/RoundTrip.antt =====
-- `BundleData.from_dict` undoes `BundleData.dictify` (dtn/messages.py).
use ma_sinafadavi_gpt.Base.{
  ℕ, zero, suc, Bytes, ◌≡◌, ◌≢◌, refl, Bool, true, false, not, Option, none, some, [], ◌∷◌, Text,
  codes, text_eq, is_empty, ok, arith, ◌==◌, if◌then◌else◌,
}
use ma_sinafadavi_gpt.Base.Exceptions.{key_error, type_error}
use ma_sinafadavi_gpt.Eid.{Endpoint, eid, plain, text_of, truthy, normalize}
use ma_sinafadavi_gpt.Wire.{
  bool, int, str, bin, get, only_keys, need, get-put_if, get-end, only_keys-put_if, one_of,
  as_texts-texts, as_nat, as_bool, as_text, as_bytes,
}
use ma_sinafadavi_gpt.Bundles.{
  Names, nameless, one, many, BundleData, post_init, dictify, from_dict, has_names, has_submitter,
  field_names, optional, as_eid, as_names, as_submitter, value_of_names, value_of_submitter,
}

-- An instance of `EID` in its one spelling.
abbrev pub IsCanonical : Endpoint → Type 0
IsCanonical (eid t) = normalize t ≡ ok t
IsCanonical (plain t) = ⊥

abbrev pub IsCanonicalOption : Option Endpoint → Type 0
IsCanonicalOption none = Unit
IsCanonicalOption (some e) = IsCanonical e × (truthy e ≡ true)

-- Data that `dictify` does not drop as false.
abbrev pub IsKept : Names → Type 0
IsKept nameless = Unit
IsKept names = has_names names ≡ true

pub record IsSendable (b : BundleData) : Type 0 where
  pub valid : post_init b ≡ ok tt
  pub typed : b.type ≢ 0
  pub from : IsCanonical b.source
  pub to : IsCanonical b.destination
  pub submitted : IsCanonicalOption b.submitter
  pub kept : IsKept b.named_data

ruleset dict_laws = (get-put_if, get-end)

-- A field that is left out at its default is read back as its default.
kept_nat : (n : ℕ) → optional as_nat 0 (if not (n == 0) then some (int n) else none) ≡ ok n
unfolding optional as_nat
kept_nat zero = refl
kept_nat (suc n) = ground arith

kept_bytes :
    (p : Bytes) → optional as_bytes [] (if not (is_empty p) then some (bin p) else none) ≡ ok p
unfolding optional as_bytes
kept_bytes [] = refl
kept_bytes (c ∷ p) = refl

kept_text :
    (t : Text) → optional as_text [] (if not (is_empty t) then some (str t) else none) ≡ ok t
unfolding optional as_text
kept_text [] = refl
kept_text (c ∷ t) = refl

kept_bool :
    (b : Bool)
    → optional as_bool true
        (if b then some (bool true) else (if not b then some (bool false) else none))
      ≡ ok b
unfolding optional as_bool
kept_bool true = refl
kept_bool false = refl

kept_names :
    (ns : Names)
    → IsKept ns
    → optional as_names nameless (if has_names ns then some (value_of_names ns) else none) ≡ ok ns
unfolding optional as_names has_names value_of_names as_text
kept_names nameless h = refl
kept_names (one []) h = cc
kept_names (one (c ∷ t)) h = refl
kept_names (many []) h = cc
kept_names (many (t ∷ ts)) h = rw (as_texts-texts (t ∷ ts))

as_eid_canonical : (e : Endpoint) → IsCanonical e → as_eid (str (text_of e)) ≡ ok e
unfolding as_eid text_of
as_eid_canonical (eid t) h = rw h
as_eid_canonical (plain t) h = absurd h

kept_submitter :
    (s : Option Endpoint)
    → IsCanonicalOption s
    → optional as_submitter none (if has_submitter s then some (value_of_submitter s) else none)
      ≡ ok s
unfolding optional as_submitter has_submitter value_of_submitter
kept_submitter none h = refl
kept_submitter (some e) (h, t) = rw (t, as_eid_canonical e h)

-- What `from_dict` reads from the dictionary of a bundle.
module _ (b : BundleData) where
  need_type : b.type ≢ 0 → need type_error (get (codes "type") (dictify b)) ≡ ok (int b.type)
  unfolding dictify text_eq need
  need_type h = simp dict_laws (ground arith)

  need_source :
      truthy b.source ≡ true
      → need key_error (get (codes "source") (dictify b)) ≡ ok (str (text_of b.source))
  unfolding dictify text_eq need
  need_source h = simp (dict_laws, h)

  need_destination :
      truthy b.destination ≡ true
      → need key_error (get (codes "destination") (dictify b)) ≡ ok (str (text_of b.destination))
  unfolding dictify text_eq need
  need_destination h = simp (dict_laws, h)

  read_payload : optional as_bytes [] (get (codes "payload") (dictify b)) ≡ ok b.payload
  unfolding dictify text_eq
  read_payload = simp dict_laws (kept_bytes b.payload)

  read_success : optional as_bool true (get (codes "success") (dictify b)) ≡ ok b.success
  unfolding dictify text_eq
  read_success = simp dict_laws (kept_bool b.success)

  read_error : optional as_text [] (get (codes "error") (dictify b)) ≡ ok b.error
  unfolding dictify text_eq
  read_error = simp dict_laws (kept_text b.error)

  read_node_type : optional as_nat 0 (get (codes "node_type") (dictify b)) ≡ ok b.node_type
  unfolding dictify text_eq
  read_node_type = simp dict_laws (kept_nat b.node_type)

  read_names :
      IsKept b.named_data
      → optional as_names nameless (get (codes "named_data") (dictify b)) ≡ ok b.named_data
  unfolding dictify text_eq
  read_names h = simp dict_laws (kept_names b.named_data h)

  read_submitter :
      IsCanonicalOption b.submitter
      → optional as_submitter none (get (codes "submitter") (dictify b)) ≡ ok b.submitter
  unfolding dictify text_eq
  read_submitter h = simp dict_laws (kept_submitter b.submitter h)

  dictify_keys : only_keys field_names (dictify b) ≡ true
  unfolding dictify text_eq one_of only_keys
  dictify_keys = simp only_keys-put_if

  -- A bundle that passed the checks has a sender and a receiver.
  truthy-source : post_init b ≡ ok tt → truthy b.source ≡ true
  unfolding post_init
  truthy-source h = ground arith

  truthy-destination : post_init b ≡ ok tt → truthy b.destination ≡ true
  unfolding post_init
  truthy-destination h = ground arith

-- A bundle that passed the checks of `__post_init__`, whose type is not 0, whose source, destination and
-- submitter, if it has one, are instances of `EID` in their one spelling, whose submitter is not
-- `dtn:none`, and whose named data is neither an empty text nor an empty list, is read back, equal in every
-- field, from the dictionary that `dictify` makes of it.
pub from_dict-dictify : (b : BundleData) → IsSendable b → from_dict (dictify b) ≡ ok b
unfolding from_dict as_nat
from_dict-dictify b h = rw (
  need_source b (truthy-source b h.valid),
  as_eid_canonical b.source h.from,
  need_destination b (truthy-destination b h.valid),
  as_eid_canonical b.destination h.to,
  read_submitter b h.submitted,
  dictify_keys b,
  need_type b h.typed,
  read_payload b,
  read_success b,
  read_error b,
  read_node_type b,
  read_names b h.kept,
  h.valid,
)
