-- ===== src/Rest/Names.antt =====
-- The names under which REST nodes announce themselves (rest/nodes/node.py).
use ma_sinafadavi_gpt.Base.{
  ℕ, ◌+◌, ◌-◌, ◌^◌, ◌<◌, ◌≡◌, ◌∙◌, refl, ap, sym, Option, some, ◌∷◌, ◌++◌, append_assoc, Text,
  codes, length, length-append, take, take-length-append, drop, drop-length-append, arith,
}
use ma_sinafadavi_gpt.Jobs.Uuid.{uuid_text, uuid_of}
use ma_sinafadavi_gpt.Jobs.Uuid.RoundTrip.{uuid_of-uuid_text, length-uuid_text}

abbrev pub domain : Text
domain = codes "._urban-cp._tcp.local."

-- `zeroconf_service_type`
unfoldable pub zeroconf_service_type : Text → Text
zeroconf_service_type service_type = b'_' ∷ (service_type ++ domain)

-- `zeroconf_service_name`
unfoldable pub zeroconf_service_name : Text → ℕ → Text
zeroconf_service_name service_type node_id = b'_' ∷ (service_type ++ (uuid_text node_id ++ domain))

-- `s[-a:-b]`
unfoldable pub slice_back : ℕ → ℕ → Text → Text
slice_back a b s = drop (length s - a) (take (length s - b) s)

-- `id_from_name`; `none` is the `ValueError` of `UUID`
unfoldable pub id_from_name : Text → Option ℕ
id_from_name name = uuid_of (slice_back 58 22 name)

-- The slice between a prefix and a suffix of known lengths.
slice_back-append :
    (a b : ℕ) (p m s : Text) → length s ≡ b → length m + b ≡ a → slice_back a b (p ++ (m ++ s)) ≡ m
unfolding slice_back
slice_back-append a b p m s hs hm =
    let name : Text = p ++ (m ++ s) in
    let end_at : length (p ++ (m ++ s)) - b ≡ length (p ++ m) =
      omega (arith, length-append p (m ++ s), length-append m s, length-append p m) in
    let start_at : length (p ++ (m ++ s)) - a ≡ length p =
      omega (arith, length-append p (m ++ s), length-append m s) in
    ap (drop (length name - a)) (
      ap (λ k. take k name) end_at
      ∙ (ap (take (length (p ++ m))) (sym (append_assoc p m s)) ∙ take-length-append (p ++ m) s))
    ∙ (ap (λ k. drop k (p ++ m)) start_at ∙ drop-length-append p m)

-- The identifier of a node is read back from the name under which the node announces itself, whatever
-- the type of the service.
pub id_from_name-zeroconf_service_name :
    (service_type : Text) (node_id : ℕ)
    → node_id < 16 ^ 32
    → id_from_name (zeroconf_service_name service_type node_id) ≡ some node_id
unfolding id_from_name zeroconf_service_name
id_from_name-zeroconf_service_name service_type node_id h =
    ap uuid_of (
      slice_back-append 58 22 (b'_' ∷ service_type) (uuid_text node_id) domain refl
        (omega (arith, length-uuid_text node_id)))
    ∙ uuid_of-uuid_text node_id h
