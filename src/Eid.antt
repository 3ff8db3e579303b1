-- ===== src/Eid.antt =====
-- Endpoint identifiers (dtn/eid.py): the class `EID`, its constructors, its accessors and
-- `_normalize`. The proofs are in the modules below this one.
pub mod Number
pub mod Canonical
pub mod Laws
mod Tests
use ma_sinafadavi_gpt.Base.{
  ℕ, zero, suc, ◌≡◌, Bool, true, false, not, ◌&&◌, ◌||◌, Option, none, some, List, [], ◌∷◌, ◌++◌,
  Text, codes, text_eq, strip_prefix, is_empty, drop, before, after, split, all, Result, ok, err,
  Error, ◌>>=◌, ◌>>◌, guard, ltb, leb, ◌==◌, if◌then◌else◌,
}
use ma_sinafadavi_gpt.Base.Exceptions.{
  invalid_node, invalid_service, none_host, missing_node, ipn_slashes, ipn_parts, ipn_numbers,
  ipn_node, ipn_service, unknown_scheme, index_error,
}
use ma_sinafadavi_gpt.Eid.Number.{ℤ, pos, negsuc, decimal, parse_int}

abbrev pub dtn_none : Text
dtn_none = codes "dtn:none"

abbrev pub dtn_prefix : Text
dtn_prefix = codes "dtn://"

abbrev pub ipn_prefix : Text
ipn_prefix = codes "ipn:"

abbrev pub slash : ℕ
slash = b'/'

abbrev pub dot : ℕ
dot = b'.'

-- The class of characters of `_NODE_RE`.
unfoldable pub node_char : ℕ → Bool
node_char c =
    (leb b'A' c && leb c b'Z')
    || (leb b'a' c && leb c b'z')
    || (leb b'-' c && leb c b'9' && not (c == slash))
    || c == b'_'
    || c == b'~'
    || c == b'!'
    || c == b'$'
    || (leb b'&' c && leb c b',')
    || c == b';'
    || c == b'='

abbrev pub newline : ℕ
newline = 10

-- `_NODE_RE.match(node)`: in both alternatives `$` also matches before a last newline.
unfoldable pub is_node : Text → Bool
is_node [] = true
is_node (c ∷ []) = node_char c || c == newline
is_node (c ∷ d ∷ s) = node_char c && is_node (d ∷ s)

-- `service.isascii()`
unfoldable pub is_ascii : Text → Bool
is_ascii = all (λ c. ltb c 128)

-- The text of a DTN endpoint with a service, maybe empty.
abbrev pub dtn_text : Text → Text → Text
dtn_text node service = dtn_prefix ++ (node ++ slash ∷ service)

abbrev pub ipn_text : ℕ → ℕ → Text
ipn_text node service = ipn_prefix ++ (decimal node ++ dot ∷ decimal service)

-- What `_normalize` does behind `dtn://`, once the node and the service are apart.
check_dtn : Text → Text → Result Text
check_dtn node [] = do guard (is_node node) invalid_node; ok (dtn_text node [])
check_dtn node (c ∷ s) = do
  guard (is_node node) invalid_node
  guard (is_ascii (c ∷ s)) invalid_service
  ok (dtn_text node (c ∷ s))

or_empty : Option Text → Text
or_empty none = []
or_empty (some s) = s

normalize_dtn : Text → Result Text
unfolding check_dtn or_empty
normalize_dtn ssp = do
  guard (not (text_eq ssp (codes "none"))) none_host
  guard (not (is_empty ssp)) missing_node
  check_dtn (before slash ssp) (or_empty (after slash ssp))

-- `node_i < 1` and `svc_i < 0`
check_ipn : Option ℤ → Option ℤ → Result Text
check_ipn (some (pos zero)) (some service) = err ipn_node
check_ipn (some (negsuc n)) (some service) = err ipn_node
check_ipn (some (pos (suc n))) (some (negsuc m)) = err ipn_service
check_ipn (some (pos (suc n))) (some (pos m)) = ok (ipn_text (suc n) m)
check_ipn (some node) none = err ipn_numbers
check_ipn none service = err ipn_numbers

ipn_of_parts : List Text → Result Text
unfolding check_ipn
ipn_of_parts (node ∷ service ∷ []) = check_ipn (parse_int node) (parse_int service)
ipn_of_parts parts = err ipn_parts

unless_slashes : Option Text → Text → Result Text
unless_slashes (some _) rest = err ipn_slashes
unless_slashes none rest = ipn_of_parts (split dot rest)

normalize_ipn : Text → Result Text
unfolding unless_slashes ipn_of_parts
normalize_ipn rest = unless_slashes (strip_prefix (codes "//") rest) rest

-- What stands behind `dtn://` and behind `ipn:`, if the text begins so.
normalize_scheme : Option Text → Option Text → Result Text
normalize_scheme (some ssp) rest = normalize_dtn ssp
normalize_scheme none (some rest) = normalize_ipn rest
normalize_scheme none none = err unknown_scheme

-- `EID._normalize`, which is also the constructor `EID(value)`.
unfoldable pub normalize : Text → Result Text
unfolding normalize_scheme normalize_dtn normalize_ipn
normalize eid =
    if text_eq eid dtn_none
    then ok eid
    else normalize_scheme (strip_prefix dtn_prefix eid) (strip_prefix ipn_prefix eid)

drop_empty : Option Text → Option Text
drop_empty none = none
drop_empty (some s) = if is_empty s then none else some s

dtn_service : Text → Option Text → Result Text
dtn_service node none = normalize (dtn_text node [])
dtn_service node (some service) = do
  guard (is_ascii service) invalid_service
  normalize (dtn_text node service)

-- `EID.dtn`
unfoldable pub dtn : Text → Option Text → Result Text
unfolding drop_empty dtn_service
dtn node service = do guard (is_node node) invalid_node; dtn_service node (drop_empty service)

-- `EID.ipn`, for numbers that `str` prints.
unfoldable pub ipn : ℤ → ℤ → Result Text
ipn (pos zero) service = err ipn_node
ipn (negsuc n) service = err ipn_node
ipn (pos (suc n)) (negsuc m) = err ipn_service
ipn (pos (suc n)) (pos m) = normalize (ipn_text (suc n) m)

-- `EID.node`: a slice behind the prefix, up to the separator.
unfoldable pub node_of : Text → Option Text
node_of eid = if text_eq eid dtn_none then none else elim (strip_prefix dtn_prefix eid) [
  | some ssp ↦ some (before slash ssp)
  | none ↦ some (before dot (drop 4 eid))
]

second : Option Text → Result (Option Text)
second none = err index_error
second (some s) = ok (some s)

-- `EID.service`, whose index fails where the separator is missing.
unfoldable pub service_of : Text → Result (Option Text)
unfolding second
service_of eid = if text_eq eid dtn_none then ok none else elim (strip_prefix dtn_prefix eid) [
  | some ssp ↦ second (after slash ssp)
  | none ↦ second (after dot (drop 4 eid))
]

-- A `str` that stands where an endpoint is expected: an instance of `EID`, or a plain text.
-- Both compare by their texts; only the truth value tells them apart.
pub data Endpoint : Type 0 where
  eid plain : Text → Endpoint

unfoldable pub text_of : Endpoint → Text
text_of (eid s) = s
text_of (plain s) = s

-- `bool(endpoint)`: `EID.__bool__`, or that of `str`.
unfoldable pub truthy : Endpoint → Bool
truthy (eid s) = not (text_eq s dtn_none)
truthy (plain s) = not (is_empty s)

-- `a == b`
unfoldable pub same : Endpoint → Endpoint → Bool
unfolding text_of
same a b = text_eq (text_of a) (text_of b)

abbrev pub broadcast_address : Endpoint
broadcast_address = eid (dtn_text (codes "rec.all") (codes "~"))

abbrev pub datastore_address : Endpoint
datastore_address = eid (dtn_text (codes "rec.store") (codes "~"))
