-- ===== src/Eid/Laws.antt =====
-- What `EID` promises to its users: one spelling, and accessors that undo the constructors
-- (dtn/eid.py).
use ma_sinafadavi_gpt.Base.{
  ℕ, suc, ◌≡◌, refl, ap, true, Option, none, some, [], ◌∷◌, ◌++◌, Text, text_eq, strip_prefix, drop,
  before-append, after-append, all, ok, arith,
}
use ma_sinafadavi_gpt.Eid.{
  slash, dot, newline, node_char, is_node, is_ascii, dtn_text, ipn_text, normalize, dtn, ipn,
  node_of, service_of,
}
use ma_sinafadavi_gpt.Eid.Number.{pos, decimal, IsShort}
use ma_sinafadavi_gpt.Eid.Canonical.{
  Form, nowhere, dtn_form, ipn_form, render, IsValid, is_node-Lacks, decimal-Lacks,
  normalize-render, normalize-Describes,
}

-- Normalising an endpoint that `_normalize` returned gives it back.
pub normalize_idem : (s t : Text) → normalize s ≡ ok t → normalize t ≡ ok t
normalize_idem s t h =
    let (f, valid, e) = normalize-Describes s h in rw e (normalize-render f valid)

node_of-dtn_text :
    (node service : Text) → is_node node ≡ true → node_of (dtn_text node service) ≡ some node
unfolding node_of text_eq strip_prefix
node_of-dtn_text node service h = ap some (before-append slash node service (is_node-Lacks node h))

service_of-dtn_text :
    (node service : Text)
    → is_node node ≡ true
    → service_of (dtn_text node service) ≡ ok (some service)
unfolding service_of text_eq strip_prefix
service_of-dtn_text node service h = rw (after-append slash node service (is_node-Lacks node h))

node_of-ipn_text : (n m : ℕ) → node_of (ipn_text n m) ≡ some (decimal n)
unfolding node_of text_eq strip_prefix drop
node_of-ipn_text n m = ap some (before-append dot (decimal n) (decimal m) (decimal-Lacks n))

service_of-ipn_text : (n m : ℕ) → service_of (ipn_text n m) ≡ ok (some (decimal m))
unfolding service_of text_eq strip_prefix drop
service_of-ipn_text n m = rw (after-append dot (decimal n) (decimal m) (decimal-Lacks n))

dtn_ok :
    (node service : Text)
    → is_node node ≡ true
    → is_ascii service ≡ true
    → dtn node (some service) ≡ ok (dtn_text node service)
unfolding dtn
dtn_ok node [] hn hs = rw (hn, normalize-render (dtn_form node []) (hn, hs))
dtn_ok node (c ∷ s) hn hs = rw (hn, hs, normalize-render (dtn_form node (c ∷ s)) (hn, hs))

-- For a node that matches the pattern and an ASCII service, `EID.dtn` returns an endpoint whose
-- `node()` and `service()` are these two.
pub dtn_accessors :
    (node service : Text)
    → is_node node ≡ true
    → is_ascii service ≡ true
    → (e : Text) × (dtn node (some service) ≡ ok e)
      × (node_of e ≡ some node)
      × (service_of e ≡ ok (some service))
dtn_accessors node service hn hs = (
  dtn_text node service,
  dtn_ok node service hn hs,
  node_of-dtn_text node service hn,
  service_of-dtn_text node service hn,
)

-- For a node number from 1 and any service number, both short enough for `int` to read back,
-- `EID.ipn` returns an endpoint whose `node()` and `service()` are these numbers in decimal.
pub ipn_accessors :
    (n m : ℕ)
    → IsShort (suc n)
    → IsShort m
    → (e : Text) × (ipn (pos (suc n)) (pos m) ≡ ok e)
      × (node_of e ≡ some (decimal (suc n)))
      × (service_of e ≡ ok (some (decimal m)))
unfolding ipn
ipn_accessors n m hn hm = (
  ipn_text (suc n) m,
  normalize-render (ipn_form (suc n) m) (omega arith, hn, hm),
  node_of-ipn_text (suc n) m,
  service_of-ipn_text (suc n) m,
)

service_of-render : (f : Form) → IsValid f → (s : Option Text) × (service_of (render f) ≡ ok s)
unfolding service_of text_eq
service_of-render nowhere h = (none, refl)
service_of-render (dtn_form node service) (hn, _) =
    (some service, service_of-dtn_text node service hn)
service_of-render (ipn_form n m) h = (some (decimal m), service_of-ipn_text n m)

-- On an endpoint that `EID(...)` returned, `service()` never fails with an index error.
pub service_of-normalize :
    (s e : Text) → normalize s ≡ ok e → (r : Option Text) × (service_of e ≡ ok r)
service_of-normalize s e h =
    let (f, valid, same) = normalize-Describes s h in rw same (service_of-render f valid)

is_node-newline : (node : Text) → all node_char node ≡ true → is_node (node ++ newline ∷ []) ≡ true
unfolding is_node all node_char
is_node-newline [] h = refl
is_node-newline (c ∷ []) h = ground arith
is_node-newline (c ∷ d ∷ s) h = ground (arith, is_node-newline (d ∷ s))

-- A node of allowed characters with a line feed behind it is accepted, and kept as the node: the
-- `$` of the pattern also matches before a last line feed.
pub node_newline_accepted :
    (node : Text)
    → all node_char node ≡ true
    → normalize (dtn_text (node ++ newline ∷ []) []) ≡ ok (dtn_text (node ++ newline ∷ []) [])
node_newline_accepted node h =
    normalize-render (dtn_form (node ++ newline ∷ []) [])
      (is_node-newline node h, unfold is_ascii all in refl)
