-- ===== src/Eid/Canonical.antt =====
-- What `EID` accepts, by an independent description: an endpoint is `dtn:none`, a DTN node with a
-- service, or two IPN numbers, and `EID._normalize` (dtn/eid.py) writes it in its one spelling.
use ma_sinafadavi_gpt.Base.{
  ℕ, zero, suc, ◌<◌, ◌≡◌, ◌∙◌, refl, inl, inr, ap, Bool-cases, true, false, Option, none, some,
  List, [], ◌∷◌, ◌++◌, Text, codes, text_eq, text_eq_iff, strip_prefix, is_empty, before, after,
  split, all, Lacks, before-append, after-append, split-append, split-Lacks, All, ok, arith,
}
use ma_sinafadavi_gpt.Eid.Number.{
  ℤ, pos, negsuc, decimal, parse_int, IsDigit, IsShort, decimal-IsDigit, parse_int-decimal,
  parse_int-IsShort,
}
use ma_sinafadavi_gpt.Eid.{
  dtn_none, dtn_prefix, ipn_prefix, slash, dot, node_char, is_node, is_ascii, dtn_text, ipn_text,
  check_dtn, or_empty, normalize_dtn, check_ipn, ipn_of_parts, normalize_ipn, normalize_scheme,
  normalize,
}

pub data Form : Type 0 where
  nowhere : Form
  dtn_form : Text → Text → Form
  ipn_form : ℕ → ℕ → Form

abbrev pub render : Form → Text
render nowhere = dtn_none
render (dtn_form node service) = dtn_text node service
render (ipn_form node service) = ipn_text node service

-- The node matches the pattern and the service is ASCII; IPN nodes count from 1, and `int` reads
-- both numbers.
abbrev pub IsValid : Form → Type 0
IsValid nowhere = Unit
IsValid (dtn_form node service) = (is_node node ≡ true) × (is_ascii service ≡ true)
IsValid (ipn_form node service) = (0 < node) × IsShort node × IsShort service

pub is_node-Lacks : (s : Text) → is_node s ≡ true → Lacks slash s
unfolding is_node node_char
is_node-Lacks [] h = tt
is_node-Lacks (c ∷ []) h = ground arith
is_node-Lacks (c ∷ d ∷ s) h = ground (arith, is_node-Lacks (d ∷ s))

digits-Lacks : (s : Text) → All IsDigit s → Lacks dot s
digits-Lacks [] h = tt
digits-Lacks (c ∷ s) (hc, hs) = (ground arith, digits-Lacks s hs)

pub decimal-Lacks : (n : ℕ) → Lacks dot (decimal n)
decimal-Lacks n = digits-Lacks (decimal n) (decimal-IsDigit n)

-- A text with a slash is not `none`.
slashed-ne-none : (s t : Text) → Lacks slash s → text_eq (s ++ slash ∷ t) (codes "none") ≡ false
unfolding after
slashed-ne-none s t h = elim (Bool-cases (text_eq (s ++ slash ∷ t) (codes "none"))) [
  | inl e ↦ absurd (
      ground
        (arith, after-append slash s t h, ap (after slash) ((text_eq_iff _ (codes "none")).0 e)))
  | inr e ↦ e
]

slashed-ne-empty : (s t : Text) → is_empty (s ++ slash ∷ t) ≡ false
slashed-ne-empty [] t = refl
slashed-ne-empty (c ∷ s) t = refl

check_dtn_ok :
    (node service : Text)
    → is_node node ≡ true
    → is_ascii service ≡ true
    → check_dtn node service ≡ ok (dtn_text node service)
unfolding check_dtn
check_dtn_ok node [] hn hs = rw hn
check_dtn_ok node (c ∷ s) hn hs = rw (hn, hs)

normalize_dtn-slashed :
    (node service : Text)
    → Lacks slash node
    → normalize_dtn (node ++ slash ∷ service) ≡ check_dtn node service
unfolding normalize_dtn or_empty
normalize_dtn-slashed node service h = rw (
  slashed-ne-none node service h,
  slashed-ne-empty node service,
  before-append slash node service h,
  after-append slash node service h,
)

normalize-dtn_prefix : (s : Text) → normalize (dtn_prefix ++ s) ≡ normalize_dtn s
unfolding normalize text_eq strip_prefix
normalize-dtn_prefix s = refl

normalize-dtn_form :
    (node service : Text)
    → is_node node ≡ true
    → is_ascii service ≡ true
    → normalize (dtn_text node service) ≡ ok (dtn_text node service)
normalize-dtn_form node service hn hs =
    normalize-dtn_prefix (node ++ slash ∷ service)
    ∙ normalize_dtn-slashed node service (is_node-Lacks node hn)
    ∙ check_dtn_ok node service hn hs

normalize-ipn_prefix : (s : Text) → normalize (ipn_prefix ++ s) ≡ normalize_ipn s
unfolding normalize text_eq strip_prefix
normalize-ipn_prefix s = refl

-- Printed numbers hold no slash.
unslashed : (s t : Text) → All IsDigit s → strip_prefix (codes "//") (s ++ dot ∷ t) ≡ none
unfolding strip_prefix
unslashed [] t h = refl
unslashed (c ∷ s) t (hc, hs) = ground arith

split-decimal : (n m : ℕ) → split dot (decimal n ++ dot ∷ decimal m) ≡ decimal n ∷ decimal m ∷ []
split-decimal n m =
    split-append dot (decimal n) (decimal m) (decimal-Lacks n)
    ∙ ap (◌∷◌ (decimal n)) (split-Lacks dot (decimal m) (decimal-Lacks m))

normalize-ipn_form :
    (n m : ℕ)
    → IsShort (suc n)
    → IsShort m
    → normalize (ipn_text (suc n) m) ≡ ok (ipn_text (suc n) m)
unfolding normalize_ipn ipn_of_parts check_ipn
normalize-ipn_form n m hn hm =
    normalize-ipn_prefix (decimal (suc n) ++ dot ∷ decimal m)
    ∙ rw (
      unslashed (decimal (suc n)) (decimal m) (decimal-IsDigit (suc n)),
      split-decimal (suc n) m,
      parse_int-decimal (suc n) hn,
      parse_int-decimal m hm,
    )

-- The spelling of a valid endpoint is a fixed point of `_normalize`.
pub normalize-render : (f : Form) → IsValid f → normalize (render f) ≡ ok (render f)
unfolding normalize text_eq
normalize-render nowhere h = refl
normalize-render (dtn_form node service) (hn, hs) = normalize-dtn_form node service hn hs
normalize-render (ipn_form zero m) (pos_n, hn, hm) = elim pos_n [ ]
normalize-render (ipn_form (suc n) m) (pos_n, hn, hm) = normalize-ipn_form n m hn hm

-- An endpoint's spelling and the description that it has.
abbrev pub Describes : Text → Type 0
Describes t = (f : Form) × IsValid f × (t ≡ render f)

check_dtn-Describes : (node service : Text) {t : Text} → check_dtn node service ≡ ok t → Describes t
unfolding check_dtn
check_dtn-Describes node [] h =
    (dtn_form node [], (ground arith, unfold is_ascii all in refl), ground arith)
check_dtn-Describes node (c ∷ s) h =
    (dtn_form node (c ∷ s), (ground arith, ground arith), ground arith)

normalize_dtn-Describes : (s : Text) {t : Text} → normalize_dtn s ≡ ok t → Describes t
unfolding normalize_dtn
normalize_dtn-Describes s h =
    check_dtn-Describes (before slash s) (or_empty (after slash s)) (ground arith)

-- A number that `int` returned can be printed and read again.
abbrev Readable : Option ℤ → Type 0
Readable x = (n : ℕ) → x ≡ some (pos n) → IsShort n

check_ipn-Describes :
    (x y : Option ℤ) {t : Text} → Readable x → Readable y → check_ipn x y ≡ ok t → Describes t
unfolding check_ipn
check_ipn-Describes (some (pos (suc n))) (some (pos m)) hx hy h =
    (ipn_form (suc n) m, (omega arith, hx (suc n) refl, hy m refl), ground arith)
check_ipn-Describes (some (pos zero)) (some y) hx hy h = cc
check_ipn-Describes (some (negsuc n)) (some y) hx hy h = cc
check_ipn-Describes (some (pos (suc n))) (some (negsuc m)) hx hy h = cc
check_ipn-Describes (some x) none hx hy h = cc
check_ipn-Describes none y hx hy h = cc

ipn_of_parts-Describes : (parts : List Text) {t : Text} → ipn_of_parts parts ≡ ok t → Describes t
unfolding ipn_of_parts
ipn_of_parts-Describes (a ∷ b ∷ []) h =
    check_ipn-Describes (parse_int a) (parse_int b) (parse_int-IsShort a) (parse_int-IsShort b) h
ipn_of_parts-Describes parts h = cc

normalize_ipn-Describes : (s : Text) {t : Text} → normalize_ipn s ≡ ok t → Describes t
unfolding normalize_ipn
normalize_ipn-Describes s h = ipn_of_parts-Describes (split dot s) (ground arith)

normalize_scheme-Describes :
    (a b : Option Text) {t : Text} → normalize_scheme a b ≡ ok t → Describes t
unfolding normalize_scheme
normalize_scheme-Describes (some s) b h = normalize_dtn-Describes s h
normalize_scheme-Describes none (some s) h = normalize_ipn-Describes s h
normalize_scheme-Describes none none h = cc

pub normalize-Describes : (s : Text) {t : Text} → normalize s ≡ ok t → Describes t
unfolding normalize
normalize-Describes s h = elim (Bool-cases (text_eq s dtn_none)) [
  | inl e ↦ (nowhere, tt, ground (arith, text_eq_iff s dtn_none))
  | inr e ↦
      normalize_scheme-Describes (strip_prefix dtn_prefix s) (strip_prefix ipn_prefix s) (rw e at h)
]
