-- ===== src/Eid/Tests.antt =====
-- Runs of the code of dtn/eid.py, and the theorems on it at concrete endpoints.
use ma_sinafadavi_gpt.Base.{
  ◌≡◌, refl, true, [], ◌∷◌, ◌++◌, codes, text_eq, strip_prefix, before, after, split, all, length,
  ◌≤◌, ok, err, arith,
}
use ma_sinafadavi_gpt.Base.Exceptions.{none_host, ipn_node, ipn_numbers, ipn_parts, unknown_scheme}
use ma_sinafadavi_gpt.Eid.{newline, is_node, is_ascii, node_char, dtn_text, normalize}
use ma_sinafadavi_gpt.Eid.Number.{parse_int, decimal, scan}
use ma_sinafadavi_gpt.Eid.Laws.{normalize_idem, node_newline_accepted}

spelling : normalize (codes "ipn: 0_7 .+5") ≡ ok (codes "ipn:7.5")
unfolding normalize parse_int decimal scan text_eq strip_prefix split
spelling = refl

refusals :
    (normalize (codes "dtn://none") ≡ err none_host)
    × (normalize (codes "ipn:0.1") ≡ err ipn_node)
    × (normalize (codes "ipn:1.") ≡ err ipn_numbers)
    × (normalize (codes "ipn:1.2.3") ≡ err ipn_parts)
    × (normalize (codes "http://a") ≡ err unknown_scheme)
unfolding normalize parse_int decimal scan text_eq strip_prefix split before after
refusals = (refl, refl, refl, refl, refl)

normalize_idem_example : normalize (codes "ipn:7.5") ≡ ok (codes "ipn:7.5")
normalize_idem_example = normalize_idem (codes "ipn: 0_7 .+5") (codes "ipn:7.5") spelling

a_node : is_node (codes "rec.store") ≡ true
unfolding is_node node_char
a_node = refl

a_service : is_ascii (codes "~") ≡ true
unfolding is_ascii all
a_service = refl

short_numbers : (length (decimal 12) ≤ 4300) × (length (decimal 0) ≤ 4300)
unfolding decimal
short_numbers = (omega arith, omega arith)

plain_node : all node_char (codes "a") ≡ true
unfolding all node_char
plain_node = refl

node_newline_accepted_example :
    normalize (dtn_text (codes "a" ++ newline ∷ []) [])
    ≡ ok (dtn_text (codes "a" ++ newline ∷ []) [])
node_newline_accepted_example = node_newline_accepted (codes "a") plain_node
