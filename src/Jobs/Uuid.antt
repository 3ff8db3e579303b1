-- ===== src/Jobs/Uuid.antt =====
-- `str(uuid)` and `UUID(text)`, for the job identifiers of dtn/job.py: a UUID is its 128-bit number.
pub mod RoundTrip
use ma_sinafadavi_gpt.Base.{
  ℕ, zero, suc, Bool, true, false, not, ◌&&◌, ◌||◌, Option, none, some, List, ◌+◌, ◌-◌, ◌*◌, ◌/◌,
  ◌%◌, [], ◌∷◌, ◌++◌, Text, drop, take, select, length, is_empty, starts_with, codes, leb, ◌==◌,
  ltb, if◌then◌else◌,
}
use ma_sinafadavi_gpt.Eid.Number.{clean}

hex_digit : ℕ → ℕ
hex_digit d = if ltb d 10 then b'0' + d else b'a' + (d - 10)

-- `'%032x' % n`, with `k` digits
unfoldable pub hex : ℕ → ℕ → Text
unfolding hex_digit
hex zero n = []
hex (suc k) n = hex k (n / 16) ++ hex_digit (n % 16) ∷ []

-- Groups of 8, 4, 4, 4 and 12 digits.
unfoldable pub dashed : Text → Text
dashed h =
    take 8 h
    ++ b'-'
      ∷ (take 4 (drop 8 h)
          ++ b'-' ∷ (take 4 (drop 12 h) ++ b'-' ∷ (take 4 (drop 16 h) ++ b'-' ∷ drop 20 h)))

unfoldable pub uuid_text : ℕ → Text
unfolding hex dashed
uuid_text n = dashed (hex 32 n)

-- `s.replace(p, '')`: `k` characters of the text belong to an occurrence that is being dropped.
unfoldable pub remove_from : Text → ℕ → Text → Text
remove_from p k [] = []
remove_from p (suc k) (c ∷ s) = remove_from p k s
remove_from p zero (c ∷ s) =
    let hit = starts_with (c ∷ s) p in
    let rest = remove_from p (if hit then length p - 1 else 0) s in if hit then rest else c ∷ rest

unfoldable pub is_brace : ℕ → Bool
is_brace c = c == b'{' || c == b'}'

skip_braces : Text → Text
unfolding is_brace
skip_braces [] = []
skip_braces (c ∷ s) = let rest = skip_braces s in if is_brace c then rest else c ∷ s

drop_braces : Text → Text
unfolding is_brace
drop_braces [] = []
drop_braces (c ∷ s) = elim (drop_braces s) [
  | [] ↦ if is_brace c then [] else c ∷ []
  | d ∷ r ↦ c ∷ d ∷ r
]

-- `s.strip('{}')`
unfoldable pub strip_braces : Text → Text
unfolding skip_braces drop_braces
strip_braces s = drop_braces (skip_braces s)

-- `s.replace('-', '')`
unfoldable pub without_dashes : Text → Text
without_dashes s = select (λ c. not (c == b'-')) s

-- The value of a hexadecimal digit.
unfoldable pub hex_value : ℕ → Option ℕ
hex_value c =
    if leb b'0' c && leb c b'9'
    then some (c - b'0')
    else if leb b'a' c && leb c b'f'
    then some (c - b'a' + 10)
    else if leb b'A' c && leb c b'F'
    then some (c - b'A' + 10)
    else none

-- What a digit, an underscore where one may stand, or another character does.
scan_step : Option ℕ → Bool → ℕ → (Bool → ℕ → Option ℕ) → Option ℕ
scan_step (some d) underscore n rest = rest false (n * 16 + d)
scan_step none true n rest = rest true n
scan_step none false n rest = none

-- The digits of `int(text, 16)`: `gap` says that no digit stands directly before, `n` is the number
-- so far.
unfoldable pub scan_hex : Text → Bool → ℕ → Option ℕ
unfolding scan_step
scan_hex [] gap n = if gap then none else some n
scan_hex (c ∷ s) gap n = scan_step (hex_value c) (c == b'_' && not gap) n (scan_hex s)

-- `0x` or `0X` in front of the digits, and an underscore behind it.
skip_underscore : Text → Text
skip_underscore [] = []
skip_underscore (c ∷ s) = if c == b'_' then s else c ∷ s

skip_prefix : Text → Text
unfolding skip_underscore
skip_prefix (z ∷ x ∷ s) =
    let rest = skip_underscore s in
    if (z == b'0') && (x == b'x' || x == b'X') then rest else z ∷ x ∷ s
skip_prefix s = s

skip_plus : Text → Text
skip_plus [] = []
skip_plus (c ∷ s) = if c == b'+' then s else c ∷ s

-- `int(text, 16)` of a text without a minus sign; `none` is its `ValueError`
unfoldable pub parse_hex : Text → Option ℕ
unfolding skip_prefix skip_plus
parse_hex s = scan_hex (skip_prefix (skip_plus (clean s))) true 0

-- The characters of a UUID that its constructor looks at.
unfoldable pub bare : Text → Text
bare s =
    without_dashes (strip_braces (remove_from (codes "uuid:") 0 (remove_from (codes "urn:") 0 s)))

-- `UUID(text)`; `none` is its `ValueError`
unfoldable pub uuid_of : Text → Option ℕ
unfolding bare
uuid_of s = let h = bare s in if length h == 32 then parse_hex h else none
