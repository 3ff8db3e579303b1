-- ===== src/Eid/Number.antt =====
-- `int(text, 10)` and `str(number)`, as `EID` calls them (dtn/eid.py). The tables of decimal digits
-- and of white space beyond ASCII are those of Unicode 15, which Python 3.12 and 3.13 have.
mod Digits
pub use Digits.{max_digits, IsDigit, IsShort, decimal-IsDigit}
use Digits.{scan-decimal, IsShort-of_scan}
unfoldable pub use Digits.{decimal, scan}
pub use ma_sinafadavi_gpt.Base.{ℤ, pos, negsuc}
use ma_sinafadavi_gpt.Base.{
  ℕ, zero, suc, ◌+◌, ◌-◌, ◌<◌, ◌≡◌, refl, inl, inr, Bool, Bool-cases, true, false, not, ◌&&◌, ◌||◌,
  Option, none, some, List, [], ◌∷◌, ◌++◌, Text, All, arith, ltb, leb, ◌==◌, if◌then◌else◌,
}

-- The zeros of the runs of ten decimal digits beyond ASCII.
abbrev decimal_zeros : List ℕ
decimal_zeros =
    0x660 ∷ 0x6f0 ∷ 0x7c0 ∷ 0x966 ∷ 0x9e6 ∷ 0xa66 ∷ 0xae6 ∷ 0xb66 ∷ 0xbe6 ∷ 0xc66 ∷ 0xce6 ∷ 0xd66
    ∷ 0xde6 ∷ 0xe50 ∷ 0xed0 ∷ 0xf20 ∷ 0x1040 ∷ 0x1090 ∷ 0x17e0 ∷ 0x1810 ∷ 0x1946 ∷ 0x19d0 ∷ 0x1a80
    ∷ 0x1a90 ∷ 0x1b50 ∷ 0x1bb0 ∷ 0x1c40 ∷ 0x1c50 ∷ 0xa620 ∷ 0xa8d0 ∷ 0xa900 ∷ 0xa9d0 ∷ 0xa9f0
    ∷ 0xaa50 ∷ 0xabf0 ∷ 0xff10 ∷ 0x104a0 ∷ 0x10d30 ∷ 0x11066 ∷ 0x110f0 ∷ 0x11136 ∷ 0x111d0 ∷ 0x112f0
    ∷ 0x11450 ∷ 0x114d0 ∷ 0x11650 ∷ 0x116c0 ∷ 0x11730 ∷ 0x118e0 ∷ 0x11950 ∷ 0x11c50 ∷ 0x11d50
    ∷ 0x11da0 ∷ 0x11f50 ∷ 0x16a60 ∷ 0x16ac0 ∷ 0x16b50 ∷ 0x1d7ce ∷ 0x1d7d8 ∷ 0x1d7e2 ∷ 0x1d7ec
    ∷ 0x1d7f6 ∷ 0x1e140 ∷ 0x1e2f0 ∷ 0x1e4f0 ∷ 0x1e950 ∷ 0x1fbf0 ∷ []

-- The white space beyond ASCII.
abbrev wide_spaces : List ℕ
wide_spaces =
    0x85 ∷ 0xa0 ∷ 0x1680 ∷ 0x2000 ∷ 0x2001 ∷ 0x2002 ∷ 0x2003 ∷ 0x2004 ∷ 0x2005 ∷ 0x2006 ∷ 0x2007
    ∷ 0x2008 ∷ 0x2009 ∷ 0x200a ∷ 0x2028 ∷ 0x2029 ∷ 0x202f ∷ 0x205f ∷ 0x3000 ∷ []

one_of : List ℕ → ℕ → Bool
one_of [] c = false
one_of (d ∷ ds) c = c == d || one_of ds c

-- The ASCII digit of a decimal digit, `?` for what is none.
plain_digit : List ℕ → ℕ → ℕ
plain_digit [] c = b'?'
plain_digit (z ∷ zs) c =
    let rest = plain_digit zs c in if leb z c && ltb c (z + 10) then b'0' + (c - z) else rest

-- What `int` reads for a character.
plain : ℕ → ℕ
unfolding one_of plain_digit
plain c =
    if ltb c 128 then c else if one_of wide_spaces c then b' ' else plain_digit decimal_zeros c

is_space : ℕ → Bool
is_space c = c == b' ' || (leb 9 c && leb c 13)

plain_text : Text → Text
unfolding plain
plain_text [] = []
plain_text (c ∷ s) = plain c ∷ plain_text s

-- `s.lstrip()`, on what `plain_text` returns
skip_spaces : Text → Text
unfolding is_space
skip_spaces [] = []
skip_spaces (c ∷ s) = let rest = skip_spaces s in if is_space c then rest else c ∷ s

-- `s.rstrip()`
drop_spaces : Text → Text
unfolding is_space
drop_spaces [] = []
drop_spaces (c ∷ s) = elim (drop_spaces s) [
  | [] ↦ if is_space c then [] else c ∷ []
  | d ∷ r ↦ c ∷ d ∷ r
]

signed : Bool → ℕ → ℤ
signed true (suc n) = negsuc n
signed true zero = pos zero
signed false n = pos n

with_sign : Bool → Option ℕ → Option ℤ
unfolding signed
with_sign minus none = none
with_sign minus (some n) = some (signed minus n)

parse_signed : Text → Option ℤ
unfolding with_sign
parse_signed [] = none
parse_signed (c ∷ s) =
    if c == b'-'
    then with_sign true (scan s true 0 0)
    else if c == b'+'
    then with_sign false (scan s true 0 0)
    else with_sign false (scan (c ∷ s) true 0 0)

-- What `int` reads of a text: in ASCII, and without the white space around it.
unfoldable pub clean : Text → Text
unfolding plain_text skip_spaces drop_spaces
clean s = drop_spaces (skip_spaces (plain_text s))

-- `int(text, 10)`; `none` is its `ValueError`
unfoldable pub parse_int : Text → Option ℤ
unfolding clean parse_signed
parse_int s = parse_signed (clean s)

-- A character of ASCII that is neither white space nor a control.
abbrev pub IsGraphic : ℕ → Type 0
IsGraphic c = (b' ' < c) × (c < 128)

plain_text-graphic : (s : Text) → All IsGraphic s → plain_text s ≡ s
unfolding plain_text
plain_text-graphic [] h = refl
plain_text-graphic (c ∷ s) (hc, hs) = ground (arith, plain_text-graphic s hs)

drop_spaces-graphic : (s : Text) → All IsGraphic s → drop_spaces s ≡ s
unfolding drop_spaces
drop_spaces-graphic [] h = refl
drop_spaces-graphic (c ∷ []) h = ground arith
drop_spaces-graphic (c ∷ d ∷ s) (hc, hs) = rw (drop_spaces-graphic (d ∷ s) hs)

skip_spaces-graphic : (s : Text) → All IsGraphic s → skip_spaces s ≡ s
unfolding skip_spaces
skip_spaces-graphic [] h = refl
skip_spaces-graphic (c ∷ s) h = ground arith

-- `int` reads graphic characters as they are.
pub clean-graphic : (s : Text) → All IsGraphic s → clean s ≡ s
unfolding clean
clean-graphic s h = rw (plain_text-graphic s h, skip_spaces-graphic s h) (drop_spaces-graphic s h)

digits-IsGraphic : (s : Text) → All IsDigit s → All IsGraphic s
digits-IsGraphic [] h = tt
digits-IsGraphic (c ∷ s) (hc, hs) = (omega arith, digits-IsGraphic s hs)

parse_signed-digits :
    (s : Text) (n : ℕ) → All IsDigit s → scan s true 0 0 ≡ some n → parse_signed s ≡ some (pos n)
unfolding parse_signed scan
parse_signed-digits [] n h e = cc
parse_signed-digits (c ∷ s) n (hc, hs) e = ground arith

-- Reading a printed number gives it back.
pub parse_int-decimal : (n : ℕ) → IsShort n → parse_int (decimal n) ≡ some (pos n)
parse_int-decimal n h =
    let d = decimal-IsDigit n in
    unfold parse_int in
    rw (clean-graphic (decimal n) (digits-IsGraphic (decimal n) d))
      (parse_signed-digits (decimal n) n d (scan-decimal n h))

with_sign-pos :
    (minus : Bool) (o : Option ℕ) (n : ℕ) → with_sign minus o ≡ some (pos n) → o ≡ some n
unfolding with_sign
with_sign-pos true none n h = cc
with_sign-pos true (some zero) n h = cc
with_sign-pos true (some (suc m)) n h = cc
with_sign-pos false none n h = cc
with_sign-pos false (some m) n h = cc

parse_signed-cases :
    (c : ℕ) (s : Text) {z : ℤ}
    → parse_signed (c ∷ s) ≡ some z
    → (minus : Bool) × (t : Text) × (with_sign minus (scan t true 0 0) ≡ some z)
unfolding parse_signed
parse_signed-cases c s h = elim (Bool-cases (c == b'-')) [
  | inl e ↦ (true, s, rw e at h)
  | inr e ↦ elim (Bool-cases (c == b'+')) [
    | inl f ↦ (false, s, rw (e, f) at h)
    | inr f ↦ (false, c ∷ s, rw (e, f) at h)
  ]
]

parse_signed-IsShort : (s : Text) (n : ℕ) → parse_signed s ≡ some (pos n) → IsShort n
unfolding parse_signed
parse_signed-IsShort [] n h = cc
parse_signed-IsShort (c ∷ s) n h =
    let (minus, t, e) = parse_signed-cases c s h in
    IsShort-of_scan t (with_sign-pos minus (scan t true 0 0) n e)

-- A number that is not negative and was read can be printed and read again.
pub parse_int-IsShort : (s : Text) (n : ℕ) → parse_int s ≡ some (pos n) → IsShort n
unfolding parse_int
parse_int-IsShort s n h = parse_signed-IsShort (drop_spaces (skip_spaces (plain_text s))) n h
