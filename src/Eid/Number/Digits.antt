-- ===== src/Eid/Number/Digits.antt =====
-- Decimal digits: `str(number)`, and the loop over the digits in `int(text, 10)`.
use native.Mathlib.Nat.{pow-suc}
use native.Mathlib.Numerals.{towards_suc}
use ma_sinafadavi_gpt.Base.{
  ℕ, zero, suc, ◌+◌, ◌-◌, ◌*◌, ◌/◌, ◌%◌, ◌^◌, ◌≤◌, ◌<◌, ◌≡◌, ◌⊎◌, inl, inr, Bool, Bool-cases,
  append_assoc, append-nil, true, false, ◌&&◌, Option, none, some, [], ◌∷◌, ◌++◌, Text, All,
  All-append, length, length-append, arith, ltb, leb, ◌==◌, if◌then◌else◌,
}

-- `sys.int_info.default_max_str_digits`
abbrev pub max_digits : ℕ
max_digits = 4300

-- Rounds of `n //= 10`; as many rounds as `n` are enough.
decimal_loop : ℕ → ℕ → Text
decimal_loop zero n = []
decimal_loop (suc f) n =
    let more = decimal_loop f (n / 10) ++ (b'0' + n % 10) ∷ [] in
    if ltb n 10 then (b'0' + n) ∷ [] else more

-- `str(n)`
unfoldable pub decimal : ℕ → Text
unfolding decimal_loop
decimal n = decimal_loop (suc n) n

-- The digits of `int(text, 10)`: `gap` says that no digit stands directly before, `n` is the number
-- so far and `count` the digits so far.
unfoldable pub scan : Text → Bool → ℕ → ℕ → Option ℕ
scan [] true n count = none
scan [] false n count = if ltb max_digits count then none else some n
scan (c ∷ s) gap n count =
    let underscore = if gap then none else scan s true n count in
    let digit = scan s false (n * 10 + (c - b'0')) (count + 1) in
    if c == b'_' then underscore else if leb b'0' c && leb c b'9' then digit else none

abbrev pub IsDigit : ℕ → Type 0
IsDigit c = (b'0' ≤ c) × (c ≤ b'9')

-- Few enough digits for `int` to read them.
abbrev pub IsShort : ℕ → Type 0
IsShort n = length (decimal n) ≤ max_digits

decimal_loop-IsDigit : (f n : ℕ) → All IsDigit (decimal_loop f n)
unfolding decimal_loop
decimal_loop-IsDigit zero n = tt
decimal_loop-IsDigit (suc f) n = ground (
  arith,
  All-append IsDigit (decimal_loop f (n / 10)) ((b'0' + n % 10) ∷ [])
      (decimal_loop-IsDigit f (n / 10)),
)

pub decimal-IsDigit : (n : ℕ) → All IsDigit (decimal n)
decimal-IsDigit n = unfold decimal in decimal_loop-IsDigit (suc n) n

-- Reading back what was printed leaves the number and the count of its digits.
scan-decimal_loop :
    (f n : ℕ) (t : Text) (gap : Bool) (count : ℕ)
    → n < f
    → scan (decimal_loop f n ++ t) gap 0 count ≡ scan t false n (count + length (decimal_loop f n))
unfolding scan decimal_loop
scan-decimal_loop zero n t gap count h = elim h [ ]
scan-decimal_loop (suc f) n t gap count h = elim (Bool-cases (ltb n 10)) [
  | inl small ↦ rw small (ground arith)
  | inr large ↦
      rw (large, append_assoc)
        (ground (
          arith,
          scan-decimal_loop f (n / 10) ((b'0' + n % 10) ∷ t) gap count,
          length-append (decimal_loop f (n / 10)) ((b'0' + n % 10) ∷ []),
        ))
]

scan_whole :
    (f n : ℕ)
    → n < f
    → length (decimal_loop f n) ≤ max_digits
    → scan (decimal_loop f n) true 0 0 ≡ some n
unfolding scan
scan_whole f n h fits =
    rw (← append-nil (decimal_loop f n), scan-decimal_loop f n [] true 0 h) (ground arith)

pub scan-decimal : (n : ℕ) → IsShort n → scan (decimal n) true 0 0 ≡ some n
unfolding decimal
scan-decimal n h = scan_whole (suc n) n (omega arith) h

next_digit :
    (c n count : ℕ)
    → n < 10 ^ count
    → (b'0' ≤ c) × (c ≤ b'9')
    → n * 10 + (c - b'0') < 10 ^ (count + 1)
next_digit c n count small fits = simp towards_suc (omega (arith, pow-suc 10 count))

-- The two ways to read a character.
scan-cases :
    (c : ℕ) (s : Text) (gap : Bool) (n count : ℕ) {m : ℕ}
    → scan (c ∷ s) gap n count ≡ some m
    → (scan s true n count ≡ some m)
      ⊎ (IsDigit c × (scan s false (n * 10 + (c - b'0')) (count + 1) ≡ some m))
unfolding scan
scan-cases c s gap n count h = ground arith

-- What is read has few enough digits to be printed and read again.
scan-bound :
    (s : Text) (gap : Bool) (n count : ℕ) {m : ℕ}
    → n < 10 ^ count
    → scan s gap n count ≡ some m
    → (k : ℕ) × (k ≤ max_digits) × (m < 10 ^ k)
unfolding scan
scan-bound [] true n count small h = cc
scan-bound [] false n count small h = (count, ground arith, ground arith)
scan-bound (c ∷ s) gap n count {m} small h = elim (scan-cases c s gap n count h) [
  | inl e ↦ scan-bound s true n count small e
  | inr (fits, e) ↦
      scan-bound s false (n * 10 + (c - b'0')) (count + 1) (next_digit c n count small fits) e
]

length-decimal_loop : (f n k : ℕ) → n < 10 ^ suc k → length (decimal_loop f n) ≤ suc k
unfolding decimal_loop
length-decimal_loop zero n k h = omega arith
length-decimal_loop (suc f) n zero h = ground arith
length-decimal_loop (suc f) n (suc k) h = ground (
  arith,
  length-decimal_loop f (n / 10) k,
  length-append (decimal_loop f (n / 10)) ((b'0' + n % 10) ∷ []),
)

IsShort-of_bound : (k m : ℕ) → k ≤ max_digits → m < 10 ^ k → IsShort m
unfolding decimal
IsShort-of_bound zero m fits below = omega (arith, length-decimal_loop (suc m) m 0)
IsShort-of_bound (suc k) m fits below = omega (arith, length-decimal_loop (suc m) m k below)

-- A number that was read can be printed and read again.
pub IsShort-of_scan : (s : Text) {m : ℕ} → scan s true 0 0 ≡ some m → IsShort m
IsShort-of_scan s {m} h =
    let (k, fits, below) = scan-bound s true 0 0 (omega arith) h in IsShort-of_bound k m fits below
