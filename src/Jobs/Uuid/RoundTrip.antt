-- ===== src/Jobs/Uuid/RoundTrip.antt =====
-- `UUID(str(uuid))` is the UUID (for dtn/job.py).
use native.Mathlib.Nat.{pow-suc}
use ma_sinafadavi_gpt.Base.{
  ℕ, zero, suc, ◌+◌, ◌*◌, ◌/◌, ◌%◌, ◌^◌, ◌<◌, ◌≤◌, ◌≡◌, ◌≢◌, ◌∙◌, refl, ap, sym, Bool, true, false,
  not, some, [], ◌∷◌, ◌++◌, append_assoc, append-nil, Text, codes, starts_with, length,
  length-append, take, drop, length-take, length-drop, take-append-drop, drop-drop, select,
  select-append, All, All-append, All-take, All-drop, arith, ◌==◌,
}
use ma_sinafadavi_gpt.Eid.Number.{clean-graphic, IsGraphic}
use ma_sinafadavi_gpt.Jobs.Uuid.{
  hex_digit, hex, dashed, uuid_text, remove_from, is_brace, skip_braces, drop_braces, strip_braces,
  without_dashes, hex_value, scan_hex, skip_prefix, skip_plus, parse_hex, bare, uuid_of,
}

-- The range of the digits that `hex` writes.
abbrev IsLow : ℕ → Type 0
IsLow c = (b'0' ≤ c) × (c ≤ b'f') × (c ≢ b'X')

hex_value-hex_digit : (n : ℕ) → n < 16 → hex_value (hex_digit n) ≡ some n
unfolding hex_value hex_digit
hex_value-hex_digit n h = ground arith

hex_digit-IsLow : (n : ℕ) → n < 16 → IsLow (hex_digit n)
unfolding hex_digit
hex_digit-IsLow n h = ground arith

hex-IsLow : (k n : ℕ) → All IsLow (hex k n)
unfolding hex
hex-IsLow zero n = tt
hex-IsLow (suc k) n =
    All-append IsLow (hex k (n / 16)) (hex_digit (n % 16) ∷ []) (hex-IsLow k (n / 16))
      (hex_digit-IsLow (n % 16) (omega arith), tt)

length-hex : (k n : ℕ) → length (hex k n) ≡ k
unfolding hex
length-hex zero n = refl
length-hex (suc k) n =
    omega (arith, length-append (hex k (n / 16)) (hex_digit (n % 16) ∷ []), length-hex k (n / 16))

scan_value :
    (c d : ℕ) (t : Text) (gap : Bool) (m : ℕ)
    → hex_value c ≡ some d
    → scan_hex (c ∷ t) gap m ≡ scan_hex t false (m * 16 + d)
unfolding scan_hex
scan_value c d t gap m e = rw e

scan_digit :
    (n : ℕ) (t : Text) (gap : Bool) (m : ℕ)
    → n < 16
    → scan_hex (hex_digit n ∷ t) gap m ≡ scan_hex t false (m * 16 + n)
scan_digit n t gap m h = scan_value (hex_digit n) n t gap m (hex_value-hex_digit n h)

-- Reading back what was printed leaves the number.
scan_hex-hex :
    (k n : ℕ) (t : Text)
    → n < 16 ^ suc k
    → scan_hex (hex (suc k) n ++ t) true 0 ≡ scan_hex t false n
unfolding hex
scan_hex-hex zero n t h =
    scan_digit (n % 16) t true 0 (omega arith) ∙ ap (scan_hex t false) (omega (arith, pow-suc 16 0))
scan_hex-hex (suc k) n t h =
    ap (λ s. scan_hex s true 0)
      (append_assoc (hex k (n / 16 / 16) ++ hex_digit (n / 16 % 16) ∷ []) (hex_digit (n % 16) ∷ [])
        t)
    ∙ (scan_hex-hex k (n / 16) (hex_digit (n % 16) ∷ t) (omega (arith, pow-suc 16 (suc k)))
        ∙ (scan_digit (n % 16) t false (n / 16) (omega arith)
            ∙ ap (scan_hex t false) (omega arith)))

IsLow-IsGraphic : (s : Text) → All IsLow s → All IsGraphic s
IsLow-IsGraphic [] h = tt
IsLow-IsGraphic (c ∷ s) (hc, hs) = ((omega arith, omega arith), IsLow-IsGraphic s hs)

skip_plus-low : (s : Text) → All IsLow s → skip_plus s ≡ s
unfolding skip_plus
skip_plus-low [] h = refl
skip_plus-low (c ∷ s) (hc, hs) = ground arith

skip_prefix-low : (s : Text) → All IsLow s → skip_prefix s ≡ s
unfolding skip_prefix
skip_prefix-low [] h = refl
skip_prefix-low (c ∷ []) h = refl
skip_prefix-low (c ∷ d ∷ s) (hc, (hd, hs)) = ground arith

parse_hex-hex : (k n : ℕ) → n < 16 ^ suc k → parse_hex (hex (suc k) n) ≡ some n
unfolding parse_hex scan_hex
parse_hex-hex k n h =
    let low = hex-IsLow (suc k) n in
    let s = hex (suc k) n in
    rw (clean-graphic s (IsLow-IsGraphic s low), skip_plus-low s low, skip_prefix-low s low)
      (ap (λ t. scan_hex t true 0) (sym (append-nil s)) ∙ scan_hex-hex k n [] h)

-- What `str(uuid)` is made of: the digits and the dashes.
abbrev IsUuidChar : ℕ → Type 0
IsUuidChar c = (b'-' ≤ c) × (c ≤ b'f')

IsLow-IsUuidChar : (s : Text) → All IsLow s → All IsUuidChar s
IsLow-IsUuidChar [] h = tt
IsLow-IsUuidChar (c ∷ s) (hc, hs) = ((omega arith, omega arith), IsLow-IsUuidChar s hs)

-- A prefix that starts with a `u` is nowhere in a UUID's text.
remove_from-absent : (p s : Text) → All IsUuidChar s → remove_from (b'u' ∷ p) 0 s ≡ s
unfolding remove_from starts_with
remove_from-absent p [] h = refl
remove_from-absent p (c ∷ s) (hc, hs) = ground (arith, remove_from-absent p s hs)

skip_braces-absent : (s : Text) → All IsUuidChar s → skip_braces s ≡ s
unfolding skip_braces is_brace
skip_braces-absent [] h = refl
skip_braces-absent (c ∷ s) (hc, hs) = ground arith

drop_braces-absent : (s : Text) → All IsUuidChar s → drop_braces s ≡ s
unfolding drop_braces is_brace
drop_braces-absent [] h = refl
drop_braces-absent (c ∷ []) h = ground arith
drop_braces-absent (c ∷ d ∷ s) (hc, hs) = rw (drop_braces-absent (d ∷ s) hs)

without_dashes-low : (s : Text) → All IsLow s → without_dashes s ≡ s
unfolding without_dashes select
without_dashes-low [] h = refl
without_dashes-low (c ∷ s) (hc, hs) = ground (arith, without_dashes-low s hs)

without_dashes-dash :
    (s t : Text) → All IsLow s → without_dashes (s ++ b'-' ∷ t) ≡ s ++ without_dashes t
unfolding without_dashes select
without_dashes-dash s t h =
    select-append (λ c. not (c == b'-')) s (b'-' ∷ t)
    ∙ ap (λ u. u ++ without_dashes t) (without_dashes-low s h)

-- A group of digits, and those behind it.
group : (m n : ℕ) (s : Text) → take m (drop n s) ++ drop (n + m) s ≡ drop n s
group m n s = rw (← drop-drop m n s) (take-append-drop m (drop n s))

without_dashes-dashed : (h : Text) → All IsLow h → without_dashes (dashed h) ≡ h
unfolding dashed
without_dashes-dashed h low =
    rw
      (
        without_dashes-dash (take 8 h)
            (take 4 (drop 8 h)
              ++ b'-' ∷ (take 4 (drop 12 h) ++ b'-' ∷ (take 4 (drop 16 h) ++ b'-' ∷ drop 20 h)))
            (All-take IsLow 8 h low),
        without_dashes-dash (take 4 (drop 8 h))
            (take 4 (drop 12 h) ++ b'-' ∷ (take 4 (drop 16 h) ++ b'-' ∷ drop 20 h))
            (All-take IsLow 4 (drop 8 h) (All-drop IsLow 8 h low)),
        without_dashes-dash (take 4 (drop 12 h)) (take 4 (drop 16 h) ++ b'-' ∷ drop 20 h)
            (All-take IsLow 4 (drop 12 h) (All-drop IsLow 12 h low)),
        without_dashes-dash (take 4 (drop 16 h)) (drop 20 h)
            (All-take IsLow 4 (drop 16 h) (All-drop IsLow 16 h low)),
        without_dashes-low (drop 20 h) (All-drop IsLow 20 h low),
        group 4 16 h,
        group 4 12 h,
        group 4 8 h,
      )
      (take-append-drop 8 h)

piece : (s t : Text) → All IsUuidChar s → All IsUuidChar t → All IsUuidChar (s ++ b'-' ∷ t)
piece s t hs ht = All-append IsUuidChar s (b'-' ∷ t) hs ((omega arith, omega arith), ht)

dashed-IsUuidChar : (h : Text) → All IsUuidChar h → All IsUuidChar (dashed h)
unfolding dashed
dashed-IsUuidChar h low = piece (take 8 h) _ (All-take IsUuidChar 8 h low) (
    piece (take 4 (drop 8 h)) _ (All-take IsUuidChar 4 (drop 8 h) (All-drop IsUuidChar 8 h low)) (
      piece (take 4 (drop 12 h)) _
        (All-take IsUuidChar 4 (drop 12 h) (All-drop IsUuidChar 12 h low))
        (piece (take 4 (drop 16 h)) _
          (All-take IsUuidChar 4 (drop 16 h) (All-drop IsUuidChar 16 h low))
          (All-drop IsUuidChar 20 h low))))

bare-dashed : (h : Text) → All IsLow h → bare (dashed h) ≡ h
unfolding bare strip_braces
bare-dashed h low =
    let all_fine = dashed-IsUuidChar h (IsLow-IsUuidChar h low) in
    rw
      (
        remove_from-absent (codes "rn:") (dashed h) all_fine,
        remove_from-absent (codes "uid:") (dashed h) all_fine,
        skip_braces-absent (dashed h) all_fine,
        drop_braces-absent (dashed h) all_fine,
      )
      (without_dashes-dashed h low)

read_bare : (s h : Text) → bare s ≡ h → length h ≡ 32 → uuid_of s ≡ parse_hex h
unfolding uuid_of
read_bare s h e l = rw (e, l)

-- The text of a UUID is read back as the UUID.
pub uuid_of-uuid_text : (n : ℕ) → n < 16 ^ 32 → uuid_of (uuid_text n) ≡ some n
unfolding uuid_text
uuid_of-uuid_text n h =
    read_bare (dashed (hex 32 n)) (hex 32 n) (bare-dashed (hex 32 n) (hex-IsLow 32 n))
      (length-hex 32 n)
    ∙ parse_hex-hex 31 n h

pub length-uuid_text : (n : ℕ) → length (uuid_text n) ≡ 36
unfolding uuid_text dashed
length-uuid_text n =
    let h = hex 32 n in
    let whole = length-hex 32 n in
    omega (
      arith,
      whole,
      length-append (take 8 h) (
          b'-'
          ∷ (take 4 (drop 8 h)
              ++ b'-' ∷ (take 4 (drop 12 h) ++ b'-' ∷ (take 4 (drop 16 h) ++ b'-' ∷ drop 20 h)))),
      length-append (take 4 (drop 8 h))
          (b'-' ∷ (take 4 (drop 12 h) ++ b'-' ∷ (take 4 (drop 16 h) ++ b'-' ∷ drop 20 h))),
      length-append (take 4 (drop 12 h)) (b'-' ∷ (take 4 (drop 16 h) ++ b'-' ∷ drop 20 h)),
      length-append (take 4 (drop 16 h)) (b'-' ∷ drop 20 h),
      length-take 8 h,
      length-take 4 (drop 8 h),
      length-take 4 (drop 12 h),
      length-take 4 (drop 16 h),
      length-drop 8 h,
      length-drop 12 h,
      length-drop 16 h,
      length-drop 20 h,
    )
