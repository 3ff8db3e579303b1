-- ===== src/Wire/Plain.antt =====
-- A codec that can be run: each value with a tag before it, each text with its length. It shows that
-- what the theorems assume of `msgpack` can be met.
use ma_sinafadavi_gpt.Base.{
  ℕ, zero, suc, ◌≤◌, ◌≡◌, refl, ap, Bool, true, false, Option, none, some, [], ◌∷◌, ◌++◌,
  append_assoc, append-nil, Text, Bytes, length, length-append, drop, take, take-length-append,
  drop-length-append, Result, ok, err, arith, ◌==◌,
}
use ma_sinafadavi_gpt.Base.Exceptions.{foreign}
use ma_sinafadavi_gpt.Wire.{
  Value, Values, Fields, null, bool, int, str, bin, arr, obj, nil, cons, end, field, Codec,
  IsLawful,
}

bit : Bool → ℕ
bit true = 1
bit false = 0

sized : Text → Bytes
sized t = length t ∷ t

mutual
  unfolding bit

  pub encode : Value → Bytes
  encode null = 0 ∷ []
  encode (bool b) = 1 ∷ bit b ∷ []
  encode (int n) = 2 ∷ n ∷ []
  encode (str t) = 3 ∷ sized t
  encode (bin b) = 4 ∷ sized b
  encode (arr vs) = 5 ∷ encode_all vs
  encode (obj d) = 6 ∷ encode_fields d

  pub encode_all : Values → Bytes
  encode_all nil = 0 ∷ []
  encode_all (cons v vs) = 1 ∷ (encode v ++ encode_all vs)

  pub encode_fields : Fields → Bytes
  encode_fields end = 0 ∷ []
  encode_fields (field k v d) = 1 ∷ (sized k ++ (encode v ++ encode_fields d))

-- A text and what stands behind it.
read_sized : Bytes → Option (Text × Bytes)
unfolding take
read_sized [] = none
read_sized (n ∷ s) = some (take n s, drop n s)

read_sized-sized : (t s : Bytes) → read_sized (sized t ++ s) ≡ some (t, s)
unfolding read_sized sized
read_sized-sized t s = rw (take-length-append t s, drop-length-append t s)

as_text : (Text → Value) → Option (Text × Bytes) → Option (Value × Bytes)
as_text f none = none
as_text f (some (t, s)) = some (f t, s)

as_number : (ℕ → Value) → Bytes → Option (Value × Bytes)
as_number f [] = none
as_number f (n ∷ s) = some (f n, s)

as_arr : Option (Values × Bytes) → Option (Value × Bytes)
as_arr none = none
as_arr (some (vs, s)) = some (arr vs, s)

as_obj : Option (Fields × Bytes) → Option (Value × Bytes)
as_obj none = none
as_obj (some (d, s)) = some (obj d, s)

infixl 5 ◌then◌
◌then◌ : {A B : Type 0} → Option A → (A → Option B) → Option B
◌then◌ none f = none
◌then◌ (some a) f = f a

mutual
  unfolding as_text as_number as_arr as_obj ◌then◌

  decode : ℕ → Bytes → Option (Value × Bytes)
  decode zero s = none
  decode (suc f) [] = none
  decode (suc f) (zero ∷ s) = some (null, s)
  decode (suc f) (suc zero ∷ s) = as_number (λ n. bool (n == 1)) s
  decode (suc f) (suc (suc zero) ∷ s) = as_number int s
  decode (suc f) (suc (suc (suc zero)) ∷ s) = as_text str (read_sized s)
  decode (suc f) (suc (suc (suc (suc zero))) ∷ s) = as_text bin (read_sized s)
  decode (suc f) (suc (suc (suc (suc (suc zero)))) ∷ s) = as_arr (decode_all f s)
  decode (suc f) (suc (suc (suc (suc (suc (suc k))))) ∷ s) = as_obj (decode_fields f s)

  decode_all : ℕ → Bytes → Option (Values × Bytes)
  decode_all zero s = none
  decode_all (suc f) [] = none
  decode_all (suc f) (zero ∷ s) = some (nil, s)
  decode_all (suc f) (suc k ∷ s) =
      ◌then◌ (decode f s) (λ (v, t). ◌then◌ (decode_all f t) (λ (vs, u). some (cons v vs, u)))

  decode_fields : ℕ → Bytes → Option (Fields × Bytes)
  decode_fields zero s = none
  decode_fields (suc f) [] = none
  decode_fields (suc f) (zero ∷ s) = some (end, s)
  decode_fields (suc f) (suc k ∷ s) = ◌then◌ (read_sized s) (λ (key, t).
      ◌then◌ (decode f t)
        (λ (v, u). ◌then◌ (decode_fields f u) (λ (d, w). some (field key v d, w))))

mutual
  unfolding encode decode

  decode-encode :
      (v : Value) (s : Bytes) (f : ℕ)
      → length (encode v) ≤ f
      → decode f (encode v ++ s) ≡ some (v, s)
  decode-encode null s zero h = absurd (omega arith)
  decode-encode (bool b) s zero h = absurd (omega arith)
  decode-encode (int n) s zero h = absurd (omega arith)
  decode-encode (str t) s zero h = absurd (omega arith)
  decode-encode (bin t) s zero h = absurd (omega arith)
  decode-encode (arr vs) s zero h = absurd (omega arith)
  decode-encode (obj d) s zero h = absurd (omega arith)
  decode-encode null s (suc f) h = refl
  decode-encode (bool true) s (suc f) h = refl
  decode-encode (bool false) s (suc f) h = refl
  decode-encode (int n) s (suc f) h = refl
  decode-encode (str t) s (suc f) h = rw (read_sized-sized t s)
  decode-encode (bin t) s (suc f) h = rw (read_sized-sized t s)
  decode-encode (arr vs) s (suc f) h = rw (decode_all-encode vs s f (omega arith))
  decode-encode (obj d) s (suc f) h = rw (decode_fields-encode d s f (omega arith))

  decode_all-encode :
      (vs : Values) (s : Bytes) (f : ℕ)
      → length (encode_all vs) ≤ f
      → decode_all f (encode_all vs ++ s) ≡ some (vs, s)
  decode_all-encode nil s (suc f) h = refl
  decode_all-encode nil s zero h = absurd (omega arith)
  decode_all-encode (cons v vs) s zero h = absurd (omega arith)
  decode_all-encode (cons v vs) s (suc f) h = rw (
    append_assoc,
    decode-encode v (encode_all vs ++ s) f
        (omega (arith, length-append (encode v) (encode_all vs))),
    decode_all-encode vs s f (omega (arith, length-append (encode v) (encode_all vs))),
  )

  decode_fields-encode :
      (d : Fields) (s : Bytes) (f : ℕ)
      → length (encode_fields d) ≤ f
      → decode_fields f (encode_fields d ++ s) ≡ some (d, s)
  decode_fields-encode end s (suc f) h = refl
  decode_fields-encode end s zero h = absurd (omega arith)
  decode_fields-encode (field k v d) s zero h = absurd (omega arith)
  decode_fields-encode (field k v d) s (suc f) h = rw (
    append_assoc,
    append_assoc,
    read_sized-sized k (encode v ++ (encode_fields d ++ s)),
    decode-encode v (encode_fields d ++ s) f (
        omega (
          arith,
          length-append (sized k) (encode v ++ encode_fields d),
          length-append (encode v) (encode_fields d),
        )),
    decode_fields-encode d s f (
        omega (
          arith,
          length-append (sized k) (encode v ++ encode_fields d),
          length-append (encode v) (encode_fields d),
        )),
  )

unfoldable pub first : Option (Value × Bytes) → Result Value
first none = err foreign
first (some (v, s)) = ok v

unfoldable pub plain_codec : Codec
unfolding decode first encode sized read_sized take
plain_codec = record { packb = λ v. ok (encode v); unpackb = λ b. first (decode (length b) b) }

decode_end :
    (b : Bytes) (v : Value)
    → decode (length b) (b ++ []) ≡ some (v, [])
    → first (decode (length b) b) ≡ ok v
unfolding first
decode_end b v e = rw (rw append-nil at e)

decode_whole : (v : Value) → first (decode (length (encode v)) (encode v)) ≡ ok v
decode_whole v = decode_end (encode v) v (decode-encode v [] (length (encode v)) (omega arith))

-- What `ok` holds.
ok_value : Bytes → Result Bytes → Bytes
ok_value d (ok b) = b
ok_value d (err e) = d

pub plain_codec-IsLawful : IsLawful plain_codec
unfolding plain_codec ok_value
plain_codec-IsLawful = record {
  unpackb-packb = λ v b e. rw (← ap (ok_value []) e) (decode_whole v);
}
