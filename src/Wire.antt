-- ===== src/Wire.antt =====
-- The values that the program hands to `msgpack`, its dictionaries with text keys, and the package as
-- an interface: `msgpack` is not part of the repository, so its two functions are parameters, with
-- what its documentation promises as a law.
pub mod Plain
use ma_sinafadavi_gpt.Base.{
  ℕ, ◌<◌, ◌^◌, ◌≡◌, refl, ap, Bool, true, false, not, ◌&&◌, ◌||◌, Option, none, some, List, [], ◌∷◌,
  Text, Bytes, codes, text_eq, text_eq_iff, Result, ok, err, Error, ◌>>=◌, arith, if◌then◌else◌,
}
use ma_sinafadavi_gpt.Base.Exceptions.{key_error, type_error, ill_typed}

mutual
  pub data Value : Type 0 where
    null : Value
    bool : Bool → Value
    int : ℕ → Value
    str : Text → Value
    bin : Bytes → Value
    arr : Values → Value
    obj : Fields → Value

  pub data Values : Type 0 where
    nil : Values
    cons : Value → Values → Values

  pub data Fields : Type 0 where
    end : Fields
    field : Text → Value → Fields → Fields

-- `data[key]`, if the key is there
unfoldable pub get : Text → Fields → Option Value
get key end = none
get key (field k v d) = let rest = get key d in if text_eq k key then some v else rest

-- `key in data`
unfoldable pub has : Text → Fields → Bool
has key end = false
has key (field k v d) = text_eq k key || has key d

-- An entry of `{key: value for key, value in … if value}`.
unfoldable pub put_if : Bool → Text → Value → Fields → Fields
put_if true k v d = field k v d
put_if false k v d = d

unfoldable pub one_of : List Text → Text → Bool
one_of [] k = false
one_of (a ∷ as') k = text_eq a k || one_of as' k

-- `cls(**data)` takes no key but the names of its fields.
unfoldable pub only_keys : List Text → Fields → Bool
only_keys names end = true
only_keys names (field k v d) = one_of names k && only_keys names d

pub get-end : (key : Text) → get key end ≡ none
unfolding get
get-end key = refl

pub get-field :
    (key k : Text) (v : Value) (d : Fields)
    → get key (field k v d) ≡ (if text_eq k key then some v else get key d)
unfolding get
get-field key k v d = refl

pub only_keys-field :
    (names : List Text) (k : Text) (v : Value) (d : Fields)
    → only_keys names (field k v d) ≡ one_of names k && only_keys names d
unfolding only_keys
only_keys-field names k v d = refl

pub get-put_if :
    (b : Bool) (key k : Text) (v : Value) (d : Fields)
    → get key (put_if b k v d)
      ≡ (if text_eq k key then (if b then some v else get key d) else get key d)
unfolding get put_if
get-put_if true key k v d = ground arith
get-put_if false key k v d = ground arith

pub has-put_if :
    (b : Bool) (key k : Text) (v : Value) (d : Fields)
    → has key (put_if b k v d) ≡ (text_eq k key && b) || has key d
unfolding has put_if
has-put_if true key k v d = ground arith
has-put_if false key k v d = ground arith

pub only_keys-put_if :
    (names : List Text) (b : Bool) (k : Text) (v : Value) (d : Fields)
    → only_keys names (put_if b k v d) ≡ (one_of names k || not b) && only_keys names d
unfolding only_keys put_if
only_keys-put_if names true k v d = ground arith
only_keys-put_if names false k v d = ground arith

-- A list of texts as a value, and back.
unfoldable pub texts : List Text → Values
texts [] = nil
texts (t ∷ ts) = cons (str t) (texts ts)

unfoldable pub as_text : Value → Result Text
as_text (str t) = ok t
as_text _ = err ill_typed

unfoldable pub as_texts : Values → Result (List Text)
unfolding as_text
as_texts nil = ok []
as_texts (cons v vs) = do t ← as_text v; ts ← as_texts vs; ok (t ∷ ts)

pub as_texts-texts : (ts : List Text) → as_texts (texts ts) ≡ ok ts
unfolding as_texts texts
as_texts-texts [] = refl
as_texts-texts (t ∷ ts) = rw (as_texts-texts ts)

-- `data[key]`
unfoldable pub need : Error → Option Value → Result Value
need e none = err e
need e (some v) = ok v

unfoldable pub as_nat : Value → Result ℕ
as_nat (int n) = ok n
as_nat _ = err ill_typed

unfoldable pub as_bool : Value → Result Bool
as_bool (bool b) = ok b
as_bool _ = err ill_typed

unfoldable pub as_bytes : Value → Result Bytes
as_bytes (bin b) = ok b
as_bytes _ = err ill_typed

-- What is no dictionary cannot be indexed by a key.
unfoldable pub as_obj : Value → Result Fields
as_obj (obj d) = ok d
as_obj _ = err type_error

-- `msgpack.packb` and `msgpack.unpackb`.
pub record Codec : Type 0 where
  pub packb : Value → Result Bytes
  pub unpackb : Bytes → Result Value

-- What was packed is unpacked to the same value.
pub record IsLawful (c : Codec) : Type 0 where
  pub unpackb-packb : (v : Value) (b : Bytes) → c.packb v ≡ ok b → c.unpackb b ≡ ok v
