-- ===== src/Node/Framing/Laws.antt =====
-- When the reply of the agent is read whole, and when it is not (dtn/node.py).
use native.Mathlib.Nat.{le_refl}
use ma_sinafadavi_gpt.Base.{
  ℕ, zero, suc, ◌+◌, ◌*◌, ◌/◌, ◌%◌, ◌^◌, ◌<◌, ◌≤◌, ◌≡◌, ◌≢◌, ◌∙◌, refl, ap, List, [], ◌∷◌, ◌++◌,
  append-nil, Bytes, length, length-append, drop, take, take_of_length-le, take-length-append,
  drop-length-append, arith,
}
use ma_sinafadavi_gpt.Node.Framing.{big_endian, from_bytes, keep, recv, reply_bytes}

from_bytes-append : (s t : Bytes) (n : ℕ) → from_bytes n (s ++ t) ≡ from_bytes (from_bytes n s) t
unfolding from_bytes
from_bytes-append [] t n = refl
from_bytes-append (b ∷ s) t n = from_bytes-append s t (n * 256 + b)

from_bytes-big_endian : (k n : ℕ) → n < 256 ^ k → from_bytes 0 (big_endian k n) ≡ n
unfolding from_bytes big_endian
from_bytes-big_endian zero n h = omega arith
from_bytes-big_endian (suc k) n h =
    from_bytes-append (big_endian k (n / 256)) ((n % 256) ∷ []) 0
    ∙ omega (arith, from_bytes-big_endian k (n / 256))

length-big_endian : (k n : ℕ) → length (big_endian k n) ≡ k
unfolding big_endian
length-big_endian zero n = refl
length-big_endian (suc k) n =
    omega (
      arith,
      length-append (big_endian k (n / 256)) ((n % 256) ∷ []),
      length-big_endian k (n / 256),
    )

-- The length header of a reply.
abbrev pub header : Bytes → Bytes
header body = big_endian 8 (length body)

take_at : (n : ℕ) (s t : Bytes) → length s ≡ n → take n (s ++ t) ≡ s
take_at n s t h = rw (← h) (take-length-append s t)

drop_at : (n : ℕ) (s t : Bytes) → length s ≡ n → drop n (s ++ t) ≡ t
drop_at n s t h = rw (← h) (drop-length-append s t)

reply_bytes-cons :
    (piece : Bytes) (pieces : List Bytes)
    → reply_bytes (piece ∷ pieces)
      ≡ (recv (from_bytes 0 (take 8 piece)) (keep (drop 8 piece) pieces)).0
unfolding reply_bytes
reply_bytes-cons piece pieces = refl

-- The header is read back, and what stands behind it in its piece is left.
module _ (body : Bytes) (h : length body < 2 ^ 64) where
  header_size : length (header body) ≡ 8
  header_size = length-big_endian 8 (length body)

  header_value : from_bytes 0 (header body) ≡ length body
  header_value = from_bytes-big_endian 8 (length body) h

  reply_bytes-piece :
      (s : Bytes) (pieces : List Bytes)
      → reply_bytes ((header body ++ s) ∷ pieces) ≡ (recv (length body) (keep s pieces)).0
  reply_bytes-piece s pieces = rw (
    reply_bytes-cons,
    take_at 8 (header body) s header_size,
    drop_at 8 (header body) s header_size,
    header_value,
  )

  reply_bytes-behind :
      (pieces : List Bytes) → reply_bytes (header body ∷ pieces) ≡ (recv (length body) pieces).0
  unfolding keep
  reply_bytes-behind pieces = rw append-nil at (reply_bytes-piece [] pieces)

recv_kept : (s : Bytes) → (recv (length s) (keep s [])).0 ≡ s
unfolding recv
recv_kept [] = refl
recv_kept (c ∷ s) = take_of_length-le (length (c ∷ s)) (c ∷ s) (le_refl (length (c ∷ s)))

recv_first :
    (part : Bytes) (n : ℕ) (pieces : List Bytes)
    → part ≢ []
    → length part ≤ n
    → (recv n (keep part pieces)).0 ≡ part
unfolding recv
recv_first [] n pieces h k = absurd (h refl)
recv_first (c ∷ s) n pieces h k = take_of_length-le n (c ∷ s) k

joined-none : (s t : Bytes) → s ≢ [] → s ++ t ≢ []
joined-none [] t h = absurd (h refl)
joined-none (c ∷ s) t h = λ e. absurd (cc)

longer : (part rest : Bytes) → rest ≢ [] → part ≢ part ++ rest
longer part [] h e = h refl
longer part (c ∷ rest) h e = omega (arith, ap length e, length-append part (c ∷ rest))

-- A reply below 2^64 bytes is read whole if it arrives in one piece with its header, or in one piece
-- behind it.
pub reply_bytes_whole :
    (body : Bytes)
    → length body < 2 ^ 64
    → (reply_bytes ((header body ++ body) ∷ []) ≡ body)
      × (reply_bytes (header body ∷ body ∷ []) ≡ body)
reply_bytes_whole body h = (
  reply_bytes-piece body h body [] ∙ recv_kept body,
  reply_bytes-behind body h (body ∷ [])
      ∙ unfold recv in take_of_length-le (length body) body (le_refl (length body)),
)

-- The bytes of pieces, one behind the other.
abbrev pub all_bytes : List Bytes → Bytes
all_bytes [] = []
all_bytes (piece ∷ pieces) = piece ++ all_bytes pieces

-- A reply of less than 2^64 bytes whose header arrives whole, and whose body arrives in two pieces or
-- more, none of them empty, is cut off behind the first piece of the body, whether the header is a piece
-- of its own or arrives in one piece with the first of the body.
pub reply_bytes_cut :
    (part next body : Bytes) (pieces : List Bytes)
    → body ≡ all_bytes (part ∷ next ∷ pieces)
    → length body < 2 ^ 64
    → part ≢ []
    → next ≢ []
    → (reply_bytes (header body ∷ part ∷ next ∷ pieces) ≡ part)
      × (reply_bytes ((header body ++ part) ∷ next ∷ pieces) ≡ part)
      × (part ≢ body)
reply_bytes_cut part next body pieces whole h some_part more =
    let shorter : length part ≤ length body =
      omega (arith, ap length whole, length-append part (next ++ all_bytes pieces)) in
    (
      reply_bytes-behind body h (part ∷ next ∷ pieces)
          ∙ unfold recv in take_of_length-le (length body) part shorter,
      reply_bytes-piece body h part (next ∷ pieces)
          ∙ recv_first part (length body) (next ∷ pieces) some_part shorter,
      λ same.
          longer part (next ++ all_bytes pieces) (joined-none next (all_bytes pieces) more)
            (same ∙ whole),
    )
