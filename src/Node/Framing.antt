-- ===== src/Node/Framing.antt =====
-- `_send_message` (dtn/node.py): a message goes to the agent behind its length in eight bytes, and
-- the reply comes back so. The socket is the list of the pieces in which the agent's bytes arrive.
pub mod Laws
use ma_sinafadavi_gpt.Base.{
  ℕ, zero, suc, ◌+◌, ◌*◌, ◌/◌, ◌%◌, ◌^◌, ◌≡◌, Bool, true, false, List, [], ◌∷◌, ◌++◌, Bytes, length,
  drop, take, Result, ok, err, ◌>>=◌, ◌>>◌, guard, ltb, if◌then◌else◌,
}
use ma_sinafadavi_gpt.Base.Exceptions.{overflow_error, assertion_error}
use ma_sinafadavi_gpt.Wire.{Codec}
use ma_sinafadavi_gpt.Messages.{
  Message, reply, register, fetch, fetch_reply, create, serialize, deserialize,
}

-- The last `k` bytes of `n`, most significant first.
unfoldable pub big_endian : ℕ → ℕ → Bytes
big_endian zero n = []
big_endian (suc k) n = big_endian k (n / 256) ++ (n % 256) ∷ []

-- `int.from_bytes(data, "big")`, behind what was read
unfoldable pub from_bytes : ℕ → Bytes → ℕ
from_bytes n [] = n
from_bytes n (b ∷ bs) = from_bytes (n * 256 + b) bs

-- `message_length.to_bytes(8, "big")`
unfoldable pub length_bytes : ℕ → Result Bytes
unfolding big_endian
length_bytes n = do guard (ltb n (2 ^ 64)) overflow_error; ok (big_endian 8 n)

-- What is left of a piece waits for the next call.
keep : Bytes → List Bytes → List Bytes
keep [] pieces = pieces
keep (c ∷ s) pieces = (c ∷ s) ∷ pieces

-- `sock_recv(s, n)`: at most `n` bytes, of those that have arrived; none at the end.
unfoldable pub recv : ℕ → List Bytes → Bytes × List Bytes
unfolding keep
recv n [] = ([], [])
recv n (piece ∷ pieces) = (take n piece, keep (drop n piece) pieces)

-- `isinstance(reply, Reply)`
is_reply : Message → Bool
is_reply (reply success error) = true
is_reply (fetch_reply success error bundles) = true
is_reply m = false

-- The bytes that `_send_message` takes for the reply.
unfoldable pub reply_bytes : List Bytes → Bytes
unfolding recv
reply_bytes pieces =
    let (header, rest) = recv 8 pieces in
    let (body, rest') = recv (from_bytes 0 header) rest in body

module _ (codec : Codec) where
  -- What `_send_message` sends.
  unfoldable pub sent : Message → Result Bytes
  unfolding length_bytes
  sent message = do
    body ← serialize codec message
    header ← length_bytes (length body)
    ok (header ++ body)

  -- What `_send_message` returns.
  unfoldable pub received : List Bytes → Result Message
  unfolding is_reply
  received pieces = do
    message ← deserialize codec (reply_bytes pieces)
    guard (is_reply message) assertion_error
    ok message
