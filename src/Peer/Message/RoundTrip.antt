-- ===== src/Peer/Message/RoundTrip.antt =====
-- `deserialize` reads back what `serialize` wrote.
use motte_seed.Prelude.{ℕ, suc, ◌+◌, ◌/◌, ◌%◌, ◌^◌, ◌≡◌, refl, ap, ok, arith, length}
use motte_seed.Bytes.{BufMut, IsU16, IsU32, from_be16, from_be32}
use motte_seed.Peer.Message.{
  Message, keep_alive, choke, un_choke, interested, not_interested, have, bitfield, request, piece,
  cancel, port, serialize, deserialize,
}
use motte_seed.Peer.Message.Encoding.{IsValid, encoding, serialize_lem}

from_be32-be32 :
    (n : ℕ)
    → IsU32 n
    → from_be32 (n / 2 ^ 24 % 256) (n / 2 ^ 16 % 256) (n / 2 ^ 8 % 256) (n % 256) ≡ n
from_be32-be32 n h = omega arith

from_be16-be16 : (n : ℕ) → IsU16 n → from_be16 (n / 2 ^ 8 % 256) (n % 256) ≡ n
from_be16-be16 n h = omega arith

module _ (lib : BufMut) where
  deserialize-encoding : (m : Message) → IsValid m → (deserialize lib (encoding m)).0 ≡ ok m
  unfolding deserialize
  deserialize-encoding keep_alive h = refl
  deserialize-encoding choke h = refl
  deserialize-encoding un_choke h = refl
  deserialize-encoding interested h = refl
  deserialize-encoding not_interested h = refl
  deserialize-encoding (have index) h = ap (λ i. ok (have i)) (from_be32-be32 index h)
  deserialize-encoding (bitfield bytes) h =
      ground (
        arith,
        from_be32-be32 (suc (length bytes)),
        lib.split_off_lem (encoding (bitfield bytes)) 5,
      )
  deserialize-encoding (request index begin len) (hi, hb, hl) =
      rw (from_be32-be32 index hi, from_be32-be32 begin hb, from_be32-be32 len hl)
  deserialize-encoding (piece index begin block) (hi, hb, hl) = ground (
    arith,
    from_be32-be32 index hi,
    from_be32-be32 begin hb,
    from_be32-be32 (9 + length block),
    lib.split_off_lem (encoding (piece index begin block)) 13,
  )
  deserialize-encoding (cancel index begin len) (hi, hb, hl) =
      rw (from_be32-be32 index hi, from_be32-be32 begin hb, from_be32-be32 len hl)
  deserialize-encoding (port p) h = ap (λ i. ok (port i)) (from_be16-be16 p h)

  -- Every message whose fields are in the range of their types, and whose payload fits the length
  -- prefix, is read back unchanged from the bytes that `serialize` makes of it.
  pub deserialize-serialize :
      (m : Message) → IsValid m → (deserialize lib (serialize lib m)).0 ≡ ok m
  deserialize-serialize m h = rw (serialize_lem lib m h) (deserialize-encoding m h)
