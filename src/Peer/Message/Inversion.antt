-- ===== src/Peer/Message/Inversion.antt =====
-- What an accepted buffer holds, for each message with a payload behind its id.
use motte_seed.Prelude.{◌≢◌, ℕ, ◌+◌, ◌≤◌, ◌≡◌, ok, arith, length, drop}
use motte_seed.Bytes.{Bytes, BufMut, IsU32, u32_at, u16_at, at}
use motte_seed.Peer.Message.{
  Message, keep_alive, choke, un_choke, interested, not_interested, have, bitfield, request, piece,
  cancel, port, deserialize,
}

-- The id on the wire; a keep-alive has none.
abbrev pub tag : Message → ℕ
tag keep_alive = 0
tag choke = 0
tag un_choke = 1
tag interested = 2
tag not_interested = 3
tag (have k) = 4
tag (bitfield bits) = 5
tag (request k b l) = 6
tag (piece k b block) = 7
tag (cancel k b l) = 8
tag (port p) = 9

module _ (lib : BufMut) (bytes : Bytes) where
  -- The id decides which message is read, unless the length prefix is 0.
  pub tag_inv :
      (m : Message) → (deserialize lib bytes).0 ≡ ok m → u32_at bytes 0 ≢ 0 → tag m ≡ at bytes 4
  unfolding deserialize
  tag_inv m h z = ground arith

  pub have_inv :
      (k : ℕ)
      → (deserialize lib bytes).0 ≡ ok (have k)
      → (at bytes 4 ≡ 4) × (length bytes ≡ 9) × (k ≡ u32_at bytes 5)
  unfolding deserialize
  have_inv k h = ground arith

  pub bitfield_inv :
      (bits : Bytes)
      → (deserialize lib bytes).0 ≡ ok (bitfield bits)
      → (at bytes 4 ≡ 5) × (5 ≤ length bytes) × (bits ≡ drop 5 bytes)
  unfolding deserialize
  bitfield_inv bits h = ground (arith, lib.split_off_lem bytes 5)

  pub request_inv :
      (k b l : ℕ)
      → (deserialize lib bytes).0 ≡ ok (request k b l)
      → (at bytes 4 ≡ 6)
        × (length bytes ≡ 17)
        × (k ≡ u32_at bytes 5)
        × (b ≡ u32_at bytes 9)
        × (l ≡ u32_at bytes 13)
  unfolding deserialize
  request_inv k b l h = ground arith

  pub piece_inv :
      (k b : ℕ) (block : Bytes)
      → u32_at bytes 0 + 4 ≡ length bytes
      → IsU32 (u32_at bytes 0)
      → (deserialize lib bytes).0 ≡ ok (piece k b block)
      → (at bytes 4 ≡ 7)
        × (13 ≤ length bytes)
        × (k ≡ u32_at bytes 5)
        × (b ≡ u32_at bytes 9)
        × (block ≡ drop 13 bytes)
  unfolding deserialize
  piece_inv k b block p q h = ground (arith, lib.split_off_lem bytes 13)

  pub cancel_inv :
      (k b l : ℕ)
      → (deserialize lib bytes).0 ≡ ok (cancel k b l)
      → (at bytes 4 ≡ 8)
        × (length bytes ≡ 17)
        × (k ≡ u32_at bytes 5)
        × (b ≡ u32_at bytes 9)
        × (l ≡ u32_at bytes 13)
  unfolding deserialize
  cancel_inv k b l h = ground arith

  pub port_inv :
      (p : ℕ)
      → (deserialize lib bytes).0 ≡ ok (port p)
      → (at bytes 4 ≡ 9) × (length bytes ≡ 7) × (p ≡ u16_at bytes 5)
  unfolding deserialize
  port_inv p h = ground arith
