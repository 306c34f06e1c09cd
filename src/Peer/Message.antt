-- ===== src/Peer/Message.antt =====
-- src/core/peer/message.rs: the messages of the peer protocol, written and read as bytes.
-- A message is a value of `Message`; `serialize_into` takes the buffer and returns it with the
-- message appended; `deserialize` returns its result and the bytes that it leaves in the buffer.
pub mod Encoding
pub mod Inversion
pub mod Canonical
pub mod RoundTrip
pub mod Framing
use motte_seed.Prelude.{
  ℕ, ◌+◌, ◌-◌, ◌%◌, ◌^◌, [], Result, ok, err, not, ltb, ◌==◌, if◌then◌else◌, length,
}
use motte_seed.Bytes.{Bytes, BufMut, at, u16_at, u32_at}

pub data Message : Type 0 where
  keep_alive choke un_choke interested not_interested : Message
  have : ℕ → Message
  bitfield : Bytes → Message
  request : ℕ → ℕ → ℕ → Message
  piece : ℕ → ℕ → Bytes → Message
  cancel : ℕ → ℕ → ℕ → Message
  port : ℕ → Message

pub data MessageError : Type 0 where
  invalid_type : ℕ → MessageError
  message_too_short : MessageError

-- `n + bytes.len() as u32`
abbrev pub add_len : ℕ → Bytes → ℕ
add_len n bytes = (n + length bytes % 2 ^ 32) % 2 ^ 32

-- `len - n` on u32
abbrev pub sub32 : ℕ → ℕ → ℕ
sub32 a b = (a + 2 ^ 32 - b) % 2 ^ 32

module _ (lib : BufMut) where
  open lib use {put_u8, put_u16, put_u32, put_slice, split_off}

  unfoldable pub serialize_into : Message → Bytes → Bytes
  serialize_into keep_alive buf = put_u32 buf 0
  serialize_into choke buf = put_u8 (put_u32 buf 1) 0
  serialize_into un_choke buf = put_u8 (put_u32 buf 1) 1
  serialize_into interested buf = put_u8 (put_u32 buf 1) 2
  serialize_into not_interested buf = put_u8 (put_u32 buf 1) 3
  serialize_into (have index) buf = put_u32 (put_u8 (put_u32 buf 5) 4) index
  serialize_into (bitfield bytes) buf = put_slice (put_u8 (put_u32 buf (add_len 1 bytes)) 5) bytes
  serialize_into (request index begin len) buf =
      put_u32 (put_u32 (put_u32 (put_u8 (put_u32 buf 13) 6) index) begin) len
  serialize_into (piece index begin block) buf =
      put_slice (put_u32 (put_u32 (put_u8 (put_u32 buf (add_len 9 block)) 7) index) begin) block
  serialize_into (cancel index begin len) buf =
      put_u32 (put_u32 (put_u32 (put_u8 (put_u32 buf 13) 8) index) begin) len
  serialize_into (port p) buf = put_u16 (put_u8 (put_u32 buf 3) 9) p

  unfoldable pub serialize : Message → Bytes
  serialize m = serialize_into m []

  -- A branch with a fixed size tests the size of the whole buffer.
  exactly : ℕ → Bytes → Message → Result Message MessageError × Bytes
  exactly n bytes m =
      if not (length bytes == n) then (err message_too_short, bytes) else (ok m, bytes)

  deserialize_bitfield : ℕ → Bytes → Result Message MessageError × Bytes
  deserialize_bitfield len bytes =
      let (rest, tail) = split_off bytes 5 in
      if ltb (length bytes) (5 + sub32 len 1)
      then (err message_too_short, bytes)
      else (ok (bitfield tail), rest)

  deserialize_piece : ℕ → Bytes → Result Message MessageError × Bytes
  deserialize_piece len bytes =
      let (rest, tail) = split_off bytes 13 in
      if ltb (length bytes) (13 + sub32 len 9)
      then (err message_too_short, bytes)
      else (ok (piece (u32_at bytes 5) (u32_at bytes 9) tail), rest)

  deserialize_id : ℕ → ℕ → Bytes → Result Message MessageError × Bytes
  unfolding exactly deserialize_bitfield deserialize_piece
  deserialize_id id len bytes =
      if id == 0
      then (ok choke, bytes)
      else if id == 1
      then (ok un_choke, bytes)
      else if id == 2
      then (ok interested, bytes)
      else if id == 3
      then (ok not_interested, bytes)
      else if id == 4
      then exactly 9 bytes (have (u32_at bytes 5))
      else if id == 5
      then deserialize_bitfield len bytes
      else if id == 6
      then exactly 17 bytes (request (u32_at bytes 5) (u32_at bytes 9) (u32_at bytes 13))
      else if id == 7
      then deserialize_piece len bytes
      else if id == 8
      then exactly 17 bytes (cancel (u32_at bytes 5) (u32_at bytes 9) (u32_at bytes 13))
      else if id == 9
      then exactly 7 bytes (port (u16_at bytes 5))
      else (err (invalid_type id), bytes)

  unfoldable pub deserialize : Bytes → Result Message MessageError × Bytes
  unfolding deserialize_id
  deserialize bytes =
      if ltb (length bytes) 4
      then (err message_too_short, bytes)
      else if u32_at bytes 0 == 0
      then (ok keep_alive, bytes)
      else if ltb (length bytes) 5
      then (err message_too_short, bytes)
      else deserialize_id (at bytes 4) (u32_at bytes 0) bytes
