-- ===== src/Peer/Message/Encoding.antt =====
-- The wire format of each message, written out, and that `serialize_into` appends it.
use motte_seed.Prelude.{ℕ, suc, ◌+◌, ◌≡◌, ap, ◌∙◌, [], ◌∷◌, ◌++◌, append_assoc, arith, length}
use motte_seed.Bytes.{Bytes, BufMut, IsU8, IsU16, IsU32, be16, be32}
use motte_seed.Peer.Message.{
  Message, keep_alive, choke, un_choke, interested, not_interested, have, bitfield, request, piece,
  cancel, port, serialize_into, serialize, add_len,
}

-- The integers are in the range of their types, and a payload's size fits the length prefix.
abbrev pub IsValid : Message → Type 0
IsValid (have index) = IsU32 index
IsValid (bitfield bytes) = IsU32 (1 + length bytes)
IsValid (request index begin len) = IsU32 index × IsU32 begin × IsU32 len
IsValid (piece index begin block) = IsU32 index × IsU32 begin × IsU32 (9 + length block)
IsValid (cancel index begin len) = IsU32 index × IsU32 begin × IsU32 len
IsValid (port p) = IsU16 p
IsValid _ = Unit

-- What follows the length prefix.
abbrev pub payload : Message → Bytes
payload keep_alive = []
payload choke = 0 ∷ []
payload un_choke = 1 ∷ []
payload interested = 2 ∷ []
payload not_interested = 3 ∷ []
payload (have index) = 4 ∷ be32 index
payload (bitfield bytes) = 5 ∷ bytes
payload (request index begin len) = 6 ∷ be32 index ++ (be32 begin ++ be32 len)
payload (piece index begin block) = 7 ∷ be32 index ++ (be32 begin ++ block)
payload (cancel index begin len) = 8 ∷ be32 index ++ (be32 begin ++ be32 len)
payload (port p) = 9 ∷ be16 p

-- The payload behind its size.
abbrev pub encoding : Message → Bytes
encoding m = be32 (length (payload m)) ++ payload m

module _ (lib : BufMut) where
  open lib use {put_u8, put_u16, put_u32, put_slice}

  header :
      (buf : Bytes) (n id : ℕ)
      → IsU32 n
      → IsU8 id
      → put_u8 (put_u32 buf n) id ≡ buf ++ (be32 n ++ (id ∷ []))
  header buf n id hn hi =
      lib.put_u8_lem _ id hi
      ∙ ap (λ b. b ++ (id ∷ [])) (lib.put_u32_lem buf n hn)
      ∙ append_assoc buf (be32 n) (id ∷ [])

  add_u32 :
      (buf front : Bytes) (b : Bytes) (n : ℕ)
      → IsU32 n
      → b ≡ buf ++ front
      → put_u32 b n ≡ buf ++ (front ++ be32 n)
  add_u32 buf front b n hn e = rw e (lib.put_u32_lem _ n hn ∙ append_assoc buf front (be32 n))

  add_slice :
      (buf front : Bytes) (b : Bytes) (bytes : Bytes)
      → b ≡ buf ++ front
      → put_slice b bytes ≡ buf ++ (front ++ bytes)
  add_slice buf front b bytes e = rw e (lib.put_slice_lem _ bytes ∙ append_assoc buf front bytes)

  add_u16 :
      (buf front : Bytes) (b : Bytes) (n : ℕ)
      → IsU16 n
      → b ≡ buf ++ front
      → put_u16 b n ≡ buf ++ (front ++ be16 n)
  add_u16 buf front b n hn e = rw e (lib.put_u16_lem _ n hn ∙ append_assoc buf front (be16 n))

  -- Three integers behind a header, as in `Request` and `Cancel`.
  three :
      (buf : Bytes) (id a b c : ℕ)
      → IsU8 id
      → IsU32 a × IsU32 b × IsU32 c
      → put_u32 (put_u32 (put_u32 (put_u8 (put_u32 buf 13) id) a) b) c
        ≡ buf ++ (be32 13 ++ (id ∷ be32 a ++ (be32 b ++ be32 c)))
  three buf id a b c hi (ha, hb, hc) =
      add_u32 buf _ _ c hc
        (add_u32 buf _ _ b hb (add_u32 buf _ _ a ha (header buf 13 id (omega arith) hi)))

  -- `serialize_into` appends the message's encoding to the buffer, whatever that holds.
  pub serialize_into_lem :
      (m : Message) (buf : Bytes) → IsValid m → serialize_into lib m buf ≡ buf ++ encoding m
  unfolding serialize_into
  serialize_into_lem keep_alive buf h = lib.put_u32_lem buf 0 (omega arith)
  serialize_into_lem choke buf h = header buf 1 0 (omega arith) (omega arith)
  serialize_into_lem un_choke buf h = header buf 1 1 (omega arith) (omega arith)
  serialize_into_lem interested buf h = header buf 1 2 (omega arith) (omega arith)
  serialize_into_lem not_interested buf h = header buf 1 3 (omega arith) (omega arith)
  serialize_into_lem (have index) buf h =
      add_u32 buf _ _ index h (header buf 5 4 (omega arith) (omega arith))
  serialize_into_lem (bitfield bytes) buf h =
      let e : add_len 1 bytes ≡ suc (length bytes) = omega arith in
      rw (e, serialize_into) (add_slice buf _ _ bytes (header buf _ 5 (omega arith) (omega arith)))
  serialize_into_lem (request index begin len) buf h = three buf 6 index begin len (omega arith) h
  serialize_into_lem (piece index begin block) buf (hi, hb, hl) =
      let e : add_len 9 block ≡ length (payload (piece index begin block)) = omega arith in
      rw (e, serialize_into)
        (add_slice buf _ _ block (
          add_u32 buf _ _ begin hb
            (add_u32 buf _ _ index hi (header buf _ 7 (omega arith) (omega arith)))))
  serialize_into_lem (cancel index begin len) buf h = three buf 8 index begin len (omega arith) h
  serialize_into_lem (port p) buf h =
      add_u16 buf _ _ p h (header buf 3 9 (omega arith) (omega arith))

  pub serialize_lem : (m : Message) → IsValid m → serialize lib m ≡ encoding m
  unfolding serialize
  serialize_lem m h = serialize_into_lem m [] h
