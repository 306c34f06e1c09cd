-- ===== src/Peer/Message/Canonical.antt =====
-- Bytes with an honest length prefix are the encoding of the message that is read from them.
use motte_seed.Prelude.{◌++◌, ℕ, ◌+◌, ◌≤◌, ◌≡◌, [], ◌∷◌, ok, arith, length, drop, All}
use motte_seed.Bytes.{IsU16, Bytes, BufMut, IsU8, IsU32, be32, from_be32, u32_at, u16_at, at}
use motte_seed.Peer.Message.{
  serialize, Message, have, bitfield, request, piece, cancel, port, deserialize,
}
use motte_seed.Peer.Message.Encoding.{serialize_lem, IsValid, encoding}
use motte_seed.Peer.Message.Inversion.{
  tag_inv, have_inv, bitfield_inv, request_inv, piece_inv, cancel_inv, port_inv,
}

be32-from_be32 :
    (a b c d : ℕ)
    → IsU8 a
    → IsU8 b
    → IsU8 c
    → IsU8 d
    → be32 (from_be32 a b c d) ≡ a ∷ b ∷ c ∷ d ∷ []
be32-from_be32 a b c d ha hb hc hd = ground arith

-- The same bytes, from the integers that are read from them.
module _ (a b c d id : ℕ) where
  have_canonical :
      (rest : Bytes)
      → let bytes : Bytes = a ∷ b ∷ c ∷ d ∷ id ∷ rest in
        All IsU8 bytes
        → from_be32 a b c d + 4 ≡ length bytes
        → id ≡ 4
        → length bytes ≡ 9
        → IsU32 (u32_at bytes 5) × (encoding (have (u32_at bytes 5)) ≡ bytes)
  have_canonical (e ∷ f ∷ g ∷ h ∷ []) u p i l =
      ground (arith, be32-from_be32 a b c d, be32-from_be32 e f g h)
  have_canonical [] u p i l = absurd (omega arith)
  have_canonical _ u p i l = absurd (omega arith)

  bitfield_canonical :
      (rest : Bytes)
      → let bytes : Bytes = a ∷ b ∷ c ∷ d ∷ id ∷ rest in
        All IsU8 bytes
        → from_be32 a b c d + 4 ≡ length bytes
        → id ≡ 5
        → IsU32 (1 + length rest) × (encoding (bitfield rest) ≡ bytes)
  bitfield_canonical rest u p i = ground (arith, be32-from_be32 a b c d)

  three_canonical :
      (n : ℕ) (rest : Bytes)
      → let bytes : Bytes = a ∷ b ∷ c ∷ d ∷ id ∷ rest in
        All IsU8 bytes
        → from_be32 a b c d + 4 ≡ length bytes
        → id ≡ n
        → length bytes ≡ 17
        → (IsU32 (u32_at bytes 5) × IsU32 (u32_at bytes 9) × IsU32 (u32_at bytes 13))
          × (be32 13
                ++ (n ∷ be32 (u32_at bytes 5) ++ (be32 (u32_at bytes 9) ++ be32 (u32_at bytes 13)))
              ≡ bytes)
  three_canonical n (e ∷ f ∷ g ∷ h ∷ e1 ∷ f1 ∷ g1 ∷ h1 ∷ e2 ∷ f2 ∷ g2 ∷ h2 ∷ []) u p i l = ground (
    arith,
    be32-from_be32 a b c d,
    be32-from_be32 e f g h,
    be32-from_be32 e1 f1 g1 h1,
    be32-from_be32 e2 f2 g2 h2,
  )
  three_canonical n [] u p i l = absurd (omega arith)
  three_canonical n _ u p i l = absurd (omega arith)

  piece_canonical :
      (rest : Bytes)
      → let bytes : Bytes = a ∷ b ∷ c ∷ d ∷ id ∷ rest in
        All IsU8 bytes
        → from_be32 a b c d + 4 ≡ length bytes
        → id ≡ 7
        → 13 ≤ length bytes
        → IsValid (piece (u32_at bytes 5) (u32_at bytes 9) (drop 8 rest))
          × (encoding (piece (u32_at bytes 5) (u32_at bytes 9) (drop 8 rest)) ≡ bytes)
  piece_canonical (e ∷ f ∷ g ∷ h ∷ e1 ∷ f1 ∷ g1 ∷ h1 ∷ r) u p i l =
      ground (arith, be32-from_be32 a b c d, be32-from_be32 e f g h, be32-from_be32 e1 f1 g1 h1)
  piece_canonical [] u p i l = absurd (omega arith)
  piece_canonical _ u p i l = absurd (omega arith)

  port_canonical :
      (rest : Bytes)
      → let bytes : Bytes = a ∷ b ∷ c ∷ d ∷ id ∷ rest in
        All IsU8 bytes
        → from_be32 a b c d + 4 ≡ length bytes
        → id ≡ 9
        → length bytes ≡ 7
        → IsU16 (u16_at bytes 5) × (encoding (port (u16_at bytes 5)) ≡ bytes)
  port_canonical (e ∷ f ∷ []) u p i l = ground (arith, be32-from_be32 a b c d)
  port_canonical [] u p i l = absurd (omega arith)
  port_canonical _ u p i l = absurd (omega arith)

module _ (lib : BufMut) where
  canonical :
      (a b c d id : ℕ) (rest : Bytes) (m : Message)
      → let bytes : Bytes = a ∷ b ∷ c ∷ d ∷ id ∷ rest in
        All IsU8 bytes
        → from_be32 a b c d + 4 ≡ length bytes
        → 4 ≤ id
        → (deserialize lib bytes).0 ≡ ok m
        → IsValid m × (encoding m ≡ bytes)
  canonical a b c d id rest (have k) u p i h =
      let (t, l, e) = have_inv lib (a ∷ b ∷ c ∷ d ∷ id ∷ rest) k h in
      rw e (have_canonical a b c d id rest u p t l)
  canonical a b c d id rest (bitfield bits) u p i h =
      let (t, l, e) = bitfield_inv lib (a ∷ b ∷ c ∷ d ∷ id ∷ rest) bits h in
      rw e (bitfield_canonical a b c d id rest u p t)
  canonical a b c d id rest (request k x y) u p i h =
      let (t, l, e, f, g) = request_inv lib (a ∷ b ∷ c ∷ d ∷ id ∷ rest) k x y h in
      rw (e, f, g) (three_canonical a b c d id 6 rest u p t l)
  canonical a b c d id rest (cancel k x y) u p i h =
      let (t, l, e, f, g) = cancel_inv lib (a ∷ b ∷ c ∷ d ∷ id ∷ rest) k x y h in
      rw (e, f, g) (three_canonical a b c d id 8 rest u p t l)
  canonical a b c d id rest (piece k x block) u p i h =
      let (t, l, e, f, g) =
        piece_inv lib (a ∷ b ∷ c ∷ d ∷ id ∷ rest) k x block p (ground arith) h in
      rw (e, f, g) (piece_canonical a b c d id rest u p t l)
  canonical a b c d id rest (port n) u p i h =
      let (t, l, e) = port_inv lib (a ∷ b ∷ c ∷ d ∷ id ∷ rest) n h in
      rw e (port_canonical a b c d id rest u p t l)
  canonical a b c d id rest m u p i h =
      absurd (omega (arith, tag_inv lib (a ∷ b ∷ c ∷ d ∷ id ∷ rest) m h (omega arith)))

  -- On bytes whose length prefix counts what follows it, and whose id is 4 or more, an accepted
  -- message is valid and `serialize` makes the same bytes of it.
  pub serialize-deserialize :
      (bytes : Bytes) (m : Message)
      → All IsU8 bytes
      → u32_at bytes 0 + 4 ≡ length bytes
      → 4 ≤ at bytes 4
      → (deserialize lib bytes).0 ≡ ok m
      → IsValid m × (serialize lib m ≡ bytes)
  serialize-deserialize (a ∷ b ∷ c ∷ d ∷ id ∷ rest) m u p i h =
      let (v, e) = canonical a b c d id rest m u p i h in (v, rw (serialize_lem lib m v) e)
  serialize-deserialize [] m u p i h = absurd (omega arith)
  serialize-deserialize _ m u p i h = absurd (omega arith)
