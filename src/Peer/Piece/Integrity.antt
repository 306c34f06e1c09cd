-- ===== src/Peer/Piece/Integrity.antt =====
-- The bytes of a piece that `get_piece_data` hands out have the piece's digest and length, whatever
-- was done to the piece since `Piece::new`.
use motte_seed.Prelude.{
  ℕ, ◌^◌, ◌<◌, ◌≡◌, ◌≢◌, none, some, arith, length, ◌∙◌, inl, inr, Option-cases,
}
use motte_seed.Prelude.Assoc.{get}
use motte_seed.Bytes.{Bytes}
use mathlib.Core.Path.{subst}
use motte_seed.Peer.Piece.{Piece, complete, new, verify, receive_block, get_piece_data, is_verified}
use motte_seed.Peer.Piece.Contents.{contents}
use motte_seed.Peer.Piece.Layout.{IsFresh, new-IsFresh}
use motte_seed.Peer.Piece.Invariant.{length-contents}
use motte_seed.Peer.Piece.Check.{
  verify_lem, get_piece_data_lem, receive_block_known, receive_block_unknown,
}
use motte_seed.Peer.Piece.Steps.{Reach, IsSound, Reach-IsSound, IsFresh-IsSound}

module _ (sha1 : Bytes → Bytes) where
  pub handed_out :
      (p : Piece)
      → IsSound sha1 p
      → (bytes : Bytes) → get_piece_data p ≡ some (some bytes)
      → (p.state ≡ complete) × (contents p.blocks ≡ some bytes)
  unfolding is_verified
  handed_out p s bytes g = ground (arith, get_piece_data_lem sha1 p s.laid)

  pub receive_block-ne-none :
      (p : Piece)
      → IsSound sha1 p
      → (offset : ℕ) (bytes : Bytes) → length bytes < 2 ^ 32
      → receive_block sha1 p offset bytes ≢ none
  receive_block-ne-none p s offset bytes short q = elim (Option-cases (get p.blocks offset)) [
    | inl n ↦ cc (q, receive_block_unknown sha1 p s.laid offset bytes short n)
    | inr (b, k) ↦ cc (q, receive_block_known sha1 p s.laid offset bytes short b k)
  ]

  module _ (index len : ℕ) (hash : Bytes) (block_size : ℕ) (fresh p : Piece) (wide : 0 < block_size)
      (narrow : block_size < 2 ^ 32) (short : len < 2 ^ 32)
      (made : new index len hash block_size ≡ some fresh) (calls : Reach sha1 fresh p) where
    reached : IsSound sha1 p × (p.hash ≡ hash) × (p.length ≡ len)
    reached =
        let (q, m, f) = new-IsFresh index len hash block_size wide short in
        let same : q ≡ fresh = cc (m, made) in
        let f' : IsFresh len hash block_size fresh = subst (IsFresh len hash block_size) same f in
        let (s, n) =
          Reach-IsSound sha1 calls
            (IsFresh-IsSound sha1 len hash block_size fresh wide narrow short f') in
        (s, n.hash ∙ f'.hash_is, n.length ∙ f'.length_is)

    -- For a piece made by `Piece::new` from a digest and a length below 2^32, with blocks of one byte
    -- up to 2^32 - 1, and for each sequence of calls of its methods: what `get_piece_data` then
    -- returns, if it returns bytes, has that digest and that length.
    pub get_piece_data_integrity :
        (bytes : Bytes)
        → get_piece_data p ≡ some (some bytes)
        → (sha1 bytes ≡ hash) × (length bytes ≡ len)
    get_piece_data_integrity bytes g =
        let (s, h, l) = reached in
        let (c, e) = handed_out p s bytes g in
        (
          s.checked c bytes e ∙ h,
          omega (
            arith,
            length-contents p.block_size p.length 0 p.blocks bytes s.laid.tiled s.laid.fits e,
            l,
          ),
        )

    -- On every piece that is reached so, `verify`, `get_piece_data` and `receive_block` of a block
    -- below 2^32 bytes end: their loops do not run out of rounds.
    pub methods_end :
        (verify sha1 p ≢ none)
        × (get_piece_data p ≢ none)
        × ((offset : ℕ) (bytes : Bytes)
            → length bytes < 2 ^ 32
            → receive_block sha1 p offset bytes ≢ none)
    methods_end =
        let (s, _, _) = reached in
        (
          (λ q. cc (q, verify_lem sha1 p s.laid)),
          (λ q. cc (q, get_piece_data_lem sha1 p s.laid)),
          receive_block-ne-none p s,
        )
