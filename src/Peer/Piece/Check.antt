-- ===== src/Peer/Piece/Check.antt =====
-- `verify`, `receive_block` and `get_piece_data` on a piece whose blocks cover it: they end, and
-- what they gather are the contents of all blocks.
use motte_seed.Prelude.{
  ℕ, ◌^◌, ◌<◌, ◌≡◌, refl, true, false, Option, none, some, if◌then◌else◌, length, Bool-cases, inl,
  inr, Option-cases,
}
use motte_seed.Prelude.Assoc.{get, adjust}
use motte_seed.Bytes.{Bytes, bytes_eq, bytes_eq_sound}
use motte_seed.Peer.Block
use motte_seed.Peer.Block.{Block, BlockState, PeerIp}
use motte_seed.Peer.Piece.{
  is_verified, Piece, check_hash, verify, receive_block, is_fully_downloaded, verify_if_full,
  get_piece_data,
}
use motte_seed.Peer.Piece.Tiles.{Tiles-adjust, Tiles-map_values, keeps-receive, keeps-cancle}
use motte_seed.Peer.Piece.Contents.{contents, combine-all, collect-all}
use motte_seed.Peer.Piece.Invariant.{
  Fits, IsLaidOut, IsChecked, All-adjust, All-map_values, Fits-receive, Fits-cancle,
}

module _ (sha1 : Bytes → Bytes) (p : Piece) (laid : IsLaidOut p) where
  -- What `verify` does to a piece whose blocks cover it: it gathers their bytes.
  pub verify_lem : verify sha1 p ≡ some (check_hash sha1 p (contents p.blocks))
  unfolding verify
  verify_lem = rw (combine-all p laid.narrow laid.wide laid.tiled laid.block_narrow, verify)

  pub get_piece_data_lem :
      get_piece_data p ≡ some (if is_verified p.state then contents p.blocks else none)
  unfolding get_piece_data
  get_piece_data_lem = elim (Bool-cases (is_verified p.state)) [
    | inl e ↦ rw e (collect-all p laid.narrow laid.wide laid.tiled)
    | inr e ↦ rw e refl
  ]

  pub check_hash-IsLaidOut : (o : Option Bytes) → IsLaidOut (check_hash sha1 p o).0
  unfolding check_hash
  check_hash-IsLaidOut none = laid
  check_hash-IsLaidOut (some buf) = elim (Bool-cases (bytes_eq (sha1 buf) p.hash)) [
    | inl e ↦ rw e (record {
      wide = laid.wide;
      block_narrow = laid.block_narrow;
      narrow = laid.narrow;
      tiled = laid.tiled;
      fits = laid.fits;
    })
    | inr e ↦ rw e (record {
      wide = laid.wide;
      block_narrow = laid.block_narrow;
      narrow = laid.narrow;
      tiled = Tiles-map_values _ _ _ p.blocks Block.cancle keeps-cancle laid.tiled;
      fits = All-map_values Fits p.blocks Block.cancle Fits-cancle laid.fits;
    })
  ]

  pub check_hash-IsChecked : IsChecked sha1 (check_hash sha1 p (contents p.blocks)).0
  unfolding check_hash
  check_hash-IsChecked = elim (Option-cases (contents p.blocks)) [
    | inl n ↦ rw n (λ c bytes e. cc (n, e))
    | inr (buf, q) ↦ elim (Bool-cases (bytes_eq (sha1 buf) p.hash)) [
      | inl e ↦ rw q (rw e (λ c bytes f. cc (q, f, bytes_eq_sound _ _ e)))
      | inr e ↦ rw q (rw e (λ c bytes f. cc))
    ]
  ]

-- The piece with a block's data handed to it, before the check.
abbrev pub stored : Piece → ℕ → Bytes → Piece
stored p offset bytes = record p {
  blocks = adjust p.blocks offset (λ b. Block.receive_data b bytes);
}

module _ (sha1 : Bytes → Bytes) (p : Piece) (laid : IsLaidOut p) (offset : ℕ) (bytes : Bytes)
    (short : length bytes < 2 ^ 32) where
  pub stored-IsLaidOut : IsLaidOut (stored p offset bytes)
  stored-IsLaidOut = record {
    wide = laid.wide;
    block_narrow = laid.block_narrow;
    narrow = laid.narrow;
    tiled =
        Tiles-adjust _ _ _ p.blocks offset (λ b. Block.receive_data b bytes) (keeps-receive bytes)
          laid.tiled;
    fits =
        All-adjust Fits p.blocks offset (λ b. Block.receive_data b bytes) (Fits-receive bytes short)
          laid.fits;
  }

  -- After a block is stored: the piece as it is, or as the check leaves it.
  abbrev pub settled : Piece
  settled =
      if is_fully_downloaded (stored p offset bytes)
      then (check_hash sha1 (stored p offset bytes) (contents (stored p offset bytes).blocks)).0
      else stored p offset bytes

  verify_if_full_lem : verify_if_full sha1 (stored p offset bytes) ≡ some (settled, true)
  unfolding verify_if_full
  verify_if_full_lem = elim (Bool-cases (is_fully_downloaded (stored p offset bytes))) [
    | inl e ↦ rw e (rw (verify_lem sha1 (stored p offset bytes) stored-IsLaidOut, verify_if_full))
    | inr e ↦ rw e refl
  ]

  pub receive_block_unknown :
      get p.blocks offset ≡ none → receive_block sha1 p offset bytes ≡ some (p, false)
  unfolding receive_block
  receive_block_unknown e = rw (e, receive_block)

  pub receive_block_known :
      (b : Block)
      → get p.blocks offset ≡ some b
      → receive_block sha1 p offset bytes ≡ some (settled, true)
  unfolding receive_block
  receive_block_known b e = rw (e, receive_block) verify_if_full_lem
