-- ===== src/Peer/PieceManager/Data.antt =====
-- The data that a manager of genuine pieces hands out, and that its methods end.
use motte_seed.Prelude.{ℕ, ◌^◌, ◌≡◌, ◌≢◌, ◌<◌, none, some, inl, inr, Option-cases, arith, length}
use motte_seed.Prelude.Assoc.{get}
use motte_seed.Bytes.{Bytes}
use motte_seed.Torrent.{Info, piece_hash}
use motte_seed.Peer.Piece
use motte_seed.Peer.Piece.{Piece}
use motte_seed.Peer.Piece.Invariant.{length-contents}
use motte_seed.Peer.Piece.Check.{get_piece_data_lem}
use motte_seed.Peer.Piece.Integrity.{handed_out, receive_block-ne-none}
use motte_seed.Peer.PieceManager.{PieceManager, receive_block, get_piece_data}
use motte_seed.Peer.PieceManager.Genuine.{IsGenuine, AllGenuine, All-get}

module _ (sha1 : Bytes → Bytes) (info : Info) where
  -- Bytes with the digest and the length of a piece of the torrent.
  abbrev pub IsPieceData : ℕ → Bytes → Type 0
  IsPieceData index bytes =
      (piece_hash info index ≡ some (sha1 bytes)) × (length bytes ≡ info.piece_length)

  pub get_piece_data-IsPieceData :
      (m : PieceManager) (index : ℕ) (bytes : Bytes)
      → AllGenuine sha1 info m
      → get_piece_data m index ≡ some (some bytes)
      → IsPieceData index bytes
  unfolding get_piece_data
  get_piece_data-IsPieceData m index bytes a h = elim (Option-cases (get m.pieces index)) [
    | inl n ↦ cc (rw (n, get_piece_data) at h)
    | inr (p, k) ↦
        let (s, d, l) = All-get (IsGenuine sha1 info) m.pieces index a k in
        let (c, e) = handed_out sha1 p s bytes (rw (k, get_piece_data) at h) in
        let digest : sha1 bytes ≡ p.hash = s.checked c bytes e in
        (
          cc (d, digest),
          omega (
            arith,
            length-contents p.block_size p.length 0 p.blocks bytes s.laid.tiled s.laid.fits e,
            l,
          ),
        )
  ]

  pub get_piece_data-ends :
      (m : PieceManager) (index : ℕ) → AllGenuine sha1 info m → get_piece_data m index ≢ none
  unfolding get_piece_data
  get_piece_data-ends m index a h = elim (Option-cases (get m.pieces index)) [
    | inl n ↦ cc (rw (n, get_piece_data) at h)
    | inr (p, k) ↦
        let (s, d, l) = All-get (IsGenuine sha1 info) m.pieces index a k in
        cc (rw (k, get_piece_data) at h, get_piece_data_lem sha1 p s.laid)
  ]

  pub receive_block-ends :
      (m : PieceManager) (index offset : ℕ) (bytes : Bytes)
      → AllGenuine sha1 info m
      → length bytes < 2 ^ 32
      → receive_block sha1 m index offset bytes ≢ none
  unfolding receive_block
  receive_block-ends m index offset bytes a short h = elim (Option-cases (get m.pieces index)) [
    | inl n ↦ cc (rw (n, receive_block) at h)
    | inr (p, k) ↦
        let (s, d, l) = All-get (IsGenuine sha1 info) m.pieces index a k in
        elim (Option-cases (Piece.receive_block sha1 p offset bytes)) [
          | inl n ↦ receive_block-ne-none sha1 p s offset bytes short n
          | inr (r, e) ↦ cc (rw (k, e, receive_block) at h)
        ]
  ]
