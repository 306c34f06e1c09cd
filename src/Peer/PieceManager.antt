-- ===== src/Peer/PieceManager.antt =====
-- src/core/peer/piece/piece_manager.rs: all pieces of a torrent, and the choice of what to download.
-- Of the torrent a manager uses the `info` alone, at its creation. Where the code cannot end the
-- model has `none`, as in `Piece`.
pub mod Selection
pub mod Creation
pub mod Genuine
pub mod Data
use motte_seed.Prelude.{
  ℕ, zero, suc, ◌+◌, ◌/◌, ◌%◌, ◌^◌, Bool, true, false, Option, none, some, List, [], ◌∷◌, not,
  if◌then◌else◌, ◌||◌, all, length,
}
use motte_seed.Prelude.Assoc.{HashMap, HashOrder, get, insert, adjust}
use motte_seed.Bytes.{Bytes}
use motte_seed.Torrent.{Info, piece_hash}
use motte_seed.Peer.Block.{Block, PeerIp}
use motte_seed.Peer.Piece
use motte_seed.Peer.Piece.{Piece, PieceState}

pub record PieceManager : Type 0 where
  pub pieces : HashMap Piece
  pub block_size : ℕ

-- The pieces `index`, `index + 1`, … for as many digests as are left.
unfoldable pub new_pieces : ℕ → ℕ → Info → ℕ → HashMap Piece → Option (HashMap Piece)
new_pieces zero index info block_size pieces = some pieces
new_pieces (suc n) index info block_size pieces = elim (piece_hash info index) [
  | none ↦ new_pieces n (index + 1) info block_size pieces
  | some hash ↦ elim (Piece.new (index % 2 ^ 32) info.piece_length hash block_size) [
    | none ↦ none
    | some piece ↦ new_pieces n (index + 1) info block_size (insert pieces (index % 2 ^ 32) piece)
  ]
]

unfoldable pub new : Info → ℕ → Option PieceManager
new info block_size = elim (new_pieces (length info.raw_pieces / 20) 0 info block_size []) [
  | none ↦ none
  | some pieces ↦ some (record { pieces = pieces; block_size = block_size })
]

is_wanted : PieceState → Bool
is_wanted Piece.missing = true
is_wanted Piece.incomplete = true
is_wanted _ = false

wanted_at : Option Piece → Bool
unfolding is_wanted
wanted_at none = false
wanted_at (some piece) = is_wanted piece.state

unfoldable pub get_next_piece_to_download : PieceManager → List ℕ → Option ℕ
unfolding wanted_at
get_next_piece_to_download m [] = none
get_next_piece_to_download m (index ∷ rest) =
    if wanted_at (get m.pieces index) then some index else get_next_piece_to_download m rest

block_at : Piece → Option ℕ → Option (ℕ × ℕ)
block_at piece none = none
block_at piece (some offset) = elim (get piece.blocks offset) [
  | none ↦ none
  | some block ↦ some (offset, block.length)
]

unfoldable pub get_next_block_for_piece : HashOrder Block → PieceManager → ℕ → Option (ℕ × ℕ)
unfolding block_at
get_next_block_for_piece order m piece_index = elim (get m.pieces piece_index) [
  | none ↦ none
  | some piece ↦ block_at piece (Piece.get_next_missing_block order piece)
]

unfoldable pub request_block : PieceManager → ℕ → ℕ → PeerIp → ℕ → PieceManager
request_block m piece_index offset peer_ip now = record m {
  pieces = adjust m.pieces piece_index (λ p. Piece.request_from_peer p offset peer_ip now);
}

-- The result says whether the piece is complete afterwards.
unfoldable pub receive_block :
    (Bytes → Bytes) → PieceManager → ℕ → ℕ → Bytes → Option (PieceManager × Bool)
receive_block sha1 m piece_index offset bytes = elim (get m.pieces piece_index) [
  | none ↦ some (m, false)
  | some piece ↦ elim (Piece.receive_block sha1 piece offset bytes) [
    | none ↦ none
    | some r ↦
        some (record m { pieces = insert m.pieces piece_index (r.0) }, Piece.is_complete (r.0))
  ]
]

unfoldable pub mark_piece_written : PieceManager → ℕ → PieceManager
mark_piece_written m piece_index = record m {
  pieces = adjust m.pieces piece_index Piece.mask_written;
}

unfoldable pub get_piece_data : PieceManager → ℕ → Option (Option Bytes)
get_piece_data m piece_index = elim (get m.pieces piece_index) [
  | none ↦ some none
  | some piece ↦ Piece.get_piece_data piece
]

complete_indices : HashMap Piece → List ℕ
complete_indices [] = []
complete_indices ((index, piece) ∷ m) =
    let rest = complete_indices m in if Piece.is_complete piece then index ∷ rest else rest

unfoldable pub get_completed_pieces : HashOrder Piece → PieceManager → List ℕ
unfolding complete_indices
get_completed_pieces order m = complete_indices (order.iter m.pieces)

unfoldable pub is_download_complete : PieceManager → Bool
is_download_complete m = all (λ e. Piece.is_complete (e.1)) m.pieces
