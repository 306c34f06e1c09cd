-- ===== src/Tests/Pieces.antt =====
-- Runs of the piece code, and the theorems about it at concrete inputs.
use motte_seed.Prelude.{ℕ, ◌≡◌, refl, List, [], ◌∷◌, some, none, false, true, arith, length}
use motte_seed.Peer.Piece.NextBlock.{IsEntry, get_next_missing_block_lem}
use motte_seed.Prelude.Assoc.{HashOrder, get, insert, adjust}
use motte_seed.Bytes.{Bytes, bytes_eq}
use motte_seed.Peer.Block
use motte_seed.Peer.Piece
use motte_seed.Peer.Piece.{Piece}
use motte_seed.Peer.Piece.Steps.{Reach, here, next, receive}
use motte_seed.Prelude.{inl, inr}
use motte_seed.Peer.Piece.Arrival.{deliver, deliver-completes}
use motte_seed.Peer.Piece.Integrity.{get_piece_data_integrity}

-- A digest for tests: the first byte.
abbrev pub first_byte : Bytes → Bytes
first_byte [] = []
first_byte (b ∷ bs) = b ∷ []

abbrev block_at : ℕ → ℕ → Block.BlockState → ℕ × Block.Block
block_at offset n state = (offset, record { index = 0; offset = offset; length = n; state = state })

abbrev piece_of : List (ℕ × Block.Block) → Piece.PieceState → Piece
piece_of blocks state = record {
  index = 0;
  length = 3;
  hash = 7 ∷ [];
  blocks = blocks;
  state = state;
  block_size = 2;
  priority = 1;
}

abbrev pub fresh : Piece
fresh = piece_of (block_at 0 2 Block.missing ∷ block_at 2 1 Block.missing ∷ []) Piece.missing

abbrev pub half : Piece
half =
    piece_of (block_at 0 2 (Block.received (7 ∷ 8 ∷ [])) ∷ block_at 2 1 Block.missing ∷ [])
      Piece.missing

abbrev pub full : Piece
full =
    piece_of
      (block_at 0 2 (Block.received (7 ∷ 8 ∷ [])) ∷ block_at 2 1 (Block.received (9 ∷ [])) ∷ [])
      Piece.complete

pub new-fresh : Piece.new 0 3 (7 ∷ []) 2 ≡ some fresh
unfolding Piece.new Piece.new_blocks insert Block.new
new-fresh = refl

pub receive_first : Piece.receive_block first_byte fresh 0 (7 ∷ 8 ∷ []) ≡ some (half, true)
unfolding Piece.receive_block Piece.is_fully_downloaded Block.receive_data Block.is_complete get
    adjust
receive_first = refl

pub receive_second : Piece.receive_block first_byte half 2 (9 ∷ []) ≡ some (full, true)
unfolding Piece.receive_block Piece.is_fully_downloaded Piece.verify Piece.combine
    Block.receive_data Block.is_complete get adjust bytes_eq
receive_second = refl

full_data : Piece.get_piece_data full ≡ some (some (7 ∷ 8 ∷ 9 ∷ []))
unfolding Piece.get_piece_data Piece.collect get
full_data = refl

abbrev pub downloads : Reach first_byte fresh full
downloads =
    next (next here (receive fresh 0 (7 ∷ 8 ∷ []) (omega arith) receive_first))
      (receive half 2 (9 ∷ []) (omega arith) receive_second)

get_piece_data_integrity_example :
    (first_byte (7 ∷ 8 ∷ 9 ∷ []) ≡ 7 ∷ []) × (length {A = ℕ} (7 ∷ 8 ∷ 9 ∷ []) ≡ 3)
get_piece_data_integrity_example =
    get_piece_data_integrity first_byte 0 3 (7 ∷ []) 2 fresh full (omega arith) (omega arith)
      (omega arith) new-fresh downloads (7 ∷ 8 ∷ 9 ∷ []) full_data

abbrev pub any_order : {V : Type 0} → HashOrder V
any_order = record { iter = λ m. m; visits_only = λ P m h. h; visits_all = λ P m h. h }

get_next_missing_block_lem_example :
    ((offset : ℕ)
      → Piece.get_next_missing_block any_order half ≡ some offset
      → (b : Block.Block) × IsEntry (offset, b) half.blocks × (Block.is_complete b ≡ false))
    × (Piece.get_next_missing_block any_order half ≡ none → Piece.is_fully_downloaded half ≡ true)
get_next_missing_block_lem_example = get_next_missing_block_lem any_order half

deliver-completes_example :
    (p : Piece) × (deliver first_byte (7 ∷ 8 ∷ 9 ∷ []) (2 ∷ 5 ∷ 2 ∷ 0 ∷ []) fresh ≡ some p)
    × (Piece.is_complete p ≡ true)
    × (Piece.get_piece_data p ≡ some (some (7 ∷ 8 ∷ 9 ∷ [])))
deliver-completes_example =
    deliver-completes first_byte (7 ∷ 8 ∷ 9 ∷ []) 0 2 (2 ∷ 5 ∷ 2 ∷ 0 ∷ []) fresh (omega arith)
      (omega arith) (omega arith) (omega arith) new-fresh
      (inr (inr (inr (inl refl))), (inl refl, tt))
