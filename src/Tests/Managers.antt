-- ===== src/Tests/Managers.antt =====
-- The theorems about the managers and the pieces at concrete inputs.
use motte_seed.Bytes.{Bytes}
use motte_seed.Prelude.{
  length, ◌≤◌, ◌/◌, ℕ, ◌+◌, ◌%◌, ◌^◌, ◌≡◌, ◌≢◌, ◌<◌, ◌↔◌, ◌⊎◌, refl, true, [], ◌∷◌, ◌++◌, none,
  some, arith, replicate,
}
use motte_seed.Prelude.Assoc.{get, insert, adjust}
use motte_seed.Bytes.{bytes_eq}
use motte_seed.Torrent.{Info, single_file, piece_hash}
use motte_seed.Disk.{DiskIo, write_piece}
use motte_seed.Peer.Block
use motte_seed.Peer.Block.{Block, PeerIp}
use motte_seed.Peer.Piece
use motte_seed.Peer.Piece.{Piece}
use motte_seed.Peer.Piece.Layout.{new_blocks_endless}
use motte_seed.Peer.PieceManager
use motte_seed.Peer.PieceManager.{
  PieceManager, new_pieces, get_next_piece_to_download, get_next_block_for_piece, get_piece_data,
  mark_piece_written, is_download_complete,
}
use motte_seed.Peer.PieceManager.Creation.{new-HasPiece}
use motte_seed.Peer.PieceManager.Selection.{OneOf, IsWanted}
use motte_seed.Peer.State.{bit_of}
use motte_seed.Peer.Connection.{have_piece, request_block}
use motte_seed.Peer.DownloadManager
use motte_seed.Peer.DownloadManager.{
  DownloadManager, Peers, bitfield_pieces, find_peer, get_peer_available_pieces, handle_bitfield,
  handle_unchoke, handle_recieve_piece, send_all, mark_have,
}
use motte_seed.Peer.DownloadManager.Have.{mark_have-bit_of}
use motte_seed.Peer.DownloadManager.Bitfield.{bitfield_pieces-bit_of}
use motte_seed.Peer.DownloadManager.Unchoke.{handle_unchoke_lem}
use motte_seed.Peer.Block
use motte_seed.Peer.Block.{requested}
use motte_seed.Peer.Piece.{is_fully_downloaded}
use motte_seed.Peer.Piece.NextBlock.{IsEntry}
use motte_seed.Prelude.Assoc.{adjust, insert, get}
use motte_seed.Prelude.{All, true, false}
use motte_seed.Tests.Disks.{memory}
use motte_seed.Tests.Pieces.{any_order, first_byte, fresh, half, full}

new_blocks_endless_example : Piece.new_blocks 5 0 (2 ^ 32 + 7) 16384 3 [] ≡ none
new_blocks_endless_example =
    new_blocks_endless 0 (2 ^ 32 + 7) 16384 5 3 [] (omega arith) (omega arith)

abbrev manager : PieceManager
manager = record { pieces = (0, half) ∷ []; block_size = 2 }

abbrev pub one_hash : Info
one_hash = record {
  name = "name";
  piece_length = 3;
  raw_pieces = replicate 20 7;
  file_details = single_file 3;
  private = none;
  source = none;
}

abbrev pub made : PieceManager
made = record { pieces = (0, record fresh { hash = replicate 20 7 }) ∷ []; block_size = 2 }

pub makes : PieceManager.new one_hash 2 ≡ some made
unfolding PieceManager.new new_pieces piece_hash Piece.new Piece.new_blocks insert Block.new
makes = refl

new-HasPiece_example :
    (0 < length one_hash.raw_pieces / 20
      → (hash : Bytes) × (p : Piece) × (piece_hash one_hash 0 ≡ some hash)
        × (Piece.new 0 one_hash.piece_length hash 2 ≡ some p)
        × (get made.pieces 0 ≡ some p))
    × (length one_hash.raw_pieces / 20 ≤ 0 → get made.pieces 0 ≡ none)
new-HasPiece_example = new-HasPiece one_hash 2 (omega arith) makes 0

bitfield_pieces-bit_of_example :
    OneOf 9 (bitfield_pieces 0 (128 ∷ 64 ∷ [])) ↔ (bit_of (128 ∷ 64 ∷ []) 9 ≡ true)
bitfield_pieces-bit_of_example = bitfield_pieces-bit_of (128 ∷ 64 ∷ []) 9 (omega arith)

abbrev pub ip : PeerIp
ip = 10 ∷ 0 ∷ 0 ∷ 1 ∷ 4 ∷ 5 ∷ []

abbrev pub disk : DiskIo
disk = record {
  base_path = [];
  file_details = single_file 3;
  piece_length = 3;
  files = (0 ∷ 0 ∷ 0 ∷ []) ∷ [];
  total_size = 3;
}

abbrev downloading : DownloadManager
downloading = record {
  piece_manager = manager;
  peers = (ip, some (128 ∷ [])) ∷ [];
  disk_io = some disk;
  sent = [];
}

handle_unchoke_lem_example :
    (All (λ i. ¬ IsWanted manager i) (get_peer_available_pieces downloading ip)
      × (handle_unchoke any_order downloading ip 8 ≡ downloading))
    ⊎ ((i : ℕ) × (p : Piece) × OneOf i (get_peer_available_pieces downloading ip)
        × (get manager.pieces i ≡ some p)
        × (Piece.is_complete p ≡ false)
        × (((is_fully_downloaded p ≡ true)
              × (handle_unchoke any_order downloading ip 8 ≡ downloading))
            ⊎ ((offset : ℕ) × (b c : Block) × IsEntry (offset, b) p.blocks
                × (Block.is_complete b ≡ false)
                × (get p.blocks offset ≡ some c)
                × ((handle_unchoke any_order downloading ip 8).sent
                    ≡ [] ++ ((ip, request_block i (offset % 2 ^ 32) c.length) ∷ []))
                × ((handle_unchoke any_order downloading ip 8).piece_manager.pieces
                    ≡ insert manager.pieces i (record p {
                      blocks = adjust p.blocks offset (λ x. record x { state = requested ip 8 });
                    })))))
handle_unchoke_lem_example = handle_unchoke_lem any_order downloading ip 8

abbrev stored : DownloadManager
stored = record {
  piece_manager = record {
    pieces = (0, record full { state = Piece.written }) ∷ [];
    block_size = 2;
  };
  peers = (ip, some (128 ∷ [])) ∷ [];
  disk_io = some (record disk { files = (7 ∷ 8 ∷ 9 ∷ []) ∷ [] });
  sent = (ip, have_piece 0) ∷ [];
}

stores : handle_recieve_piece first_byte memory (λ m. m) downloading 0 2 (9 ∷ []) ≡ some stored
unfolding handle_recieve_piece DownloadManager.finish_piece DownloadManager.store_piece
    DownloadManager.broadcast_have send_all PieceManager.receive_block get_piece_data
    mark_piece_written Piece.receive_block Piece.is_fully_downloaded Piece.verify Piece.combine
    Piece.get_piece_data Piece.collect Piece.is_complete Piece.mask_written Block.receive_data
    Block.is_complete write_piece get insert adjust bytes_eq
stores = refl

mark_have-bit_of_example :
    (9 / 8 < 2
      → (bit_of (mark_have (128 ∷ 0 ∷ []) 9) 9 ≡ true)
        × ((j : ℕ) → 9 ≢ j → bit_of (mark_have (128 ∷ 0 ∷ []) 9) j ≡ bit_of (128 ∷ 0 ∷ []) j))
    × (2 ≤ 9 / 8 → mark_have (128 ∷ 0 ∷ []) 9 ≡ 128 ∷ 0 ∷ [])
mark_have-bit_of_example = mark_have-bit_of (128 ∷ 0 ∷ []) 9 (omega arith)
