-- ===== src/Tests/Downloads.antt =====
-- A download of two pieces, which come in the other order, one of them twice, with a request between.
use motte_seed.Prelude.{
  inl, ℕ, zero, suc, ◌*◌, ◌≡◌, ◌<◌, refl, true, List, [], ◌∷◌, ◌++◌, none, some, arith, replicate,
}
use motte_seed.Bytes.{Bytes, bytes_eq}
use motte_seed.Torrent.{Info, single_file, piece_hash}
use motte_seed.Disk.{DiskIo}
use motte_seed.Disk.Whole.{piece_bytes}
use motte_seed.Peer.Block.{PeerIp}
use motte_seed.Peer.Piece.Delivery.{IsListed}
use motte_seed.Peer.PieceManager.{is_download_complete}
use motte_seed.Peer.DownloadManager
use motte_seed.Peer.PieceManager
use motte_seed.Prelude.Assoc
use motte_seed.Peer.Connection.{have_piece, PeerEvent, received_piece, peer_unchoked}
use motte_seed.Peer.DownloadManager.{DownloadManager, run, new, set_disk_io}
use motte_seed.Peer.DownloadManager.Events.{offsets}
use motte_seed.Peer.DownloadManager.Download.{Holds}
use motte_seed.Peer.DownloadManager.Created.{add_peers}
use motte_seed.Peer.DownloadManager.EndToEnd.{run-downloads}
use motte_seed.Disk
use motte_seed.Peer.Piece
use motte_seed.Peer.Piece.{Piece}
use motte_seed.Peer.Block
use motte_seed.Peer.Block.{BlockState}
use motte_seed.Prelude.{false, Bool, some, length}
use motte_seed.Peer.DownloadManager.{Peers, add_peer}
use motte_seed.Peer.DownloadManager.Checked.{run-IsGenuine, IsGenuine}
use motte_seed.Tests.Disks.{memory, memory-SetsLength}
use motte_seed.Prelude.{ok}
use motte_seed.Tests.Managers.{ip}
use motte_seed.Tests.Pieces.{any_order}
use motte_seed.Tests.Runs.{twenty, same_order}

abbrev torrent : Bytes
torrent = 7 ∷ 8 ∷ 9 ∷ 10 ∷ []

abbrev two_hashes : Info
two_hashes = record {
  name = "name";
  piece_length = 2;
  raw_pieces = replicate 20 7 ++ replicate 20 9;
  file_details = single_file 4;
  private = none;
  source = none;
}

abbrev empty : DiskIo
empty = record {
  base_path = [];
  file_details = single_file 4;
  piece_length = 2;
  files = (0 ∷ 0 ∷ 0 ∷ 0 ∷ []) ∷ [];
  total_size = 4;
}

opens : Disk.new memory (λ b. true) none [] (single_file 4) 2 ≡ ok empty
unfolding Disk.new
opens = refl

abbrev events : List (PeerEvent (Unit {0}) × PeerIp × ℕ)
events =
    (received_piece 1 0 (9 ∷ 10 ∷ []), ip, 1)
    ∷ (peer_unchoked, ip, 2)
    ∷ (received_piece 1 0 (9 ∷ 10 ∷ []), ip, 3)
    ∷ (received_piece 0 0 (7 ∷ 8 ∷ []), ip, 4)
    ∷ []

digests : (i : ℕ) → i < 2 → piece_hash two_hashes i ≡ some (twenty (piece_bytes torrent 2 i))
unfolding piece_hash
digests zero h = refl
digests (suc zero) h = refl
digests (suc (suc i)) h = absurd (omega arith)

all_come : (i j : ℕ) → i < 2 → j * 2 < 2 → IsListed (j * 2) (offsets events i)
all_come zero zero h k = inl refl
all_come (suc zero) zero h k = inl refl
all_come (suc (suc i)) j h k = absurd (omega arith)
all_come i (suc j) h k = absurd (omega arith)

run-downloads_example :
    (d : DownloadManager) × (e : DownloadManager) × (new two_hashes 2 ≡ some d)
    × (run twenty memory same_order any_order (set_disk_io (add_peers d (ip ∷ [])) empty) events
        ≡ some (e, true))
    × (is_download_complete e.piece_manager ≡ true)
    × Holds e (7 ∷ 8 ∷ 9 ∷ 10 ∷ [])
run-downloads_example =
    run-downloads twenty memory same_order any_order torrent two_hashes 2 2 (ip ∷ []) empty
      (λ b. true) none [] events (λ f o b. refl) memory-SetsLength (omega arith) (omega arith)
      (omega arith) (omega arith) (omega arith) refl refl digests opens
      (refl, (tt, (refl, (refl, tt)))) all_come

-- Peers that send a wrong block for the second piece, and the right one for the first.
abbrev mixed : List (PeerEvent (Unit {0}) × PeerIp × ℕ)
mixed = (received_piece 1 0 (1 ∷ 2 ∷ []), ip, 1) ∷ (received_piece 0 0 (7 ∷ 8 ∷ []), ip, 2) ∷ []

abbrev fresh_piece : ℕ → ℕ → Piece
fresh_piece i byte = record {
  index = i;
  length = 2;
  hash = replicate 20 byte;
  blocks = (0, record { index = i; offset = 0; length = 2; state = BlockState.missing }) ∷ [];
  state = Piece.missing;
  block_size = 2;
  priority = 1;
}

abbrev first_written : Piece
first_written = record (fresh_piece 0 7) {
  blocks =
      (0, record { index = 0; offset = 0; length = 2; state = BlockState.received (7 ∷ 8 ∷ []) })
      ∷ [];
  state = Piece.written;
}

abbrev at_start : DownloadManager
at_start = record {
  piece_manager = record {
    pieces = (0, fresh_piece 0 7) ∷ (1, fresh_piece 1 9) ∷ [];
    block_size = 2;
  };
  peers = [];
  disk_io = none;
  sent = [];
}

starts_so : new two_hashes 2 ≡ some at_start
unfolding new motte_seed.Peer.PieceManager.new motte_seed.Peer.PieceManager.new_pieces piece_hash
    Piece.new Piece.new_blocks motte_seed.Prelude.Assoc.insert motte_seed.Peer.Block.new
starts_so = refl

abbrev at_end : DownloadManager
at_end = record {
  piece_manager = record {
    pieces = (0, first_written) ∷ (1, fresh_piece 1 9) ∷ [];
    block_size = 2;
  };
  peers = (add_peer at_start ip).peers;
  disk_io = some (record empty { files = (7 ∷ 8 ∷ 0 ∷ 0 ∷ []) ∷ [] });
  sent = DownloadManager.send_all (add_peer at_start ip).peers (have_piece 0);
}

runs_so :
    run twenty memory same_order any_order (set_disk_io (add_peers at_start (ip ∷ [])) empty) mixed
    ≡ some (at_end, false)
unfolding run DownloadManager.handle_event DownloadManager.handle_recieve_piece
    DownloadManager.finish_piece DownloadManager.store_piece DownloadManager.broadcast_have
    PieceManager.receive_block PieceManager.get_piece_data PieceManager.mark_piece_written
    PieceManager.is_download_complete Assoc.get Assoc.insert Assoc.adjust Assoc.map_values
    set_disk_io add_peers add_peer Piece.receive_block Piece.is_fully_downloaded Piece.verify
    Piece.verify_if_full Piece.combine Piece.check_hash Piece.is_complete Piece.get_piece_data
    Piece.collect Piece.mask_written Block.is_complete Block.receive_data Block.cancle
    Disk.write_piece bytes_eq
runs_so = refl

done_is : Piece.is_complete first_written ≡ true
unfolding Piece.is_complete
done_is = refl

first_known : Assoc.get at_end.piece_manager.pieces 0 ≡ some first_written
unfolding Assoc.get
first_known = refl

run-IsGenuine_example :
    (file : Bytes) × Holds at_end file
    × (length file ≡ 2 * 2)
    × IsGenuine twenty two_hashes 0 (piece_bytes file 2 0)
run-IsGenuine_example =
    run-IsGenuine twenty memory same_order any_order two_hashes 2 2 (ip ∷ []) empty (λ b. true) none
      [] mixed at_start at_end false 0 first_written (λ f o b. refl) memory-SetsLength (omega arith)
      (omega arith) (omega arith) (omega arith) (omega arith) refl opens
      (omega arith, (omega arith, tt)) starts_so runs_so first_known done_is
