-- ===== src/Tests/Runs.antt =====
-- The theorems about whole runs of the download manager and of the disk at concrete inputs.
use motte_seed.Prelude.{
  ℕ, ◌+◌, ◌≡◌, ◌≤◌, ◌⊎◌, refl, List, [], ◌∷◌, ◌++◌, none, some, arith, replicate, ok,
}
use motte_seed.Bytes.{Bytes}
use motte_seed.Disk.{DiskIo, write_piece, read_piece, piece_size}
use motte_seed.Disk.Store.{read_piece-write_pieces, write_pieces, stored, content}
use motte_seed.Peer.Block.{PeerIp}
use motte_seed.Peer.PieceManager.Data.{IsPieceData}
use motte_seed.Peer.Connection.{PeerEvent, received_piece, peer_unchoked, have_piece}
use motte_seed.Peer.DownloadManager
use motte_seed.Peer.DownloadManager.{
  DownloadManager, Peers, add_peer, set_disk_io, insert_peer, handle_event, run, send_all,
}
use motte_seed.Peer.DownloadManager.Reach.{
  Reached, created, with_peer, with_disk, handle_event-announces,
}
use motte_seed.Peer.DownloadManager.Loop.{Handles, run_leaves}
use motte_seed.Peer.PieceManager.{is_download_complete}
use motte_seed.Peer.DownloadManager.{run_closed}
use motte_seed.Prelude.{true, false}
use motte_seed.Tests.Disks.{memory, empty_disk, disk_of}
use motte_seed.Tests.Managers.{one_hash, made, makes, ip, disk}
use motte_seed.Tests.Pieces.{any_order}

-- A digest of 20 bytes: the first byte, over and over.
abbrev pub twenty : Bytes → Bytes
twenty [] = replicate 20 0
twenty (b ∷ bytes) = replicate 20 b

abbrev pub same_order : Peers → Peers
same_order m = m

abbrev start : DownloadManager
start = record { piece_manager = made; peers = []; disk_io = none; sent = [] }

starts : DownloadManager.new one_hash 2 ≡ some start
unfolding DownloadManager.new
starts = rw (makes, DownloadManager.new) refl

abbrev ready : DownloadManager
ready = set_disk_io (add_peer start ip) disk

reaches : Reached twenty memory same_order any_order one_hash (Unit {0}) 2 ready
reaches = with_disk disk (with_peer ip (created starts))

handle_event-announces_example :
    (e : DownloadManager) × (handle_event twenty memory same_order {F = Unit {0}} any_order ready
        (received_piece 0 0 (7 ∷ 8 ∷ []))
        ip
        4
      ≡ some e)
    × ((e.sent ≡ ready.sent)
        ⊎ ((d : DiskIo) × (bytes : Bytes) × (files : List Bytes) × (ready.disk_io ≡ some d)
            × IsPieceData twenty one_hash 0 bytes
            × (write_piece memory d 0 bytes ≡ (files, none))
            × (e.sent ≡ ready.sent ++ send_all (same_order ready.peers) (have_piece 0))))
handle_event-announces_example =
    handle_event-announces twenty memory same_order any_order one_hash 2 (omega arith) (omega arith)
      (omega arith) (omega arith) ready 0 0 (7 ∷ 8 ∷ []) ip 4 reaches (omega arith)

abbrev events : List (PeerEvent (Unit {0}) × PeerIp × ℕ)
events =
    (peer_unchoked, ip, 3)
    ∷ (received_piece 0 0 (7 ∷ 8 ∷ []), ip, 4)
    ∷ (received_piece 0 2 (9 ∷ []), ip, 5)
    ∷ []

unfinished : is_download_complete ready.piece_manager ≡ false
unfolding is_download_complete set_disk_io add_peer motte_seed.Peer.Piece.is_complete
unfinished = refl

run_leaves_example :
    (e : DownloadManager) × Reached twenty memory same_order any_order one_hash (Unit {0}) 2 e
    × (((run twenty memory same_order any_order ready events ≡ some (e, true))
          × (is_download_complete e.piece_manager ≡ true)
          × (front rest : List (PeerEvent (Unit {0}) × PeerIp × ℕ)) × (c : DownloadManager)
          × (event : PeerEvent (Unit {0})) × (from : PeerIp) × (now : ℕ) × (events
              ≡ front ++ (event, from, now) ∷ rest)
          × Handles twenty memory same_order any_order (Unit {0}) ready front c
          × (handle_event twenty memory same_order any_order c event from now ≡ some e))
        ⊎ ((run twenty memory same_order any_order ready events ≡ some (e, false))
            × Handles twenty memory same_order any_order (Unit {0}) ready events e
            × (is_download_complete e.piece_manager ≡ false)
            × ((rounds : ℕ) → run_closed rounds e ≡ none)))
run_leaves_example =
    run_leaves twenty memory same_order any_order one_hash 2 (omega arith) (omega arith)
      (omega arith) (omega arith) events ready reaches unfinished
      (tt, (omega arith, (omega arith, tt)))

abbrev both : List (ℕ × Bytes)
both = (1, 5 ∷ 6 ∷ []) ∷ (0, 1 ∷ 2 ∷ []) ∷ []

writes_both : write_pieces memory empty_disk both ≡ some (disk_of (1 ∷ 2 ∷ 5 ∷ 6 ∷ []))
unfolding write_piece
writes_both = refl

reads_both : read_piece memory (disk_of (1 ∷ 2 ∷ 5 ∷ 6 ∷ [])) 1 ≡ ok (5 ∷ 6 ∷ [])
unfolding read_piece piece_size
reads_both = refl

full_second : 2 ≡ piece_size empty_disk 1
unfolding piece_size
full_second = refl

full_first : 2 ≡ piece_size empty_disk 0
unfolding piece_size
full_first = refl

in_file : 2 + piece_size empty_disk 1 ≤ 4
unfolding piece_size
in_file = omega arith

read_piece-write_pieces_example :
    5 ∷ 6 ∷ [] ≡ stored both (content empty_disk (0 ∷ 0 ∷ 0 ∷ 0 ∷ [])) 1
read_piece-write_pieces_example =
    read_piece-write_pieces memory both empty_disk (disk_of (1 ∷ 2 ∷ 5 ∷ 6 ∷ []))
      (0 ∷ 0 ∷ 0 ∷ 0 ∷ []) 1 (5 ∷ 6 ∷ []) (4, refl, refl)
      (((omega arith, omega arith), full_second), (((omega arith, omega arith), full_first), tt))
      (omega arith, omega arith) in_file writes_both reads_both
