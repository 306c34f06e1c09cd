-- ===== src/Tests/Mains.antt =====
-- The theorems about `main` at concrete inputs.

use motte_seed.Prelude.{length, ℕ, ◌≡◌, refl, true, false, List, [], ◌∷◌, none, some, ok, replicate}
use motte_seed.Prelude.Text.{codes}
use motte_seed.Prelude.Assoc.{insert}
use motte_seed.Bytes.{bytes_eq, has, starts_with}
use motte_seed.Util.Bencode.{find, get_u64, get_str, get_struct, get_struct_value, get_string}
use motte_seed.Torrent
use motte_seed.Torrent.{
  Torrent, single_file, piece_hash, decode_torrent, decode_info, decode_file_details, from_bytes,
}
use motte_seed.Disk
use motte_seed.Disk.{DiskIo}
use motte_seed.Tracker.Http
use motte_seed.Tracker.Udp.{chunks}
use motte_seed.Tracker.Factory
use motte_seed.Tracker.Manager
use motte_seed.Peer.Block
use motte_seed.Peer.Block.{PeerIp}
use motte_seed.Peer.Piece
use motte_seed.Peer.PieceManager
use motte_seed.Peer.Id.{get_peer_id}
use motte_seed.Peer.Connection
use motte_seed.Peer.Connection.{PeerConnection, PeerEvent, peer_unchoked}
use motte_seed.Peer.DownloadManager
use motte_seed.Peer.DownloadManager.{DownloadManager, Peers, run}
use motte_seed.Peer.Manager as Connections
use motte_seed.Peer.Manager.{PeerManager, Task, running, add_peer, update}
use motte_seed.Peer.Manager.Steps.{Reached, ips}
use motte_seed.Main.{add_peers, World, started, find_peers, start, start_download, total_size}
use motte_seed.Prelude.{min, All}
use motte_seed.Bytes.Distinct.{IsDistinct}
use motte_seed.Main.Setup.{pool, start-tasks, start-run}
use motte_seed.Tests.Disks.{memory}
use motte_seed.Tests.Pieces.{any_order}
use motte_seed.Tests.Torrents.{crate, lossy, digest, a_torrent}
use motte_seed.Tests.Http.{web, net, moment}
use motte_seed.Tests.Connections.{F, ip}

abbrev world : World web crate net
world = record {
  content = ok [];
  sha1 = digest;
  lossy = lossy;
  is_utf8 = λ bytes. true;
  created = none;
  draws = λ i. 40;
  creates = λ i. moment;
  polls = λ i. moment;
  pool_order = record {
    iter = λ set. set;
    has-iter = λ set b. refl;
    length-iter = λ set. refl;
    iter-IsDistinct = λ set d. d;
  };
}

reads_torrent : Torrent.from_file crate digest lossy (ok []) ≡ ok a_torrent
unfolding Torrent.from_file from_bytes decode_torrent decode_info decode_file_details get_struct
    get_struct_value get_str get_string get_u64 find bytes_eq
reads_torrent = refl

found : find_peers web crate net world a_torrent ≡ (10 ∷ 0 ∷ 0 ∷ 2 ∷ 4 ∷ 5 ∷ []) ∷ ip ∷ []
unfolding find_peers Manager.new Manager.get_all_peers_vec Manager.poll_all_trackers Manager.poll
    Manager.insert_all Manager.insert Manager.create_all Manager.announce_urls
    Factory.create_tracker Factory.get_peers Factory.determine_type starts_with has Http.new
    Http.new_request Http.announce Http.build_url Http.fetch_from Http.decode_response
    Http.get_peers Http.announce_again Http.to_peers chunks get_struct get_struct_value get_str
    get_u64 find bytes_eq total_size
found = refl

abbrev started_manager : DownloadManager
started_manager = record {
  piece_manager = record {
    pieces =
        (
          0,
          record {
            index = 0;
            length = 16;
            hash = replicate 20 3;
            blocks = (0, record { index = 0; offset = 0; length = 16; state = Block.missing }) ∷ [];
            state = Piece.missing;
            block_size = 16384;
            priority = 1;
          },
        )
        ∷ [];
    block_size = 16384;
  };
  peers = [];
  disk_io = some (record {
    base_path = codes "." ∷ codes "downloads" ∷ [];
    file_details = single_file 16;
    piece_length = 16;
    files = replicate 16 0 ∷ [];
    total_size = 16;
  });
  sent = [];
}

abbrev started_peers : PeerManager F
started_peers =
    add_peer
      (add_peer (Connections.new (get_peer_id (λ i. 40)) a_torrent.info_hash)
        (10 ∷ 0 ∷ 0 ∷ 2 ∷ 4 ∷ 5 ∷ []) none)
      ip none

disk_made :
    Disk.new memory (λ bytes. true) none (codes "." ∷ codes "downloads" ∷ []) (single_file 16) 16
    ≡ ok (record {
      base_path = codes "." ∷ codes "downloads" ∷ [];
      file_details = single_file 16;
      piece_length = 16;
      files = replicate 16 0 ∷ [];
      total_size = 16;
    })
unfolding Disk.new
disk_made = refl

starts_up : start web crate net memory world ≡ started started_manager started_peers
unfolding start start_download DownloadManager.new DownloadManager.set_disk_io PieceManager.new
    PieceManager.new_pieces piece_hash Piece.new Piece.new_blocks insert Block.new add_peers
starts_up = rw (reads_torrent, start, found, start_download, disk_made) refl

start-tasks_example :
    (torrent : Torrent) × (Torrent.from_file crate digest lossy (ok []) ≡ ok torrent)
    × (length (ips started_peers.tasks) ≡ min (length (pool web crate net world torrent)) 10)
    × All (λ k. has (pool web crate net world torrent) k ≡ true) (ips started_peers.tasks)
    × IsDistinct (ips started_peers.tasks)
    × Reached (get_peer_id (λ i. 40)) torrent.info_hash started_peers
start-tasks_example = start-tasks web crate net memory world started_manager started_peers starts_up

abbrev unchoke_events : List (PeerEvent F × PeerIp × ℕ)
unchoke_events = (peer_unchoked, ip, 3) ∷ []

runs_silent :
    run digest memory (λ m. m) any_order started_manager unchoke_events
    ≡ some (started_manager, false)
unfolding run DownloadManager.handle_event DownloadManager.handle_unchoke
    DownloadManager.request_pieces_from_peer DownloadManager.get_peer_available_pieces
    DownloadManager.find_peer PieceManager.get_next_piece_to_download
    PieceManager.is_download_complete Piece.is_complete
runs_silent = refl

start-run_example : ◌≡◌ {A = List (PeerIp × Connection.ManagerCommand)} [] []
start-run_example =
    start-run web crate net memory world (λ m. m) any_order started_manager started_manager
      started_peers unchoke_events false refl starts_up runs_silent
