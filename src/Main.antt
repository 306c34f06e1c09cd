-- ===== src/Main.antt =====
-- src/main.rs: how the program puts its parts together. What it prints is left out. The file system, the
-- network, the clock and the generator are parameters, as in the parts. `main` is in two steps: `start`
-- up to the loop of the download manager, and the loop with the two counts that are printed after it.
pub mod Setup
use Prim.Native.String.{String}
use motte_seed.Prelude.{
  Bool, ℕ, ◌+◌, ◌%◌, ◌^◌, min, Bool, Option, none, some, List, [], ◌∷◌, ◌++◌, Result, ok, err,
  length, take,
}
use motte_seed.Prelude.Assoc.{HashOrder}
use motte_seed.Prelude.Text.{codes}
use motte_seed.Bytes.{Bytes}
use motte_seed.Torrent
use motte_seed.Torrent.{Torrent, FileEntry, FileDetails, single_file, multi_file, ReadTorrentError}
use motte_seed.Util.Bencode.{Crate}
use motte_seed.Disk
use motte_seed.Disk.{DiskIo, DiskError, FileSystem}
use motte_seed.Tracker.Http.{Web}
use motte_seed.Tracker.Udp.Client.{Net}
use motte_seed.Tracker.Factory.{Moment}
use motte_seed.Tracker.Manager
use motte_seed.Tracker.Manager.{TrackerManager, SetOrder, poll_all_trackers, get_all_peers_vec}
use motte_seed.Peer.Id.{get_peer_id}
use motte_seed.Peer.Block.{Block, PeerIp}
use motte_seed.Peer.Connection.{PeerEvent}
use motte_seed.Peer.Piece.{Piece}
use motte_seed.Peer.PieceManager.{get_completed_pieces, is_download_complete}
use motte_seed.Peer.DownloadManager
use motte_seed.Peer.DownloadManager.{DownloadManager, Peers, set_disk_io, run}
use motte_seed.Peer.Manager as Connections
use motte_seed.Peer.Manager.{PeerManager, add_peer}

-- `sum` of `u64`, which wraps in a release build.
unfoldable pub sum_lengths : List FileEntry → ℕ
sum_lengths [] = 0
sum_lengths (f ∷ files) = (f.length + sum_lengths files) % 2 ^ 64

unfoldable pub total_size : FileDetails → ℕ
total_size (single_file n) = n
total_size (multi_file files) = sum_lengths files

-- `add_peer` for each of the peers, without a bitfield.
unfoldable pub add_peers : {F : Type 0} → PeerManager F → List PeerIp → PeerManager F
add_peers m [] = m
add_peers m (peer_ip ∷ rest) = add_peers (add_peer m peer_ip none) rest

-- How `main` gets to its loop, or ends before it. `endless` is a torrent whose pieces cannot be laid
-- out, as `Peer.Piece` has it.
pub data Outcome (F : Type 0) : Type 0 where
  load_failed : ReadTorrentError → Outcome F
  no_peers : Outcome F
  disk_failed : DiskError → Outcome F
  endless : Outcome F
  started : DownloadManager → PeerManager F → Outcome F

-- What the runtime gives to `main`.
pub record World (web : Web) (crate : Crate) (net : Net) : Type 0 where
  pub content : Result Bytes String
  pub sha1 : Bytes → Bytes
  pub lossy : Bytes → String
  pub is_utf8 : Bytes → Bool
  pub created : Option String
  pub draws : ℕ → ℕ
  -- The calls that create the trackers, and those that poll them.
  pub creates : ℕ → Moment web crate net
  pub polls : ℕ → Moment web crate net
  pub pool_order : SetOrder

module _ (web : Web) (crate : Crate) (net : Net) where
  -- The pool after the trackers of the `announce` URL have been asked.
  unfoldable pub find_peers : World web crate net → Torrent → List PeerIp
  find_peers w torrent = get_all_peers_vec w.pool_order (
      poll_all_trackers web crate net w.polls (
        Manager.new web crate net w.creates torrent.announce none torrent.info_hash
          (get_peer_id w.draws) (total_size (torrent.info).file_details) 6881))

module _ (web : Web) (crate : Crate) (net : Net) (fs : FileSystem) {F : Type 0} where
  unfoldable pub start_download : World web crate net → Torrent → List PeerIp → Outcome F
  start_download w torrent peers =
      elim (Disk.new fs w.is_utf8 w.created (codes "." ∷ codes "downloads" ∷ [])
        (torrent.info).file_details ((torrent.info).piece_length % 2 ^ 32)) [
          | err e ↦ disk_failed e
          | ok disk ↦ elim (DownloadManager.new torrent.info 16384) [
            | none ↦ endless
            | some d ↦ started (set_disk_io d disk) (
                add_peers (Connections.new (get_peer_id w.draws) torrent.info_hash)
                  (take (min (length peers) 10) peers))
          ]
        ]

  unfoldable pub start : World web crate net → Outcome F
  start w = elim (Torrent.from_file crate w.sha1 w.lossy w.content) [
    | err e ↦ load_failed e
    | ok torrent ↦ elim (find_peers web crate net w torrent) [
      | [] ↦ no_peers
      | p ∷ rest ↦ start_download w torrent (p ∷ rest)
    ]
  ]

-- The loop over the events that arrive, with the number of pieces that are complete after it and
-- whether these are all. The result is `none` if the loop has not been left, as `run` has it.
module _ (sha1 : Bytes → Bytes) (fs : FileSystem) (peer_order : Peers → Peers) where
  unfoldable pub finish :
      {F : Type 0}
      → HashOrder Block
      → HashOrder Piece
      → DownloadManager
      → List (PeerEvent F × PeerIp × ℕ)
      → Option (ℕ × Bool)
  finish order visits d events = elim (run sha1 fs peer_order order d events) [
    | some (e, Bool.true) ↦
        some (
          length (get_completed_pieces visits e.piece_manager),
          is_download_complete e.piece_manager,
        )
    | _ ↦ none
  ]
