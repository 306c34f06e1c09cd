-- ===== src/Peer/DownloadManager/Created.antt =====
-- A download from its creation, whatever is known of the pieces: `DiskIO::new`, `DownloadManager::new`,
-- the peers, and `run`.
use Prim.Native.String.{String}
use motte_seed.Prelude.{
  ℕ, ◌*◌, ◌/◌, ◌^◌, ◌≡◌, ◌<◌, ◌∙◌, refl, sym, ap, Bool, Option, none, some, ok, List, [], ◌∷◌,
  length, All,
}
use motte_seed.Prelude.Assoc.{HashOrder}
use motte_seed.Bytes.{Bytes}
use motte_seed.Torrent.{Info, single_file, piece_hash}
use motte_seed.Disk
use motte_seed.Disk.{DiskIo, FileSystem}
use motte_seed.Disk.Created.{SetsLength, new-IsSingle}
use motte_seed.Disk.Whole.{NeverFails}
use motte_seed.Peer.Block.{Block, PeerIp}
use motte_seed.Peer.PieceManager.{is_download_complete}
use motte_seed.Peer.Connection.{PeerEvent}
use motte_seed.Peer.DownloadManager.{DownloadManager, Peers, new, add_peer, set_disk_io, run}
use motte_seed.Peer.DownloadManager.Start.{new-Rows}
use motte_seed.Peer.DownloadManager.Download.{new-IsDownloading}
use mathlib.Core.Path.{subst}
use motte_seed.Prelude.{false}
use motte_seed.Prelude.Rows.{Rows}
use motte_seed.Peer.Piece
use motte_seed.Peer.Piece.{Piece}
use motte_seed.Peer.PieceManager.{PieceManager}
use motte_seed.Peer.DownloadManager.Progress.{IsDownloading}
use motte_seed.Peer.DownloadManager.Handled.{Follows, run-IsDownloading}

-- The manager with peers added to it, one after the other.
unfoldable pub add_peers : DownloadManager → List PeerIp → DownloadManager
add_peers d [] = d
add_peers d (ip ∷ ips) = add_peers (add_peer d ip) ips

add_peers-pieces :
    (d : DownloadManager) (ips : List PeerIp) → (add_peers d ips).piece_manager ≡ d.piece_manager
unfolding add_peers add_peer
add_peers-pieces d [] = refl
add_peers-pieces d (ip ∷ ips) = add_peers-pieces (add_peer d ip) ips

-- A torrent of one file and its disk, a new manager with its peers, and any events: the run ends.
module _ (sha1 : Bytes → Bytes) (fs : FileSystem) (peer_order : Peers → Peers)
    (order : HashOrder Block) {F : Type 0} (info : Info) (s n : ℕ) (hashes : ℕ → Bytes)
    (Part : ℕ → Bytes → Type 0) (From : PeerEvent F → Type 0)
    (Known : List (PeerEvent F × PeerIp × ℕ) → ℕ → Piece → Type 0)
    (laws : Follows sha1 info.piece_length n Part From Known) (ips : List PeerIp) (disk : DiskIo)
    (is_utf8 : Bytes → Bool) (created : Option String) (base_path : List Bytes)
    (events : List (PeerEvent F × PeerIp × ℕ)) where
  -- How the run ends.
  abbrev pub Ends : Bool → DownloadManager → Type 0
  Ends left e =
      (rest : List (PeerEvent F × PeerIp × ℕ)) × IsDownloading info.piece_length n Part (Known rest)
        e
      × (is_download_complete e.piece_manager ≡ left)
      × (left ≡ false → rest ≡ [])

  pub run-created :
      NeverFails fs
      → SetsLength fs
      → 0 < n
      → 0 < info.piece_length
      → 0 < s
      → n * info.piece_length < 2 ^ 32
      → length info.raw_pieces / 20 ≡ n
      → ((i : ℕ) → i < n → piece_hash info i ≡ some (hashes i))
      → ((i : ℕ) (p : Piece)
          → i < n
          → Piece.new i info.piece_length (hashes i) s ≡ some p
          → Known events i p × (p.state ≡ Piece.missing))
      → Disk.new fs is_utf8 created base_path
          (single_file (n * info.piece_length))
          info.piece_length
        ≡ ok disk
      → All (λ e. From e.0) events
      → (d : DownloadManager) × (e : DownloadManager) × (left : Bool) × (new info s ≡ some d)
        × (run sha1 fs peer_order order (set_disk_io (add_peers d ips) disk) events
            ≡ some (e, left))
        × Ends left e
  unfolding new set_disk_io
  run-created never law pos wide block_wide small count digests start opened from =
      let (file, single, piece_length_is, total_is, size) =
        new-IsSingle fs is_utf8 created base_path (n * info.piece_length) info.piece_length disk law
          opened in
      let (m, made, rows, many) =
        new-Rows info s n hashes digests small wide block_wide
          (λ i p. ((i < n) × Known events i p) × (p.state ≡ Piece.missing))
          (λ i p l q. let (k, e) = start i p l q in ((l, k), e)) count in
      let d : DownloadManager = record {
        piece_manager = m;
        peers = [];
        disk_io = none;
        sent = [];
      } in
      let x : DownloadManager = set_disk_io (add_peers d ips) disk in
      let same : m ≡ x.piece_manager = sym (add_peers-pieces d ips) in
      let (w, open_still) =
        new-IsDownloading info.piece_length n Part (Known events) x disk file pos refl single
          piece_length_is total_is size
          (subst
            (λ (y : PieceManager).
              Rows (λ i p. ((i < n) × Known events i p) × (p.state ≡ Piece.missing)) 0 y.pieces)
            same rows)
          (ap (λ (y : PieceManager). length y.pieces) (sym same) ∙ many) in
      let (e, left, rest, g, v, c, u) =
        run-IsDownloading sha1 fs peer_order order never info.piece_length n small wide Part From
          Known laws events x from w open_still in
      (d, e, left, rw (made, new) refl, g, (rest, v, c, u))
