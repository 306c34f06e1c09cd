-- ===== src/Peer/DownloadManager/EndToEnd.antt =====
-- A download from its creation to its end: `DiskIO::new`, `DownloadManager::new`, the peers, and `run`.
use Prim.Native.String.{String}
use motte_seed.Prelude.{
  ℕ, ◌*◌, ◌/◌, ◌^◌, ◌≡◌, ◌<◌, ◌∙◌, refl, sym, ap, true, Bool, Option, some, ok, List, [], ◌∷◌,
  length, All,
}
use motte_seed.Prelude.Assoc.{HashOrder}
use motte_seed.Bytes.{Bytes}
use motte_seed.Torrent.{Info, single_file, piece_hash}
use motte_seed.Disk
use motte_seed.Disk.{DiskIo, FileSystem}
use motte_seed.Disk.Created.{SetsLength}
use motte_seed.Disk.Whole.{pieces-determine, NeverFails, piece_bytes}
use motte_seed.Peer.Block.{Block, PeerIp}
use motte_seed.Peer.Piece.Delivery.{IsListed}
use motte_seed.Peer.PieceManager.{is_download_complete}
use motte_seed.Peer.Connection.{PeerEvent}
use motte_seed.Peer.DownloadManager.{DownloadManager, Peers, new, set_disk_io, run}
use motte_seed.Peer.DownloadManager.Start.{new-OnTheWay}
use motte_seed.Peer.DownloadManager.Events.{offsets, IsFrom, IsPart, OnTheWay, offsets-Follows}
use motte_seed.Peer.DownloadManager.Download.{Holds, complete-parts, nothing_left}
use mathlib.Core.Path.{subst}
use motte_seed.Prelude.{false}
use motte_seed.Peer.DownloadManager.Progress.{IsDownloading}
use motte_seed.Peer.DownloadManager.Created.{add_peers, run-created}

-- Nothing more is to come when the loop does not leave.
left-true :
    (F : Type 0) (sha1 : Bytes → Bytes) (torrent : Bytes) (len s n : ℕ) (d : DownloadManager)
    (left : Bool) (rest : List (PeerEvent F × PeerIp × ℕ))
    → IsDownloading len n (IsPart torrent len) (OnTheWay sha1 torrent len s rest) d
    → is_download_complete d.piece_manager ≡ left
    → (left ≡ false → rest ≡ [])
    → left ≡ true
left-true F sha1 torrent len s n d true rest w c u = refl
left-true F sha1 torrent len s n d false rest w c u =
    sym c
    ∙ nothing_left F sha1 torrent len s n d (
        subst (λ x. IsDownloading len n (IsPart torrent len) (OnTheWay sha1 torrent len s x) d)
          (u refl) w)

module _ (sha1 : Bytes → Bytes) (fs : FileSystem) (peer_order : Peers → Peers)
    (order : HashOrder Block) {F : Type 0} where
  -- A torrent of one file and of `n` pieces, at least one, all of the full piece length, together
  -- fewer than 2^32 bytes, whose digests are those of its data; blocks of 1 to 2^32 - 1 bytes; a
  -- file system where no write fails. The disk and the download manager are created for it, and some
  -- peers are added. Then whatever events come from peers, in whatever order, if each block that
  -- comes has the data of its place (it may come often, and where no block is), and each block of
  -- each piece comes: `run` leaves its loop with the download complete, and then the file on the
  -- disk is the torrent's data.
  pub run-downloads :
      (torrent : Bytes) (info : Info) (block_size n : ℕ) (ips : List PeerIp) (disk : DiskIo)
      (is_utf8 : Bytes → Bool) (created : Option String) (base_path : List Bytes)
      (events : List (PeerEvent F × PeerIp × ℕ))
      → NeverFails fs
      → SetsLength fs
      → 0 < n
      → 0 < info.piece_length
      → 0 < block_size
      → block_size < 2 ^ 32
      → n * info.piece_length < 2 ^ 32
      → length torrent ≡ n * info.piece_length
      → length info.raw_pieces / 20 ≡ n
      → ((i : ℕ)
          → i < n
          → piece_hash info i ≡ some (sha1 (piece_bytes torrent info.piece_length i)))
      → Disk.new fs is_utf8 created base_path (single_file (length torrent)) info.piece_length
        ≡ ok disk
      → All (λ e. IsFrom torrent info.piece_length block_size e.0) events
      → ((i j : ℕ)
          → i < n
          → j * block_size < info.piece_length
          → IsListed (j * block_size) (offsets events i))
      → (d : DownloadManager) × (e : DownloadManager) × (new info block_size ≡ some d)
        × (run sha1 fs peer_order order (set_disk_io (add_peers d ips) disk) events
            ≡ some (e, true))
        × (is_download_complete e.piece_manager ≡ true)
        × Holds e torrent
  run-downloads torrent info s n ips disk is_utf8 created base_path events never law pos wide
        block_wide block_narrow small whole count digests opened from listed =
      let len : ℕ = info.piece_length in
      let (d, e, left, made, g, (rest, v, c, u)) =
        run-created sha1 fs peer_order order info s n (λ i. sha1 (piece_bytes torrent len i))
          (IsPart torrent len) (IsFrom torrent len s) (OnTheWay sha1 torrent len s)
          (offsets-Follows sha1 torrent len s n whole) ips disk is_utf8 created base_path events
          never law pos wide block_wide small count digests
          (new-OnTheWay sha1 torrent len s n whole small wide block_wide block_narrow events listed)
          (subst (λ x. Disk.new fs is_utf8 created base_path (single_file x) len ≡ ok disk) whole
            opened)
          from in
      let yes : left ≡ true = left-true F sha1 torrent len s n e left rest v c u in
      let (m, one, only) = v.single in
      let parts =
        complete-parts len n (IsPart torrent len) (OnTheWay sha1 torrent len s rest) e v
          (c ∙ yes) in
      (
        d,
        e,
        made,
        g ∙ ap (λ x. some (e, x)) yes,
        c ∙ yes,
        (
          v.disk,
          v.disk_is,
          only ∙ ap (λ x. x ∷ []) (pieces-determine v.file torrent len n v.size whole parts),
        ),
      )
